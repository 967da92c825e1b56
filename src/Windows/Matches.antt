-- ===== src/Windows/Matches.antt =====
-- Each operation of Sources/Win32/wg_win32_windows.c on a table against the one on a desktop.
use mathlib.Core.Path.{fun_ext}
use wine_glass.Base.{
  ℕ, suc, ◌+◌, ◌<◌, ◌≡◌, refl, sym, ap, ◌∙◌, Bool, true, false, Option, none, some, List, arith,
  leb, ◌==◌, if◌then◌else◌, replicate, set, length-set, Bool-cases, inl, inr,
}
use wine_glass.Base.Fault.{◌>>=◌}
use wine_glass.Base.Words.{u32}
use wine_glass.Windows.Types.{Window, WindowManager, CreateParams, hwnd_base}
use wine_glass.Windows.{
  wm_get, create_window, new_window, copy_title, shown, destroyed, retitled, with_client,
  alloc_client, fill_client, client_height, client_of, find, show_at, destroy_at, set_text_at,
  client_at, put_client,
}
use wine_glass.Windows.Valid.{IsManager, Numbered-set, Numbered-extend}
use wine_glass.Windows.Lookup.{
  look, if_alive, look-set, look-extend, Found, find_first-Found, window_of,
}
use wine_glass.Windows.Refine.{
  Desktop, alter, view, Answer, alter_live, spec_create, spec_show, spec_destroy, spec_set_text,
  spec_put, spec_client, answer_number, answer_pixels,
}

-- A run that faults faults in both; one that does not ends in a valid table, the same desktop and
-- the same answer.
abbrev pub Matches {ℓ} : {A : Type ℓ} → Option (WindowManager × A) → Option (Desktop × A) → Type ℓ
Matches none r = r ≡ none
Matches (some (wm, a)) r = IsManager wm × (r ≡ some (view wm, a))

pub wm_get_ready : (wm : WindowManager) → IsManager wm → wm_get wm ≡ wm
unfolding wm_get
wm_get_ready wm v = let e : (wm.next_handle == 0) ≡ false = ground (arith, v.next) in rw e refl

module _ (wm : WindowManager) (hwnd i : ℕ) (w w' : Window) (v : IsManager wm)
    (f : find wm hwnd ≡ some (i, w)) (kept : w'.handle ≡ w.handle) (dirty : Bool) where
  abbrev written : WindowManager
  written = record wm { windows = set wm.windows i w'; dirty = dirty }

  there : Found wm.count wm.windows hwnd hwnd_base i w
  there = find_first-Found hwnd_base wm.count wm.windows hwnd i w v.numbered f

  written-IsManager : IsManager written
  written-IsManager = record {
    slots = length-set wm.windows i w' ∙ v.slots;
    fits = v.fits;
    next = v.next;
    numbered = Numbered-set hwnd_base wm.count wm.windows i w' v.numbered (kept ∙ there.here);
  }

  view-written : view written ≡ alter_live (view wm) hwnd (if_alive w')
  view-written =
      ap (λ l. record (view wm) { live = l })
        (fun_ext λ k.
          look-set hwnd_base wm.count wm.windows i w' k v.numbered there.below (kept ∙ there.here)
          ∙ ap (λ n. if k == n then if_alive w' else look wm.count wm.windows k)
              (kept ∙ there.same))

pub look_found :
    (wm : WindowManager) (hwnd : ℕ) {r : Option (ℕ × Window)}
    → find wm hwnd ≡ r
    → look wm.count wm.windows hwnd ≡ window_of r
unfolding look
look_found wm hwnd e = ap window_of e

alive_is : (w : Window) → w.alive ≡ true → if_alive w ≡ some w
alive_is w h = rw h refl

module _ (wm : WindowManager) (hwnd : ℕ) (v : IsManager wm) where
  -- A write of a live window at a handle that finds one.
  module _ {A : Type 0} (i : ℕ) (w w' : Window) (a : A) (dirty : Bool)
      (f : find wm hwnd ≡ some (i, w)) (kept : w'.handle ≡ w.handle)
      (lives : w.alive ≡ true → w'.alive ≡ true) where
    put-Matches :
        Matches
          (some (written wm hwnd i w w' v f kept dirty, a))
          (some (alter_live (view wm) hwnd (some w'), a))
    put-Matches = (
      written-IsManager wm hwnd i w w' v f kept dirty,
      ap (λ (d : Desktop). some (d, a))
          (sym (
            view-written wm hwnd i w w' v f kept dirty
            ∙ ap (alter_live (view wm) hwnd)
                (alive_is w' (lives (there wm hwnd i w w' v f kept dirty).lives)))),
    )

  pub show-Matches :
      (cmd : ℕ) (r : Option (ℕ × Window))
      → find wm hwnd ≡ r
      → Matches
          (some (show_at wm cmd r, Answer.done))
          (some (spec_show (view wm) hwnd cmd (window_of r), Answer.done))
  unfolding shown
  show-Matches cmd none e = (v, refl)
  show-Matches cmd (some (i, w)) e = put-Matches i w (shown cmd w) Answer.done _ e refl (λ h. h)

  pub destroy-Matches :
      (r : Option (ℕ × Window))
      → find wm hwnd ≡ r
      → Matches
          (some (destroy_at wm r, Answer.done))
          (some (spec_destroy (view wm) hwnd (window_of r), Answer.done))
  unfolding destroyed
  destroy-Matches none e = (v, refl)
  destroy-Matches (some (i, w)) e = (
    written-IsManager wm hwnd i w (destroyed w) v e refl true,
    ap (λ (d : Desktop). some (d, Answer.done))
        (sym (view-written wm hwnd i w (destroyed w) v e refl true)),
  )

  retitled-Matches :
      (i : ℕ) (w : Window) (t : Option (List ℕ))
      → find wm hwnd ≡ some (i, w)
      → Matches
          (((t >>= λ title. some (record w { title = title })) >>= λ w'.
              some (record wm { windows = set wm.windows i w'; dirty = true }))
            >>= λ wm'. some (wm', Answer.done))
          ((t >>= λ title. some (record w { title = title })) >>= λ w'.
            some (alter_live (view wm) hwnd (some w'), Answer.done))
  retitled-Matches i w none e = refl
  retitled-Matches i w (some title) e =
      put-Matches i w (record w { title = title }) Answer.done true e refl (λ h. h)

  pub set_text-Matches :
      (text : Option (List ℕ)) (r : Option (ℕ × Window))
      → find wm hwnd ≡ r
      → Matches
          (set_text_at wm text r >>= λ wm'. some (wm', Answer.done))
          (spec_set_text (view wm) hwnd text (window_of r))
  unfolding retitled
  set_text-Matches text none e = (v, refl)
  set_text-Matches text (some (i, w)) e = retitled-Matches i w (copy_title w.title text) e

  put_client-Matches :
      (i : ℕ) (w : Window) (made : Option (Option Window))
      → find wm hwnd ≡ some (i, w)
      → ((w' : Window)
          → made ≡ some (some w')
          → (w'.handle ≡ w.handle) × (w.alive ≡ true → w'.alive ≡ true))
      → Matches
          ((made >>= λ m. some (put_client wm i m)) >>= λ r. some (answer_pixels r))
          (made >>= λ m. some (spec_put (view wm) hwnd m))
  put_client-Matches i w none e kept = refl
  put_client-Matches i w (some none) e kept = (v, refl)
  put_client-Matches i w (some (some w')) e kept =
      put-Matches i w w' (Answer.pixels (client_of w')) wm.dirty e (kept w' refl).0 (kept w' refl).1

pub with_client_kept :
    (malloc : ℕ → Bool) (w w' : Window)
    → with_client malloc w ≡ some (some w')
    → (w'.handle ≡ w.handle) × (w.alive ≡ true → w'.alive ≡ true)
unfolding with_client alloc_client fill_client client_height
with_client_kept malloc w w' h = ground arith

pub client-Matches :
    (malloc : ℕ → Bool) (wm : WindowManager) (hwnd : ℕ) (r : Option (ℕ × Window))
    → IsManager wm
    → find wm hwnd ≡ r
    → Matches
        (client_at malloc wm r >>= λ r. some (answer_pixels r))
        (spec_client malloc (view wm) hwnd (window_of r))
client-Matches malloc wm hwnd none v e = (v, refl)
client-Matches malloc wm hwnd (some (i, w)) v e =
    put_client-Matches wm hwnd v i w (with_client malloc w) e (with_client_kept malloc w)

module _ (wm : WindowManager) (p : CreateParams) (title : List ℕ) (v : IsManager wm)
    (room : wm.count < 64) where
  abbrev extended : WindowManager
  extended = record wm {
    windows = set wm.windows wm.count (new_window wm.next_handle p title);
    count = suc wm.count;
    next_handle = u32 (wm.next_handle + 1);
    dirty = true;
  }

  extended-IsManager : IsManager extended
  unfolding new_window
  extended-IsManager = record {
    slots = length-set wm.windows wm.count _ ∙ v.slots;
    fits = omega (arith, room);
    next = omega (arith, room, v.next);
    numbered =
        Numbered-extend hwnd_base wm.count wm.windows _ v.numbered (omega (arith, v.slots, room))
          v.next;
  }

  live-extended :
      look (suc wm.count) (set wm.windows wm.count (new_window wm.next_handle p title))
      ≡ alter (look wm.count wm.windows) wm.next_handle (some (new_window wm.next_handle p title))
  unfolding new_window
  live-extended = fun_ext λ k.
      look-extend hwnd_base wm.count wm.windows (new_window wm.next_handle p title) k v.numbered
        (omega (arith, v.slots, room)) v.next

  extended-Matches : Matches (some (extended, Answer.number wm.next_handle)) (
      some (
        record {
          created = suc wm.count;
          live =
              alter
                (look wm.count wm.windows)
                (hwnd_base + wm.count)
                (some (new_window (hwnd_base + wm.count) p title));
        },
        Answer.number (hwnd_base + wm.count),
      ))
  extended-Matches = (extended-IsManager, made)
    where
      made :
          ◌≡◌ {A = Option (Desktop × Answer)}
            (some (
              record {
                created = suc wm.count;
                live =
                    alter
                      (look wm.count wm.windows)
                      (hwnd_base + wm.count)
                      (some (new_window (hwnd_base + wm.count) p title));
              },
              Answer.number (hwnd_base + wm.count),
            ))
            (some (view extended, Answer.number wm.next_handle))
      made = rw (← v.next) (
          ap
            (λ (f : ℕ → Option Window).
              some (record { created = suc wm.count; live = f }, Answer.number wm.next_handle))
            (sym live-extended))

titled-Matches :
    (wm : WindowManager) (p : CreateParams) (t : Option (List ℕ))
    → IsManager wm
    → wm.count < 64
    → Matches
        ((t >>= λ title. some (
          record wm {
            windows = set wm.windows wm.count (new_window wm.next_handle p title);
            count = suc wm.count;
            next_handle = u32 (wm.next_handle + 1);
            dirty = true;
          },
          wm.next_handle,
        ))
          >>= λ r. some (answer_number r))
        (t >>= λ title. some (
          record {
            created = suc wm.count;
            live =
                alter
                  (look wm.count wm.windows)
                  (hwnd_base + wm.count)
                  (some (new_window (hwnd_base + wm.count) p title));
          },
          Answer.number (hwnd_base + wm.count),
        ))
titled-Matches wm p none v room = refl
titled-Matches wm p (some title) v room = extended-Matches wm p title v room

pub create-Matches :
    (wm : WindowManager) (p : CreateParams)
    → IsManager wm
    → Matches (create_window wm p >>= λ r. some (answer_number r)) (spec_create (view wm) p)
unfolding create_window
create-Matches wm p v = rw (wm_get_ready wm v) (elim (Bool-cases (leb 64 wm.count)) [
  | inl e ↦ rw e (v, refl)
  | inr e ↦ rw e (titled-Matches wm p (copy_title (replicate 256 0) p.title) v (ground arith))
])
