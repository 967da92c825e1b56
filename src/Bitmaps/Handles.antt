-- ===== src/Bitmaps/Handles.antt =====
-- The handles of Sources/Win32/wg_win32_bitmap.c.
use wine_glass.Base.{
  ℕ, ◌+◌, ◌^◌, ◌<◌, ◌≡◌, ◌⊎◌, refl, ap, ◌∙◌, Bool, true, false, Option, none, some, List, ◌==◌,
  if◌then◌else◌, Bool-cases, ==_iff, inl, inr, set, arith,
}
use wine_glass.Base.Words.{u32}
use wine_glass.Base.Tables.{
  held, lookup, Below, Distinct, FreeAt, lookup-Below, find_slot-FoundAt, lookup-fill, lookup-clear,
  Below-replicate, Distinct-replicate, Below-set, Below-more, Distinct-fill, Distinct-clear,
}
use wine_glass.Bitmaps.Types.{Bitmap, Bitmaps, no_bitmap, no_bitmaps, hbitmap_base}
use wine_glass.Bitmaps.{is_used, handle_of, find, pixels, delete, delete_at, freed}

-- Handles in use are old and differ.
pub record IsBitmaps (t : Bitmaps) : Type 0 where
  pub old : Below is_used handle_of t.next t.bmps
  pub distinct : Distinct is_used handle_of t.bmps

pub no_bitmaps-IsBitmaps : IsBitmaps no_bitmaps
no_bitmaps-IsBitmaps = record {
  old = Below-replicate is_used handle_of hbitmap_base 64 no_bitmap refl;
  distinct = Distinct-replicate is_used handle_of 64 no_bitmap refl;
}

abbrev pub image_of : Option Bitmap → Option (Option (List ℕ) × ℕ × ℕ)
image_of none = none
image_of (some bm) = some (bm.px, bm.w, bm.h)

pub pixels-lookup :
    (t : Bitmaps) (h : ℕ) → pixels t h ≡ image_of (lookup is_used handle_of t.bmps h)
unfolding pixels lookup
pixels-lookup t h = by_found (find t h)
  where
    by_found :
        (r : Option (ℕ × Bitmap))
        → elim r [ none ↦ none | some (i, bm) ↦ some (bm.px, bm.w, bm.h) ]
          ≡ image_of (held is_used handle_of r)
    by_found none = refl
    by_found (some (i, bm)) = refl

image_if :
    (c : Bool) (x y : Option Bitmap)
    → image_of (if c then x else y) ≡ (if c then image_of x else image_of y)
image_if true x y = refl
image_if false x y = refl

-- A bitmap in a slot that was free: its handle is found, the others as before.
module _ (t : Bitmaps) (i : ℕ) (bm : Bitmap) (v : IsBitmaps t)
    (free : FreeAt is_used handle_of t.bmps i) (taken : bm.used ≡ true) (named : bm.handle ≡ t.next)
    (room : t.next + 1 < 2 ^ 32) where
  abbrev added : Bitmaps
  added = record { bmps = set t.bmps i bm; next = u32 (t.next + 1) }

  unknown : lookup is_used handle_of t.bmps bm.handle ≡ none
  unknown = lookup-Below is_used handle_of t.next t.bmps bm.handle v.old (omega (arith, named))

  pub pixels-added :
      (k : ℕ) → pixels added k ≡ (if k == t.next then image_of (some bm) else pixels t k)
  pixels-added k =
      pixels-lookup added k
      ∙ ap image_of (lookup-fill is_used handle_of t.bmps i bm k free taken unknown)
      ∙ image_if (k == bm.handle) (some bm) (lookup is_used handle_of t.bmps k)
      ∙ rw (named, pixels-lookup t k) refl

  pub added-IsBitmaps : IsBitmaps added
  added-IsBitmaps = record {
    old =
        Below-set is_used handle_of (u32 (t.next + 1)) t.bmps i bm
          (Below-more is_used handle_of t.next (u32 (t.next + 1)) t.bmps v.old
            (omega (arith, room)))
          (λ u. omega (arith, named, room));
    distinct = Distinct-fill is_used handle_of t.bmps i bm v.distinct free taken unknown;
  }

deleted_at :
    (t : Bitmaps) (h k : ℕ) (r : Option (ℕ × Bitmap))
    → IsBitmaps t
    → find t h ≡ r
    → IsBitmaps (delete_at t r) × (pixels (delete_at t r) k ≡ (if k == h then none else pixels t k))
unfolding lookup
deleted_at t h k none v e = (v, gone (Bool-cases (k == h)))
  where
    gone :
        ((k == h) ≡ true) ⊎ ((k == h) ≡ false) → pixels t k ≡ (if k == h then none else pixels t k)
    gone (inl same) =
        rw (same, (==_iff k h).0 same)
          (pixels-lookup t h ∙ ap (λ r. image_of (held is_used handle_of r)) e)
    gone (inr other) = rw other refl
deleted_at t h k (some (i, bm)) v e =
    let f = find_slot-FoundAt is_used handle_of t.bmps h i bm e in
    (
      record {
        old = Below-set is_used handle_of t.next t.bmps i (freed bm) v.old (λ u. absurd cc);
        distinct = Distinct-clear is_used handle_of t.bmps h i bm (freed bm) v.distinct f refl;
      },
      pixels-lookup (record t { bmps = set t.bmps i (freed bm) }) k
          ∙ ap image_of
              (lookup-clear is_used handle_of t.bmps h i bm (freed bm) k v.distinct f refl)
          ∙ image_if (k == h) none (lookup is_used handle_of t.bmps k)
          ∙ rw (pixels-lookup t k) refl,
    )

-- In a table with distinct old handles, a deleted handle has no pixels, every other handle has those
-- it had, and the handles stay distinct and old.
pub delete-pixels :
    (t : Bitmaps) (h k : ℕ)
    → IsBitmaps t
    → IsBitmaps (delete t h) × (pixels (delete t h) k ≡ (if k == h then none else pixels t k))
unfolding delete
delete-pixels t h k v = deleted_at t h k (find t h) v refl
