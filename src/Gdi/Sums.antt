-- ===== src/Gdi/Sums.antt =====
-- The arithmetic and the single pixel of `blit_pixels` of Sources/Win32/wg_win32_gdi.c.
use native.Mathlib.Nat.{mul-lt-mul_of_pos_right, div-lt_iff_lt-mul, mul_comm}
use wine_glass.Base.{
  ℕ, ◌+◌, ◌*◌, ◌/◌, ◌^◌, ◌≤◌, ◌<◌, ◌≡◌, ◌≢◌, ◌⊎◌, refl, false, ◌&&◌, some, List, ltb, lt→ltb, leb,
  ◌==◌, Bool-cases, inl, inr, set, get_elem?, get_elem?_total, get_elem?-set_ne, length, length-set,
  arith,
}
use wine_glass.Base.Words.{u32}
use wine_glass.Bitmaps.{write_px}
use wine_glass.Gdi.Blit.{add_int, scaled, channel, blended, put_over, Blit}

-- `v + k` fits in an `int32_t` for `k` below `n`, for a pattern `v` of 32 bits.
abbrev pub NoOverflow : ℕ → ℕ → Type 0
NoOverflow v n = (v < 2 ^ 32) × ((2 ^ 31 ≤ v) ⊎ (v + n ≤ 2 ^ 31))

-- The sums and products of the loops fit in an `int32_t`.
pub record IsBlit (p : Blit) : Type 0 where
  pub source_columns : 0 < p.sw
  pub source_rows : 0 < p.sh
  pub across : NoOverflow p.dx p.dw
  pub down : NoOverflow p.dy p.dh
  pub source_across : NoOverflow p.sx p.sw
  pub source_down : NoOverflow p.sy p.sh
  pub wide : p.dw * p.sw ≤ 2 ^ 31
  pub tall : p.dh * p.sh ≤ 2 ^ 31

pub add_int_lem : (v n k : ℕ) → NoOverflow v n → k < n → add_int v k ≡ some (u32 (v + k))
unfolding add_int
add_int_lem v n k (fits, inl neg) l =
    let e : (ltb v (2 ^ 31) && leb (2 ^ 31) (v + k)) ≡ false = ground arith in rw e refl
add_int_lem v n k (fits, inr small) l =
    let e : (ltb v (2 ^ 31) && leb (2 ^ 31) (v + k)) ≡ false = ground (arith, small, l) in rw e refl

pub scaled_total :
    (v k s d : ℕ)
    → NoOverflow v s
    → 0 < s
    → k < d
    → d * s ≤ 2 ^ 31
    → (r : ℕ) × (scaled v k s d ≡ some r)
unfolding scaled
scaled_total v k s d fits some_columns l small =
    let inside : k * s < d * s = mul-lt-mul_of_pos_right {n = d} {k = s} l some_columns in
    let below : k * s / d < s =
      (div-lt_iff_lt-mul {k = d} {x = k * s} {y = s} (omega (arith, l))).1
        (omega (arith, inside, mul_comm s d)) in
    let e : leb (2 ^ 31) (k * s) ≡ false = ground (arith, inside, small) in
    (u32 (v + k * s / d), rw e (add_int_lem v s (k * s / d) fits below))

-- A step that keeps the length and changes at most the word at `at`.
pub record Wrote (dst dst' : List ℕ) (at : ℕ) : Type 0 where
  pub same_length : length dst' ≡ length dst
  pub others : (q : ℕ) → at ≢ q → get_elem? dst' q ≡ get_elem? dst q

pub unchanged : (dst : List ℕ) (at : ℕ) → Wrote dst dst at
unchanged dst at = record { same_length = refl; others = λ q ne. refl }

pub written : (dst : List ℕ) (at v : ℕ) → Wrote dst (set dst at v) at
written dst at v = record {
  same_length = length-set dst at v;
  others = λ q ne. get_elem?-set_ne dst at q v ne;
}

write_px_total :
    (dst : List ℕ) (at v : ℕ) → at < length dst → write_px dst at v ≡ some (set dst at v)
unfolding write_px
write_px_total dst at v l = rw (lt→ltb at (length dst) l) refl

pub put_over_total :
    (dst : List ℕ) (at s : ℕ)
    → at < length dst
    → (dst' : List ℕ) × (put_over dst at s ≡ some dst') × Wrote dst dst' at
unfolding put_over
put_over_total dst at s l = elim (Bool-cases (channel s 24 == 0xFF)) [
  | inl opaque ↦ (set dst at s, rw opaque (write_px_total dst at s l), written dst at s)
  | inr other ↦ elim (Bool-cases (channel s 24 == 0)) [
    | inl clear ↦ (dst, rw (other, clear) refl, unchanged dst at)
    | inr part ↦
        let (d, e) = get_elem?_total dst at l in
        (
          set dst at (blended s d (channel s 24)),
          rw (other, part) (rw e (write_px_total dst at (blended s d (channel s 24)) l)),
          written dst at (blended s d (channel s 24)),
        )
  ]
]
