-- ===== src/X86/Decode/Safe/Fetches.antt =====
-- The fetches and `decode_modrm` stay in the buffer, and what they give fits its type.
use mathlib.Core.Path.{subst}
use native.Mathlib.Nat.{one-le-pow, pow-le-pow_right}
use native.Mathlib.Numerals.{towards_suc}
use wine_glass.Base.{
  ℕ, zero, suc, ◌+◌, ◌*◌, ◌^◌, ◌≤◌, ◌<◌, ◌≡◌, refl, true, false, leb, Option, none, some, arith,
  List, length, get_elem?, get_elem?_total, le-of_get_elem?, All, All-get, Bool-cases, inl, inr,
  bit_or,
}
use wine_glass.Base.Words.{sext, ◌<<<◌}
use wine_glass.Base.Bits.{bit_or-lt}
use wine_glass.Memory.Valid.{IsByte}
use wine_glass.X86.State.{IsU64}
use wine_glass.X86.Decode.Fetch.{
  Ctx, peek, fetch8, fetch16, fetch32, fetch64, fetch_simm8, fetch_simm32, get_ctx, with_byte,
  word_at, fetch_word,
}
use wine_glass.X86.Decode.Safe.{IsCtx, Outcome, Runs, Runs-pure, Runs-bind, Runs-weaken}

-- Moving on within `end`.
advanced : (c : Ctx) (n : ℕ) → IsCtx c → c.pos + n ≤ c.end → IsCtx (record c { pos = c.pos + n })
advanced c n h e = record {
  inside = e;
  in_code = h.in_code;
  bytes = h.bytes;
  r_bit = h.r_bit;
  x_bit = h.x_bit;
  b_bit = h.b_bit;
}

pub peek-Runs : Runs IsByte peek
unfolding peek
peek-Runs = record { at = λ c h. go c h (get_elem? c.code c.pos) refl }
  where
    go :
        (c : Ctx)
        → IsCtx c
        → (o : Option ℕ) → get_elem? c.code c.pos ≡ o
        → Outcome IsByte c (with_byte c o)
    go c h none e = omega (arith, le-of_get_elem? c.code c.pos e, h.inside, h.in_code)
    go c h (some b) e = (h, refl, refl, omega arith, All-get IsByte c.code c.pos h.bytes e)

pub get_ctx-Runs : Runs IsCtx get_ctx
unfolding get_ctx
get_ctx-Runs = record { at = λ c h. (h, refl, refl, omega arith, h) }

pub fetch8-Runs : Runs IsByte fetch8
unfolding fetch8
fetch8-Runs = record {
  at = λ c h. elim (Bool-cases (leb c.end c.pos)) [
    | inl e ↦ rw (e, fetch8) (h, refl, refl, omega arith, omega arith)
    | inr e ↦
        let (b, eb) = get_elem?_total c.code c.pos (within c h e) in
        rw (e, eb, fetch8)
          (
            advanced c 1 h (room c e),
            refl,
            refl,
            omega arith,
            All-get IsByte c.code c.pos h.bytes eb,
          )
  ];
}
  where
    room : (c : Ctx) → leb c.end c.pos ≡ false → c.pos + 1 ≤ c.end
    room c e = ground arith

    within : (c : Ctx) → IsCtx c → leb c.end c.pos ≡ false → c.pos < length c.code
    within c h e = omega (arith, room c e, h.in_code)

word_at-suc :
    (n : ℕ) (code : List ℕ) (pos b v : ℕ)
    → get_elem? code pos ≡ some b
    → word_at n code (suc pos) ≡ some v
    → word_at (suc n) code pos ≡ some (bit_or (v <<< 8) b)
word_at-suc n code pos b v eb ev = rw (eb, ev, word_at)

-- A word of `n` bytes inside the code is there, and fits `8 * n` bits.
word_at_total :
    (n : ℕ) (code : List ℕ) (pos : ℕ)
    → All IsByte code
    → pos + n ≤ length code
    → (v : ℕ) × (word_at n code pos ≡ some v) × (v < 2 ^ (8 * n))
word_at_total zero code pos h fits = (0, refl, omega arith)
word_at_total (suc n) code pos h fits =
    let (b, eb) = get_elem?_total code pos (omega arith) in
    let (v, ev, bound) = word_at_total n code (suc pos) h (omega arith) in
    (
      bit_or (v <<< 8) b,
      word_at-suc n code pos b v eb ev,
      subst (λ (t : ℕ). bit_or (v <<< 8) b < 2 ^ t) (omega arith)
          (bit_or-lt (8 * n + 8) (v <<< 8) b (shifted n v bound)
            (small n b (All-get IsByte code pos h eb))),
    )
  where
    shifted : (n v : ℕ) → v < 2 ^ (8 * n) → v <<< 8 < 2 ^ (8 * n + 8)
    shifted n v h = simp towards_suc (omega (arith, h))

    small : (n b : ℕ) → b < 256 → b < 2 ^ (8 * n + 8)
    small n b h = simp towards_suc (omega (arith, h, one-le-pow (8 * n) 2))

fetch_word-Runs : (n : ℕ) → Runs (λ v. v < 2 ^ (8 * n)) (fetch_word n)
fetch_word-Runs n = record {
  at = λ c h. elim (Bool-cases (leb (c.pos + n) c.end)) [
    | inl e ↦
        let (v, ev, bound) = word_at_total n c.code c.pos h.bytes (within c h e) in
        rw (e, ev) (advanced c n h (room c e), refl, refl, omega arith, bound)
    | inr e ↦ rw e (h, refl, refl, omega arith, one-le-pow (8 * n) 2 (omega arith))
  ];
}
  where
    room : (c : Ctx) → leb (c.pos + n) c.end ≡ true → c.pos + n ≤ c.end
    room c e = ground arith

    within : (c : Ctx) → IsCtx c → leb (c.pos + n) c.end ≡ true → c.pos + n ≤ length c.code
    within c h e = omega (arith, room c e, h.in_code)

pub fetch16-Runs : Runs IsU64 fetch16
unfolding fetch16
fetch16-Runs = Runs-weaken fetch16 (fetch_word-Runs 2) (λ v h. omega arith)

pub fetch32-Runs : Runs (λ v. v < 2 ^ 32) fetch32
unfolding fetch32
fetch32-Runs = fetch_word-Runs 4

pub sext-lt : (w x : ℕ) → w ≤ 64 → x < 2 ^ w → sext w x < 2 ^ 64
sext-lt w x h k = ground (arith, pow-le-pow_right {n = 2} (omega arith) {i = w} {j = 64} h)

pub fetch64-Runs : Runs IsU64 fetch64
unfolding fetch64
fetch64-Runs = Runs-bind fetch32 _ fetch32-Runs λ lo hlo.
    Runs-bind fetch32 _ fetch32-Runs
      λ hi hhi. Runs-pure _ (bit_or-lt 64 lo (hi <<< 32) (omega arith) (omega arith))

pub fetch_simm32-Runs : Runs IsU64 fetch_simm32
unfolding fetch_simm32
fetch_simm32-Runs =
    Runs-bind fetch32 _ fetch32-Runs λ v h. Runs-pure _ (sext-lt 32 v (omega arith) h)

pub fetch_simm8-Runs : Runs IsU64 fetch_simm8
unfolding fetch_simm8
fetch_simm8-Runs = Runs-bind fetch8 _ fetch8-Runs λ v h. Runs-pure _ (sext-lt 8 v (omega arith) h)
