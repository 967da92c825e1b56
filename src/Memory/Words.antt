-- ===== src/Memory/Words.antt =====
-- Words in a byte buffer, the `memcpy`s of wg_memory.c: what a store leaves for a later load.
use mathlib.Core.Option.{some-injective}
use native.Mathlib.Nat.{pow-succ', one-le-pow}
use wine_glass.Base.{
  ℕ, zero, suc, ◌+◌, ◌*◌, ◌/◌, ◌%◌, ◌^◌, ◌≤◌, ◌<◌, ◌≡◌, refl, ap, sym, ◌∙◌, ◌⊎◌, inl, inr, none,
  some, List, arith, length, get_elem?, set, length-set, get_elem?-set_self, ◌≢◌, get_elem?-set_ne,
  get_elem?_total, get_elem?-lt, Option-cases, lt→ltb,
}
use wine_glass.Memory.{load, store}

-- A store that fits is the store of its low byte, then of the rest one byte on.
store-suc :
    (n : ℕ) (bytes : List ℕ) (off v : ℕ)
    → off < length bytes
    → store (suc n) bytes off v ≡ store n (set bytes off (v % 256)) (suc off) (v / 256)
unfolding store
store-suc n bytes off v h = rw (lt→ltb off (length bytes) h)

store-suc_inside :
    (n : ℕ) (bytes : List ℕ) (off v : ℕ) {out : List ℕ}
    → store (suc n) bytes off v ≡ some out
    → off < length bytes
unfolding store
store-suc_inside n bytes off v h = ground arith

pub store-suc_rest :
    (n : ℕ) (bytes : List ℕ) (off v : ℕ) {out : List ℕ}
    → store (suc n) bytes off v ≡ some out
    → store n (set bytes off (v % 256)) (suc off) (v / 256) ≡ some out
store-suc_rest n bytes off v h =
    sym (store-suc n bytes off v (store-suc_inside n bytes off v h)) ∙ h

pub length-store :
    (n : ℕ) (bytes : List ℕ) (off v : ℕ) {out : List ℕ}
    → store n bytes off v ≡ some out
    → length out ≡ length bytes
unfolding store
length-store zero bytes off v h = ap length (some-injective _ _ (sym h))
length-store (suc n) bytes off v h =
    length-store n _ (suc off) (v / 256) (store-suc_rest n bytes off v h)
    ∙ length-set bytes off (v % 256)

pub store_total :
    (n : ℕ) (bytes : List ℕ) (off v : ℕ)
    → off + n ≤ length bytes
    → (out : List ℕ) × (store n bytes off v ≡ some out)
unfolding store
store_total zero bytes off v h = (bytes, refl)
store_total (suc n) bytes off v h = rw (store-suc n bytes off v (omega arith)) (
    store_total n (set bytes off (v % 256)) (suc off) (v / 256)
      (omega (arith, length-set bytes off (v % 256))))

pub store-fits :
    (n : ℕ) (bytes : List ℕ) (off v : ℕ) {out : List ℕ}
    → store (suc n) bytes off v ≡ some out
    → off + suc n ≤ length bytes
store-fits zero bytes off v h = omega (arith, store-suc_inside zero bytes off v h)
store-fits (suc n) bytes off v h = omega (
  arith,
  store-fits n _ (suc off) (v / 256) (store-suc_rest (suc n) bytes off v h),
  length-set bytes off (v % 256),
)

-- Bytes outside the word are left alone.
pub store-outside :
    (n : ℕ) (bytes : List ℕ) (off v j : ℕ) {out : List ℕ}
    → store n bytes off v ≡ some out
    → (j < off) ⊎ (off + n ≤ j)
    → get_elem? out j ≡ get_elem? bytes j
unfolding store
store-outside zero bytes off v j h o = ap (λ bs. get_elem? bs j) (some-injective _ _ (sym h))
store-outside (suc n) bytes off v j h o =
    store-outside n _ (suc off) (v / 256) j (store-suc_rest n bytes off v h) (later o)
    ∙ get_elem?-set_ne bytes off j (v % 256) (apart o)
  where
    later : (j < off) ⊎ (off + suc n ≤ j) → (j < suc off) ⊎ (suc off + n ≤ j)
    later (inl p) = inl (omega arith)
    later (inr p) = inr (omega arith)

    apart : (j < off) ⊎ (off + suc n ≤ j) → off ≢ j
    apart (inl p) = omega arith
    apart (inr p) = omega arith

word-suc : (n v : ℕ) → v % 256 + 256 * (v / 256 % 256 ^ n) ≡ v % 256 ^ suc n
word-suc n v = rw (pow-succ' 256 n) (split (256 ^ n) (one-le-pow n 256 (omega arith)))
  where
    split : (m : ℕ) → 0 < m → v % 256 + 256 * (v / 256 % m) ≡ v % (256 * m)
    split m h = grind arith

-- A load gives back the word that was stored there, cut to its bytes.
pub load-store :
    (n : ℕ) (bytes : List ℕ) (off v : ℕ) {out : List ℕ}
    → store n bytes off v ≡ some out
    → load n out off ≡ some (v % 256 ^ n)
unfolding load
load-store zero bytes off v h = ap some (omega arith)
load-store (suc n) bytes off v {out} h =
    rw (low, load-store n _ (suc off) (v / 256) rest) (ap some (word-suc n v))
  where
    rest : store n (set bytes off (v % 256)) (suc off) (v / 256) ≡ some out
    rest = store-suc_rest n bytes off v h

    low : get_elem? out off ≡ some (v % 256)
    low =
        store-outside n _ (suc off) (v / 256) off rest (inl (omega arith))
        ∙ get_elem?-set_self bytes off (v % 256) (store-suc_inside n bytes off v h)

-- A load depends on the bytes of its word only.
pub load_ext :
    (n : ℕ) (xs ys : List ℕ) (off : ℕ)
    → ((j : ℕ) → off ≤ j → j < off + n → get_elem? xs j ≡ get_elem? ys j)
    → load n xs off ≡ load n ys off
unfolding load
load_ext zero xs ys off h = refl
load_ext (suc n) xs ys off h = rw (
  h off (omega arith) (omega arith),
  load_ext n xs ys (suc off) (λ j p q. h j (omega arith) (omega arith)),
)

pub load_total :
    (n : ℕ) (bytes : List ℕ) (off : ℕ)
    → off + n ≤ length bytes
    → (v : ℕ) × (load n bytes off ≡ some v)
unfolding load
load_total zero bytes off h = (0, refl)
load_total (suc n) bytes off h =
    let (b, eb) = get_elem?_total bytes off (omega arith) in
    let (v, ev) = load_total n bytes (suc off) (omega arith) in (b + 256 * v, rw (eb, ev))

-- A load that runs past the end of its buffer faults.
pub load-fault :
    (n : ℕ) (bytes : List ℕ) (off : ℕ)
    → off ≤ length bytes
    → length bytes < off + n
    → load n bytes off ≡ none
unfolding load
load-fault zero bytes off h k = absurd (omega arith)
load-fault (suc n) bytes off h k = elim (Option-cases (get_elem? bytes off)) [
  | inl e ↦ rw e
  | inr (b, e) ↦
      let inside : off < length bytes = get_elem?-lt bytes off e in
      rw (e, load-fault n bytes (suc off) inside (omega arith))
]
