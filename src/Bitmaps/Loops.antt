-- ===== src/Bitmaps/Loops.antt =====
-- The copying loops of Sources/Win32/wg_win32_bitmap.c: what stands where after them.
use native.Mathlib.Nat.{mul-le-mul_right, zero-add}
use wine_glass.Base.{
  ℕ, zero, suc, ◌+◌, ◌*◌, ◌≤◌, ◌<◌, ◌≡◌, ◌≢◌, refl, sym, ap, ◌∙◌, ◌⊎◌, inl, inr, Bool, true, false,
  Option, some, List, ltb, lt→ltb, ltb→lt, ◌==◌, ==_iff, Bool-cases, set, get_elem?, length,
  length-set, get_elem?-set_self, get_elem?-set_ne, arith,
}
use wine_glass.Bitmaps.{write_px, copy_row, copy_rows, dest_row}

-- After a loop over `n` columns from `x` on: the words of the row, and all others.
pub record RowCopied (source : ℕ → Option ℕ) (n x base : ℕ) (px px' : List ℕ) : Type 0 where
  pub same_length : length px' ≡ length px
  pub copied : (k : ℕ) → k < n → get_elem? px' (base + (x + k)) ≡ source (x + k)
  pub others : (p : ℕ) → (p < base + x) ⊎ (base + (x + n) ≤ p) → get_elem? px' p ≡ get_elem? px p

row_step :
    (source : ℕ → Option ℕ) (n x base v : ℕ) (px px' : List ℕ)
    → source x ≡ some v
    → base + x < length px
    → RowCopied source n (x + 1) base (set px (base + x) v) px'
    → RowCopied source (suc n) x base px px'
row_step source n x base v px px' e h r = record {
  same_length = r.same_length ∙ length-set px (base + x) v;
  copied = at;
  others = λ p out. r.others p (widen p out) ∙ get_elem?-set_ne px (base + x) p v (apart p out);
}
  where
    at : (k : ℕ) → k < suc n → get_elem? px' (base + (x + k)) ≡ source (x + k)
    at zero l =
        ap (get_elem? px') {y = base + x} (omega arith)
        ∙ r.others (base + x) (inl (omega arith))
        ∙ get_elem?-set_self px (base + x) v h
        ∙ sym e
        ∙ ap source {x = x} {y = x + 0} (omega arith)
    at (suc k) l =
        ap (get_elem? px') {y = base + (x + 1 + k)} (omega arith)
        ∙ r.copied k (omega (arith, l))
        ∙ ap source {x = x + 1 + k} {y = x + suc k} (omega arith)

    widen :
        (p : ℕ)
        → (p < base + x) ⊎ (base + (x + suc n) ≤ p)
        → (p < base + (x + 1)) ⊎ (base + (x + 1 + n) ≤ p)
    widen p (inl a) = inl (omega (arith, a))
    widen p (inr b) = inr (omega (arith, b))

    apart : (p : ℕ) → (p < base + x) ⊎ (base + (x + suc n) ≤ p) → base + x ≢ p
    apart p (inl a) q = omega (arith, a, q)
    apart p (inr b) q = omega (arith, b, q)

pub copy_row-RowCopied :
    (source : ℕ → Option ℕ) (n x base : ℕ) (px : List ℕ)
    → ((k : ℕ) → k < n → (v : ℕ) × (source (x + k) ≡ some v))
    → base + (x + n) ≤ length px
    → (px' : List ℕ) × (copy_row source n x base px ≡ some px') × RowCopied source n x base px px'
unfolding copy_row write_px
copy_row-RowCopied source zero x base px total h = (
  px,
  refl,
  record { same_length = refl; copied = λ k l. absurd (omega (arith, l)); others = λ p out. refl },
)
copy_row-RowCopied source (suc n) x base px total h =
    let (v, e) = total 0 (omega arith) in
    let e : source x ≡ some v = ap source {x = x} {y = x + 0} (omega arith) ∙ e in
    let fits : base + x < length px = omega (arith, h) in
    let (px', f, r) =
      copy_row-RowCopied source n (x + 1) base (set px (base + x) v)
        (λ k l.
          let (u, g) = total (suc k) (omega (arith, l)) in
          (u, ap source {x = x + 1 + k} {y = x + suc k} (omega arith) ∙ g))
        (omega (arith, h, length-set px (base + x) v)) in
    (px', rw (e, lt→ltb _ _ fits) f, row_step source n x base v px px' e fits r)

-- Rows stand behind each other.
pub row_fits : (r h w : ℕ) → r < h → r * w + w ≤ h * w
row_fits r h w l = omega (arith, mul-le-mul_right {m = r + 1} {n = h} w (omega (arith, l)))

pub dest_row-lt : (td : Bool) (h y : ℕ) → y < h → dest_row td h y < h
dest_row-lt true h y l = l
dest_row-lt false h y l = omega (arith, l)

dest_row_ne : (td : Bool) (h y k : ℕ) → y < h → k < h → k ≢ y → dest_row td h k ≢ dest_row td h y
dest_row_ne true h y k l m ne = ne
dest_row_ne false h y k l m ne = λ e. ne (omega (arith, l, m, e))

rows_apart :
    (r r' w x : ℕ) → r ≢ r' → x < w → (r * w + x < r' * w + 0) ⊎ (r' * w + (0 + w) ≤ r * w + x)
rows_apart r r' w x ne l = elim (Bool-cases (ltb r r')) [
  | inl below ↦ inl (omega (arith, l, row_fits r r' w (ltb→lt r r' below)))
  | inr above ↦ inr (omega (arith, l, row_fits r' r w (ground arith)))
]

-- After a loop over `n` rows from `y` on: the words of those rows, and those of the rows before.
pub record RowsCopied (source : ℕ → ℕ → Option ℕ) (td : Bool) (w h n y : ℕ) (px px' : List ℕ)
    : Type 0 where
  pub same_length : length px' ≡ length px
  pub copied :
      (k x : ℕ) → y ≤ k → k < y + n → x < w → get_elem? px' (dest_row td h k * w + x) ≡ source k x
  pub before :
      (k x : ℕ)
      → k < y
      → x < w
      → get_elem? px' (dest_row td h k * w + x) ≡ get_elem? px (dest_row td h k * w + x)

rows_step :
    (source : ℕ → ℕ → Option ℕ) (td : Bool) (w h n y : ℕ) (px px1 px' : List ℕ)
    → y + suc n ≡ h
    → RowCopied (source y) w 0 (dest_row td h y * w) px px1
    → RowsCopied source td w h n (y + 1) px1 px'
    → RowsCopied source td w h (suc n) y px px'
rows_step source td w h n y px px1 px' ends one rest = record {
  same_length = rest.same_length ∙ one.same_length;
  copied = at;
  before = λ k x l m.
      rest.before k x (omega (arith, l)) m
      ∙ one.others (dest_row td h k * w + x) (
          rows_apart (dest_row td h k) (dest_row td h y) w x
            (dest_row_ne td h y k (omega (arith, ends)) (omega (arith, ends, l))
              (λ e. omega (arith, e, l)))
            m);
}
  where
    at :
        (k x : ℕ)
        → y ≤ k
        → k < y + suc n
        → x < w
        → get_elem? px' (dest_row td h k * w + x) ≡ source k x
    at k x l m o = elim (Bool-cases (k == y)) [
      | inl e ↦
          let e : k ≡ y = (==_iff k y).0 e in
          rw e (rest.before y x (omega arith) o ∙ simp zero-add at (one.copied x o))
      | inr e ↦ rest.copied k x (ground (arith, l)) (omega (arith, m)) o
    ]

pub copy_rows-RowsCopied :
    (source : ℕ → ℕ → Option ℕ) (td : Bool) (w h n y : ℕ) (px : List ℕ)
    → y + n ≡ h
    → h * w ≤ length px
    → ((k x : ℕ) → k < h → x < w → (v : ℕ) × (source k x ≡ some v))
    → (px' : List ℕ) × (copy_rows source td w h n y px ≡ some px')
      × RowsCopied source td w h n y px px'
unfolding copy_rows
copy_rows-RowsCopied source td w h zero y px ends room total = (
  px,
  refl,
  record {
    same_length = refl;
    copied = λ k x l m o. absurd (omega (arith, l, m));
    before = λ k x l m. refl;
  },
)
copy_rows-RowsCopied source td w h (suc n) y px ends room total =
    let inside : y < h = omega (arith, ends) in
    let (px1, e, one) =
      copy_row-RowCopied (source y) w 0 (dest_row td h y * w) px
        (λ k l. total y (0 + k) inside (omega (arith, l)))
        (omega (arith, room, row_fits (dest_row td h y) h w (dest_row-lt td h y inside))) in
    let (px', f, rest) =
      copy_rows-RowsCopied source td w h n (y + 1) px1 (omega (arith, ends))
        (omega (arith, room, one.same_length)) total in
    (px', rw e f, rows_step source td w h n y px px1 px' ends one rest)
