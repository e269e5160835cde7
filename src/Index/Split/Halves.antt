-- ===== src/Index/Split/Halves.antt =====
-- A leaf whose entries take at most half of it can be split.
use wasm_dbms.Prelude.{
  ℕ, ◌+◌, ◌-◌, ◌*◌, ◌≤◌, ◌<◌, ◌≡◌, refl, ap, ◌∙◌, arith, All, List, [], ◌∷◌, ◌++◌, length, false,
  some, leb, Bool-cases, inl, inr,
}
use wasm_dbms.Index.Split.{sum, byte_balanced_split_index}
use wasm_dbms.Index.Split.Balance.{IsSplit, sum-append, byte_balanced_split_index_lem}

-- The first entries that take at least `low` bytes, with `acc` before them.
first_reaching :
    (sizes : List ℕ) (acc low m : ℕ)
    → All (λ s. s ≤ m) sizes
    → acc < low
    → low + m ≤ acc + sum sizes
    → (pre : List ℕ) × (size : ℕ) × (post : List ℕ) × (sizes ≡ pre ++ (size ∷ post))
      × (0 < length pre)
      × (low ≤ acc + sum pre)
      × (acc + sum pre < low + m)
first_reaching [] acc low m hs below enough = absurd (omega arith)
first_reaching (x ∷ []) acc low m hs below enough = absurd (omega (arith, hs.0))
first_reaching (x ∷ y ∷ ys) acc low m (h, hs) below enough = elim (Bool-cases (leb low (acc + x))) [
  | inl reached ↦ (x ∷ [], y, ys, refl, omega arith, ground arith, omega arith)
  | inr short ↦
      let (pre, size, post, e, some_pre, reach, under) =
        first_reaching (y ∷ ys) (acc + x) low m hs (ground arith) (omega arith) in
      (x ∷ pre, size, post, ap (λ t. x ∷ t) e, omega arith, omega arith, omega arith)
]

-- A leaf that one entry makes overflow, and whose entries take at most half of its space each, is split
-- into two halves that fit the page and are not empty.
pub byte_balanced_split_index_half :
    (sizes : List ℕ) (header_size page_size m : ℕ)
    → All (λ s. s ≤ m) sizes
    → header_size + 2 * m ≤ page_size
    → page_size < header_size + sum sizes
    → header_size + sum sizes ≤ page_size + m
    → (pre : List ℕ) × (size : ℕ) × (post : List ℕ) × (byte_balanced_split_index sizes header_size
          page_size false
        ≡ some (length pre))
      × (sizes ≡ pre ++ (size ∷ post))
      × IsSplit header_size page_size false pre size post
byte_balanced_split_index_half sizes header_size page_size m hs half over one =
    let low = header_size + sum sizes - page_size in
    let (pre, size, post, e, nonempty, reach, under) =
      first_reaching sizes 0 low m hs (omega arith) (omega arith) in
    let total : sum sizes ≡ sum pre + (size + sum post) = ap sum e ∙ sum-append pre (size ∷ post) in
    let (pre', size', post', found, parts, is, better) =
      byte_balanced_split_index_lem header_size page_size false sizes pre size post e (record {
        left_nonempty = nonempty;
        right_nonempty = omega arith;
        left_fits = omega arith;
        right_fits = omega arith;
      }) in
    (pre', size', post', found, parts, is)
