-- ===== src/Segments/Space.antt =====
-- The space that a table of free segments stands for: what merging and splitting do to it.
use wasm_dbms.Prelude.{ℕ, zero, suc, ◌+◌, ◌-◌, ◌≡◌, refl, ap, ◌∙◌, arith, inl, inr}
use wasm_dbms.Prelude.{List, [], ◌∷◌, ◌++◌, Bool, true, ◌&&◌, none, some, ltb, leb, ◌==◌}
use wasm_dbms.Prelude.{if◌then◌else◌, length, get_elem?, Bool-cases, Option-cases}
use wasm_dbms.Encode.{Page, msize_max}
use wasm_dbms.Memory.Unclaimed.{pop_last}
use wasm_dbms.Segments.Table.{FreeSegment, find, position, swap_remove, set, is_segment}

-- A sum over the segments of a table.
abbrev pub total : (FreeSegment → ℕ) → List FreeSegment → ℕ
total f [] = 0
total f (x ∷ xs) = f x + total f xs

-- 1 when `r` covers the byte `b` of the page `p`.
abbrev pub covers : Page → ℕ → FreeSegment → ℕ
covers p b r = if r.page == p && (leb r.offset b && ltb b (r.offset + r.size)) then 1 else 0

-- How many segments of a table hold the byte `b` of the page `p`.
abbrev pub times_free : Page → ℕ → List FreeSegment → ℕ
times_free p b = total (covers p b)

-- By how much a segment exceeds the range of its offsets.
abbrev pub excess : FreeSegment → ℕ
excess r = r.offset + r.size - msize_max

abbrev pub one : FreeSegment → ℕ
one r = 1

pub length-total : (xs : List FreeSegment) → total one xs ≡ length xs
length-total [] = refl
length-total (x ∷ xs) = omega (arith, length-total xs)

pub total-append :
    (f : FreeSegment → ℕ) (xs ys : List FreeSegment) → total f (xs ++ ys) ≡ total f xs + total f ys
total-append f [] ys = omega arith
total-append f (x ∷ xs) ys = omega (arith, total-append f xs ys)

pop_last-append :
    (xs : List FreeSegment) (z : FreeSegment) (front : List FreeSegment)
    → pop_last xs ≡ some (z, front)
    → xs ≡ front ++ (z ∷ [])
pop_last-append [] z front h = cc
pop_last-append (x ∷ []) z front h = cc
pop_last-append (x ∷ y ∷ xs) z front h = elim (Option-cases (pop_last (y ∷ xs))) [
  | inl e ↦ let step : pop_last (x ∷ y ∷ xs) ≡ none = rw e in cc
  | inr ((w, rest), e) ↦
      let step : pop_last (x ∷ y ∷ xs) ≡ some (w, x ∷ rest) = rw e in
      cc (pop_last-append (y ∷ xs) w rest e, h, step)
]

pop_last-none : (xs : List FreeSegment) → pop_last xs ≡ none → xs ≡ []
pop_last-none [] h = refl
pop_last-none (x ∷ []) h = cc
pop_last-none (x ∷ y ∷ xs) h = elim (Option-cases (pop_last (y ∷ xs))) [
  | inl e ↦ cc (pop_last-none (y ∷ xs) e)
  | inr ((w, rest), e) ↦ let step : pop_last (x ∷ y ∷ xs) ≡ some (w, x ∷ rest) = rw e in cc
]

total-set :
    (f : FreeSegment → ℕ) (front : List FreeSegment) (z : FreeSegment) (i : ℕ) (x : FreeSegment)
    → get_elem? (front ++ (z ∷ [])) i ≡ some x
    → total f (set front i z) + f x ≡ total f (front ++ (z ∷ []))
total-set f [] z zero x h = let e : z ≡ x = cc in omega (arith, ap f e)
total-set f [] z (suc i) x h = cc
total-set f (y ∷ ys) z zero x h =
    let e : y ≡ x = cc in omega (arith, ap f e, total-append f ys (z ∷ []))
total-set f (y ∷ ys) z (suc i) x h = omega (arith, total-set f ys z i x h)

pub position_lem :
    (test : FreeSegment → Bool) (xs : List FreeSegment) (i : ℕ)
    → position test xs ≡ some i
    → (x : FreeSegment) × (get_elem? xs i ≡ some x) × (test x ≡ true)
unfolding position
position_lem test [] i h = cc
position_lem test (y ∷ ys) zero h = elim (Bool-cases (test y)) [
  | inl e ↦ (y, refl, e)
  | inr e ↦ elim (Option-cases (position test ys)) [
    | inl none_left ↦ cc (rw (e, none_left) at h)
    | inr (j, later) ↦ let no : some (suc j) ≡ some 0 = rw (e, later) at h in cc
  ]
]
position_lem test (y ∷ ys) (suc i) h = elim (Bool-cases (test y)) [
  | inl e ↦ let no : some 0 ≡ some (suc i) = rw e at h in cc
  | inr e ↦ elim (Option-cases (position test ys)) [
    | inl none_left ↦ cc (rw (e, none_left) at h)
    | inr (j, later) ↦
        let same : some (suc j) ≡ some (suc i) = rw (e, later) at h in
        position_lem test ys i (later ∙ cc)
  ]
]

is_segment_refl : (r : FreeSegment) → is_segment r r ≡ true
is_segment_refl r = ground arith

is_segment_eq : (s r : FreeSegment) → is_segment s r ≡ true → r ≡ s
is_segment_eq s r h =
    let page : r.page ≡ s.page = ground arith in
    let offset : r.offset ≡ s.offset = ground arith in
    let size : r.size ≡ s.size = ground arith in cc

some-injective : {a b : FreeSegment} → some a ≡ some b → a ≡ b
some-injective h = cc

pub find_lem :
    (test : FreeSegment → Bool) (xs : List FreeSegment) (r : FreeSegment)
    → find test xs ≡ some r
    → (test r ≡ true) × ((i : ℕ) × (position (is_segment r) xs ≡ some i))
unfolding find position
find_lem test [] r h = cc
find_lem test (y ∷ ys) r h = elim (Bool-cases (test y)) [
  | inl e ↦
      let same : y ≡ r = some-injective (rw e at h) in
      let here : is_segment r y ≡ true = rw same (is_segment_refl r) in
      (rw (← same) e, (0, rw here))
  | inr e ↦
      let (holds, found) = find_lem test ys r (rw e at h) in
      let (i, there) = found in
      elim (Bool-cases (is_segment r y)) [
        | inl here ↦ (holds, (0, rw here))
        | inr not_here ↦ (holds, (suc i, rw (not_here, there)))
      ]
]

-- `remove` and `swap_remove` take one copy of the segment away, and nothing else.
pub total-swap_remove :
    (f : FreeSegment → ℕ) (seg : FreeSegment) (xs : List FreeSegment) (i : ℕ)
    → position (is_segment seg) xs ≡ some i
    → total f (swap_remove i xs) + f seg ≡ total f xs
unfolding swap_remove
total-swap_remove f seg xs i h =
    let (x, there, same) = position_lem (is_segment seg) xs i h in
    let e : x ≡ seg = is_segment_eq seg x same in
    elim (Option-cases (pop_last xs)) [
      | inl gone ↦ cc (ap (λ t. get_elem? t i) (pop_last-none xs gone), there)
      | inr ((z, front), last) ↦
          let parts = pop_last-append xs z front last in
          let there' : get_elem? (front ++ (z ∷ [])) i ≡ some x = rw (← parts) there in
          let step : swap_remove i xs ≡ set front i z = rw (last, swap_remove) refl in
          omega
            (arith, total-set f front z i x there', ap f e, ap (total f) parts, ap (total f) step)
    ]
