-- ===== src/Index/Split/Balance.antt =====
-- The split that is chosen fits both halves, and none that does is better balanced.
use wasm_dbms.Prelude.{
  ℕ, suc, ◌+◌, ◌-◌, ◌≤◌, ◌<◌, ◌≡◌, ◌⊎◌, inl, inr, refl, ap, ◌∙◌, arith, List, [], ◌∷◌, ◌++◌, length,
  length-append, Bool, true, false, Option, none, some, ltb, if◌then◌else◌, Bool-cases, le→ltb,
}
use wasm_dbms.Index.Split.{
  sum, abs_diff, is_better, right_of, is_split, consider, split_loop, byte_balanced_split_index,
}

module _ (capacity total count : ℕ) (promote : Bool) where
  better_or_kept :
      (index left size i m : ℕ)
      → (i' m' : ℕ) × (consider capacity total count promote index left size (some (i, m))
          ≡ some (i', m'))
        × (m' ≤ m)
  better_or_kept index left size i m =
      elim (Bool-cases (is_split capacity total count promote index left size)) [
        | inr no_split ↦ (i, m, rw no_split refl, omega arith)
        | inl split ↦
            elim (Bool-cases
              (ltb (abs_diff left (right_of capacity total count promote left size)) m)) [
                | inl less ↦ (
                  index,
                  abs_diff left (right_of capacity total count promote left size),
                  rw (split, less) refl,
                  ground arith,
                )
                | inr more ↦ (i, m, rw (split, more) refl, omega arith)
              ]
      ]

  abbrev loop : List ℕ → ℕ → ℕ → Option (ℕ × ℕ) → Option (ℕ × ℕ)
  loop = split_loop capacity total count promote

  abbrev splits : ℕ → ℕ → ℕ → Bool
  splits = is_split capacity total count promote

  abbrev imbalance : ℕ → ℕ → ℕ
  imbalance left size = abs_diff left (right_of capacity total count promote left size)

  -- The best does not get worse.
  loop_kept :
      (sizes : List ℕ) (index left i m : ℕ)
      → (i' m' : ℕ) × (loop sizes index left (some (i, m)) ≡ some (i', m')) × (m' ≤ m)
  unfolding split_loop
  loop_kept [] index left i m = (i, m, refl, omega arith)
  loop_kept (size ∷ sizes) index left i m =
      let (i1, m1, first, le1) = better_or_kept index left size i m in
      let (i2, m2, second, le2) = loop_kept sizes (index + 1) (left + size) i1 m1 in
      (i2, m2, rw first second, omega arith)

  consider_split :
      (index left size : ℕ) (best : Option (ℕ × ℕ))
      → splits index left size ≡ true
      → (i m : ℕ) × (consider capacity total count promote index left size best ≡ some (i, m))
        × (m ≤ imbalance left size)
  consider_split index left size none h = (index, imbalance left size, rw h refl, omega arith)
  consider_split index left size (some (i, b)) h = elim (Bool-cases (ltb (imbalance left size) b)) [
    | inl less ↦ (index, imbalance left size, rw (h, less) refl, omega arith)
    | inr more ↦ (i, b, rw (h, more) refl, ground arith)
  ]

  -- Every split that is passed is at most as balanced.
  loop_best :
      (pre : List ℕ) (size : ℕ) (post : List ℕ) (index left : ℕ) (best : Option (ℕ × ℕ))
      → splits (index + length pre) (left + sum pre) size ≡ true
      → (i m : ℕ) × (loop (pre ++ (size ∷ post)) index left best ≡ some (i, m))
        × (m ≤ imbalance (left + sum pre) size)
  unfolding split_loop
  loop_best [] size post index left best h =
      let i0 : index + 0 ≡ index = omega arith in
      let l0 : left + 0 ≡ left = omega arith in
      let (i, m, first, le) = consider_split index left size best (rw (i0, l0) at h) in
      let (i2, m2, second, le2) = loop_kept post (index + 1) (left + size) i m in
      (i2, m2, ap (loop post (index + 1) (left + size)) first ∙ second, rw l0 (omega arith))
  loop_best (p ∷ pre) size post index left best h =
      let ei : index + 1 + length pre ≡ index + suc (length pre) = omega arith in
      let el : left + p + sum pre ≡ left + (p + sum pre) = omega arith in
      let (i, m, found, le) =
        loop_best pre size post (index + 1) (left + p)
          (consider capacity total count promote index left p best) (rw (ei, el) h) in
      (i, m, found, rw⁻¹ el le)

  consider_sound :
      (Q : Option (ℕ × ℕ) → Type 0) (index left size : ℕ) (best : Option (ℕ × ℕ))
      → Q best
      → (splits index left size ≡ true → Q (some (index, imbalance left size)))
      → Q (consider capacity total count promote index left size best)
  consider_sound Q index left size best old new = elim (Bool-cases (splits index left size)) [
    | inr no_split ↦ rw no_split old
    | inl split ↦ elim (Bool-cases (is_better (imbalance left size) best)) [
      | inl better ↦ rw (split, better) (new split)
      | inr worse ↦ rw (split, worse) old
    ]
  ]

  -- Nothing but a split is answered.
  loop_sound :
      (Q : Option (ℕ × ℕ) → Type 0) (sizes : List ℕ) (index left : ℕ) (best : Option (ℕ × ℕ))
      → Q best
      → ((pre : List ℕ) (size : ℕ) (post : List ℕ)
          → sizes ≡ pre ++ (size ∷ post)
          → splits (index + length pre) (left + sum pre) size ≡ true
          → Q (some (index + length pre, imbalance (left + sum pre) size)))
      → Q (loop sizes index left best)
  unfolding split_loop
  loop_sound Q [] index left best old new = old
  loop_sound Q (size ∷ sizes) index left best old new =
      let i0 : index + 0 ≡ index = omega arith in
      let l0 : left + 0 ≡ left = omega arith in
      loop_sound Q sizes (index + 1) (left + size)
        (consider capacity total count promote index left size best)
        (consider_sound Q index left size best old
          (λ split. rw (i0, l0) at (new [] size sizes refl (rw (i0, l0) split))))
        (λ pre next post e split.
          let ei : index + 1 + length pre ≡ index + suc (length pre) = omega arith in
          let el : left + size + sum pre ≡ left + (size + sum pre) = omega arith in
          rw (ei, el) (new (size ∷ pre) next post (rw e refl) (rw (ei, el) at split)))

pub sum-append : (xs ys : List ℕ) → sum (xs ++ ys) ≡ sum xs + sum ys
sum-append [] ys = omega arith
sum-append (x ∷ xs) ys = omega (arith, sum-append xs ys)

-- The bytes of the entries from `size` on that stay in the right half.
abbrev pub right_half : Bool → ℕ → List ℕ → ℕ
right_half promote size post = if promote then sum post else size + sum post

-- A split before `size` that leaves both halves with an entry and within the page.
pub record IsSplit (header_size page_size : ℕ) (promote : Bool) (pre : List ℕ) (size : ℕ)
    (post : List ℕ) : Type 0 where
  pub left_nonempty : 0 < length pre
  pub right_nonempty : 0 < (if promote then length post else 1)
  pub left_fits : header_size + sum pre ≤ page_size
  pub right_fits : header_size + right_half promote size post ≤ page_size

module _ (header_size page_size : ℕ) (pre : List ℕ) (size : ℕ) (post : List ℕ) where
  abbrev all : List ℕ
  all = pre ++ (size ∷ post)

  right_of_lem :
      (promote : Bool)
      → right_of (page_size - header_size) (sum all) (length all) promote (sum pre) size
        ≡ right_half promote size post
  right_of_lem true = omega (arith, sum-append pre (size ∷ post))
  right_of_lem false = omega (arith, sum-append pre (size ∷ post))

  is_split-IsSplit :
      (promote : Bool)
      → IsSplit header_size page_size promote pre size post
      → is_split
          (page_size - header_size)
          (sum all)
          (length all)
          promote
          (length pre)
          (sum pre)
          size
        ≡ true
  is_split-IsSplit true h = ground (
    arith,
    sum-append pre (size ∷ post),
    length-append pre (size ∷ post),
    h.left_nonempty,
    h.right_nonempty,
    h.left_fits,
    h.right_fits,
  )
  is_split-IsSplit false h = ground (
    arith,
    sum-append pre (size ∷ post),
    length-append pre (size ∷ post),
    h.left_nonempty,
    h.left_fits,
    h.right_fits,
  )

  IsSplit-is_split :
      (promote : Bool)
      → header_size ≤ page_size
      → is_split
          (page_size - header_size)
          (sum all)
          (length all)
          promote
          (length pre)
          (sum pre)
          size
        ≡ true
      → IsSplit header_size page_size promote pre size post
  IsSplit-is_split true le h = record {
    left_nonempty = ground arith;
    right_nonempty = ground (arith, length-append pre (size ∷ post));
    left_fits = ground arith;
    right_fits = ground (arith, sum-append pre (size ∷ post));
  }
  IsSplit-is_split false le h = record {
    left_nonempty = ground arith;
    right_nonempty = omega arith;
    left_fits = ground arith;
    right_fits = ground (arith, sum-append pre (size ∷ post));
  }

module _ (header_size page_size : ℕ) (promote : Bool) (sizes : List ℕ) where
  -- The split at an entry, as an index with its imbalance.
  Found : Option (ℕ × ℕ) → Type 0
  Found r =
      (pre : List ℕ) × (size : ℕ) × (post : List ℕ) × (r
        ≡ some (length pre, abs_diff (sum pre) (right_half promote size post)))
      × (sizes ≡ pre ++ (size ∷ post))
      × IsSplit header_size page_size promote pre size post

  loop_answers :
      header_size ≤ page_size
      → let r =
          split_loop (page_size - header_size) (sum sizes) (length sizes) promote sizes 0 0 none in
        (r ≡ none) ⊎ Found r
  unfolding Found
  loop_answers le =
      loop_sound (page_size - header_size) (sum sizes) (length sizes) promote
        (λ r. (r ≡ none) ⊎ Found r) sizes 0 0 none (inl refl)
        (λ pre size post e split.
          let i0 : 0 + length pre ≡ length pre = omega arith in
          let l0 : 0 + sum pre ≡ sum pre = omega arith in
          let right : right_of (page_size - header_size) (sum sizes) (length sizes) promote
                (sum pre) size
              ≡ right_half promote size post =
            rw e (right_of_lem header_size page_size pre size post promote) in
          inr (
            pre,
            size,
            post,
            rw (i0, l0, right) refl,
            e,
            IsSplit-is_split header_size page_size pre size post promote le
                (rw (i0, l0, e) at split),
          ))

  -- When some split leaves both halves of a node with an entry and within the page, one is found that
  -- does, and its halves differ by no more bytes.
  pub byte_balanced_split_index_lem :
      (pre : List ℕ) (size : ℕ) (post : List ℕ)
      → sizes ≡ pre ++ (size ∷ post)
      → IsSplit header_size page_size promote pre size post
      → (pre' : List ℕ) × (size' : ℕ) × (post' : List ℕ) × (byte_balanced_split_index sizes
            header_size page_size promote
          ≡ some (length pre'))
        × (sizes ≡ pre' ++ (size' ∷ post'))
        × IsSplit header_size page_size promote pre' size' post'
        × (abs_diff (sum pre') (right_half promote size' post')
            ≤ abs_diff (sum pre) (right_half promote size post))
  unfolding byte_balanced_split_index Found
  byte_balanced_split_index_lem pre size post e is =
      let cap = page_size - header_size in
      let le : header_size ≤ page_size = omega (arith, is.left_fits) in
      let i0 : 0 + length pre ≡ length pre = omega arith in
      let l0 : 0 + sum pre ≡ sum pre = omega arith in
      let fits : is_split cap (sum sizes) (length sizes) promote (0 + length pre) (0 + sum pre) size
          ≡ true =
        rw (i0, l0, e) (is_split-IsSplit header_size page_size pre size post promote is) in
      let (i, m, found, better) =
        loop_best cap (sum sizes) (length sizes) promote pre size post 0 0 none fits in
      let right : right_of cap (sum sizes) (length sizes) promote (0 + sum pre) size
          ≡ right_half promote size post =
        rw (l0, e) (right_of_lem header_size page_size pre size post promote) in
      let found' : split_loop cap (sum sizes) (length sizes) promote sizes 0 0 none ≡ some (i, m) =
        ap (λ s. split_loop cap (sum sizes) (length sizes) promote s 0 0 none) e ∙ found in
      elim (loop_answers le) [
        | inl gone ↦ absurd (cc (found', gone))
        | inr (pre', size', post', same, parts, is') ↦
            let m' : m ≡ abs_diff (sum pre') (right_half promote size' post') = cc (found', same) in
            (
              pre',
              size',
              post',
              rw (le→ltb page_size header_size le, same) refl,
              parts,
              is',
              rw (← m') (
                  omega (
                    arith,
                    better,
                    ap (λ (r : ℕ). abs_diff (0 + sum pre) r) right,
                    ap (λ (l : ℕ). abs_diff l (right_half promote size post)) l0,
                  )),
            )
      ]
