-- ===== src/Prelude/Slices.antt =====
-- Reading and overwriting a range of a list. A range in bounds is `&xs[off..off + n]` of the source,
-- and an overwrite in bounds is its `copy_from_slice`.
use Prim.Native.Nat.{ℕ, zero, suc, ◌+◌, ◌≤◌}
use mathlib.Core.Path.{◌≡◌, refl, sym, ap, ◌∙◌}
use mathlib.Core.Logic.{◌⊎◌, inl, inr}
use mathlib.Core.List.{List, [], ◌∷◌, ◌++◌}
use native.Mathlib.Omega.{arith}
use wasm_dbms.Prelude.Lists.{length, take, length-take, length-append}

module _ {ℓ} {A : Type ℓ} where
  abbrev pub slice : ℕ → ℕ → List A → List A
  slice zero n xs = take n xs
  slice (suc off) n [] = []
  slice (suc off) n (x ∷ xs) = slice off n xs

  abbrev overwrite : List A → List A → List A
  overwrite [] xs = xs
  overwrite (b ∷ bs) [] = []
  overwrite (b ∷ bs) (x ∷ xs) = b ∷ overwrite bs xs

  -- `xs` with `buf` written from `off` on; what would pass the end is dropped.
  abbrev pub splice : ℕ → List A → List A → List A
  splice zero buf xs = overwrite buf xs
  splice (suc off) buf [] = []
  splice (suc off) buf (x ∷ xs) = x ∷ splice off buf xs

  length-overwrite : (buf xs : List A) → length (overwrite buf xs) ≡ length xs
  length-overwrite [] xs = refl
  length-overwrite (b ∷ bs) [] = refl
  length-overwrite (b ∷ bs) (x ∷ xs) = ap suc (length-overwrite bs xs)

  pub length-splice : (off : ℕ) (buf xs : List A) → length (splice off buf xs) ≡ length xs
  length-splice zero buf xs = length-overwrite buf xs
  length-splice (suc off) buf [] = refl
  length-splice (suc off) buf (x ∷ xs) = ap suc (length-splice off buf xs)

  pub length-slice : (off n : ℕ) (xs : List A) → off + n ≤ length xs → length (slice off n xs) ≡ n
  length-slice zero n xs h = omega (arith, length-take n xs)
  length-slice (suc off) n [] h = absurd (omega arith)
  length-slice (suc off) n (x ∷ xs) h = length-slice off n xs (omega arith)

  take-overwrite :
      (buf xs : List A) → length buf ≤ length xs → take (length buf) (overwrite buf xs) ≡ buf
  take-overwrite [] xs h = refl
  take-overwrite (b ∷ bs) [] h = absurd (omega arith)
  take-overwrite (b ∷ bs) (x ∷ xs) h = ap (λ t. b ∷ t) (take-overwrite bs xs (omega arith))

  -- What was written is read back.
  pub slice-splice_self :
      (off : ℕ) (buf xs : List A)
      → off + length buf ≤ length xs
      → slice off (length buf) (splice off buf xs) ≡ buf
  slice-splice_self zero buf xs h = take-overwrite buf xs (omega arith)
  slice-splice_self (suc off) buf [] h = absurd (omega arith)
  slice-splice_self (suc off) buf (x ∷ xs) h = slice-splice_self off buf xs (omega arith)

  overwrite_undo :
      (buf xs : List A)
      → length buf ≤ length xs
      → overwrite (take (length buf) xs) (overwrite buf xs) ≡ xs
  overwrite_undo [] xs h = refl
  overwrite_undo (b ∷ bs) [] h = absurd (omega arith)
  overwrite_undo (b ∷ bs) (x ∷ xs) h = ap (λ t. x ∷ t) (overwrite_undo bs xs (omega arith))

  -- Writing back what stood in the range undoes a write to it.
  pub splice_undo :
      (off : ℕ) (buf xs : List A)
      → off + length buf ≤ length xs
      → splice off (slice off (length buf) xs) (splice off buf xs) ≡ xs
  splice_undo zero buf xs h = overwrite_undo buf xs (omega arith)
  splice_undo (suc off) buf [] h = refl
  splice_undo (suc off) buf (x ∷ xs) h = ap (λ t. x ∷ t) (splice_undo off buf xs (omega arith))

  overwrite-append :
      (buf xs ys : List A)
      → length buf ≤ length xs
      → overwrite buf (xs ++ ys) ≡ overwrite buf xs ++ ys
  overwrite-append [] xs ys h = refl
  overwrite-append (b ∷ bs) [] ys h = absurd (omega arith)
  overwrite-append (b ∷ bs) (x ∷ xs) ys h =
      ap (λ t. b ∷ t) (overwrite-append bs xs ys (omega arith))

  pub splice-append :
      (off : ℕ) (buf xs ys : List A)
      → off + length buf ≤ length xs
      → splice off buf (xs ++ ys) ≡ splice off buf xs ++ ys
  splice-append zero buf xs ys h = overwrite-append buf xs ys (omega arith)
  splice-append (suc off) buf [] ys h = absurd (omega arith)
  splice-append (suc off) buf (x ∷ xs) ys h =
      ap (λ t. x ∷ t) (splice-append off buf xs ys (omega arith))

  overwrite-overwrite :
      (b c xs : List A) → splice (length b) c (overwrite b xs) ≡ overwrite (b ++ c) xs
  overwrite-overwrite [] c xs = refl
  overwrite-overwrite (x ∷ b) c [] = refl
  overwrite-overwrite (x ∷ b) c (y ∷ xs) = ap (λ t. x ∷ t) (overwrite-overwrite b c xs)

  overwrite_nil : (d : List A) → overwrite d [] ≡ []
  overwrite_nil [] = refl
  overwrite_nil (x ∷ d) = refl

  splice_nil : (k : ℕ) (c : List A) → splice k c [] ≡ []
  splice_nil zero c = overwrite_nil c
  splice_nil (suc k) c = refl

  -- Two writes, the second behind the first, are one.
  pub splice-splice :
      (off : ℕ) (b c xs : List A)
      → splice (off + length b) c (splice off b xs) ≡ splice off (b ++ c) xs
  splice-splice zero b c xs =
      ap (λ (k : ℕ). splice k c (overwrite b xs)) (omega arith) ∙ overwrite-overwrite b c xs
  splice-splice (suc off) b c [] = splice_nil (suc off + length b) c
  splice-splice (suc off) b c (x ∷ xs) =
      let e : suc off + length b ≡ suc (off + length b) = omega arith in
      ap (λ (k : ℕ). splice k c (x ∷ splice off b xs)) e
      ∙ ap (λ t. x ∷ t) (splice-splice off b c xs)

  take-overwrite_ne :
      (n off : ℕ) (buf xs : List A) → n ≤ off → take n (splice off buf xs) ≡ take n xs
  take-overwrite_ne zero off buf xs h = refl
  take-overwrite_ne (suc n) zero buf xs h = absurd (omega arith)
  take-overwrite_ne (suc n) (suc off) buf [] h = refl
  take-overwrite_ne (suc n) (suc off) buf (x ∷ xs) h =
      ap (λ t. x ∷ t) (take-overwrite_ne n off buf xs (omega arith))

  slice-overwrite_ne :
      (o n : ℕ) (buf xs : List A) → length buf ≤ o → slice o n (overwrite buf xs) ≡ slice o n xs
  slice-overwrite_ne o n [] xs h = refl
  slice-overwrite_ne zero n (b ∷ bs) xs h = absurd (omega arith)
  slice-overwrite_ne (suc o) n (b ∷ bs) [] h = refl
  slice-overwrite_ne (suc o) n (b ∷ bs) (x ∷ xs) h = slice-overwrite_ne o n bs xs (omega arith)

  splice_none : (off : ℕ) (buf xs : List A) → off + length buf ≤ 0 → splice off buf xs ≡ xs
  splice_none zero [] xs h = refl
  splice_none zero (b ∷ bs) xs h = absurd (omega arith)
  splice_none (suc off) buf xs h = absurd (omega arith)

  -- A write leaves every range that it does not meet.
  pub slice-splice_ne :
      (o n off : ℕ) (buf xs : List A)
      → (o + n ≤ off) ⊎ (off + length buf ≤ o)
      → slice o n (splice off buf xs) ≡ slice o n xs
  slice-splice_ne zero n off buf xs h = elim h [
    | inl p ↦ take-overwrite_ne n off buf xs (omega arith)
    | inr p ↦ ap (take n) (splice_none off buf xs (omega arith))
  ]
  slice-splice_ne (suc o) n zero buf xs h = slice-overwrite_ne (suc o) n buf xs (omega arith)
  slice-splice_ne (suc o) n (suc off) buf [] h = refl
  slice-splice_ne (suc o) n (suc off) buf (x ∷ xs) h = slice-splice_ne o n off buf xs (omega arith)

  overwrite_all : (buf xs : List A) → length buf ≡ length xs → overwrite buf xs ≡ buf
  overwrite_all [] [] h = refl
  overwrite_all [] (x ∷ xs) h = absurd (omega arith)
  overwrite_all (b ∷ bs) [] h = absurd (omega arith)
  overwrite_all (b ∷ bs) (x ∷ xs) h = ap (λ t. b ∷ t) (overwrite_all bs xs (omega arith))

  -- A write over the whole end of a list.
  pub splice_end :
      (xs buf ys : List A) → length buf ≡ length ys → splice (length xs) buf (xs ++ ys) ≡ xs ++ buf
  splice_end [] buf ys h = overwrite_all buf ys h
  splice_end (x ∷ xs) buf ys h = ap (λ t. x ∷ t) (splice_end xs buf ys h)

  overwrite_self : (n : ℕ) (xs : List A) → overwrite (take n xs) xs ≡ xs
  overwrite_self zero xs = refl
  overwrite_self (suc n) [] = refl
  overwrite_self (suc n) (x ∷ xs) = ap (λ t. x ∷ t) (overwrite_self n xs)

  -- Writing what stands there changes nothing.
  pub splice_self : (off n : ℕ) (xs : List A) → splice off (slice off n xs) xs ≡ xs
  splice_self zero n xs = overwrite_self n xs
  splice_self (suc off) n [] = refl
  splice_self (suc off) n (x ∷ xs) = ap (λ t. x ∷ t) (splice_self off n xs)

  take-add : (n m : ℕ) (xs : List A) → take (n + m) xs ≡ take n xs ++ slice n m xs
  take-add zero m xs = ap (λ (k : ℕ). take k xs) (omega arith)
  take-add (suc n) m [] =
      let e : suc n + m ≡ suc (n + m) = omega arith in ap (λ (k : ℕ). take {A = A} k []) e
  take-add (suc n) m (x ∷ xs) =
      let e : suc n + m ≡ suc (n + m) = omega arith in
      ap (λ (k : ℕ). take k (x ∷ xs)) e ∙ ap (λ t. x ∷ t) (take-add n m xs)

  slice_nil : (k m : ℕ) → slice k m [] ≡ []
  slice_nil zero zero = refl
  slice_nil zero (suc m) = refl
  slice_nil (suc k) m = refl

  pub slice-add :
      (off n m : ℕ) (xs : List A) → slice off (n + m) xs ≡ slice off n xs ++ slice (off + n) m xs
  slice-add zero n m xs = take-add n m xs ∙ ap (λ (k : ℕ). take n xs ++ slice k m xs) (omega arith)
  slice-add (suc off) n m [] = sym (slice_nil (suc off + n) m)
  slice-add (suc off) n m (x ∷ xs) =
      let e : suc off + n ≡ suc (off + n) = omega arith in
      slice-add off n m xs ∙ ap (λ (k : ℕ). slice off n xs ++ slice k m (x ∷ xs)) (sym e)

  -- The front of what was written is read back.
  pub slice-splice_front :
      (off : ℕ) (b c xs : List A)
      → off + length (b ++ c) ≤ length xs
      → slice off (length b) (splice off (b ++ c) xs) ≡ b
  slice-splice_front off b c xs h =
      ap (slice off (length b)) (sym (splice-splice off b c xs))
      ∙ slice-splice_ne off (length b) (off + length b) c (splice off b xs) (inl (omega arith))
      ∙ slice-splice_self off b xs (omega (arith, length-append b c, h))
