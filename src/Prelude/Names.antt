-- ===== src/Prelude/Names.antt =====
-- Names as lists of characters, their comparison, and searches in lists.
use Prim.Native.Nat.{ℕ}
use mathlib.Core.Bool.{Bool, true, false, ◌&&◌, ◌||◌}
use mathlib.Core.List.{List, [], ◌∷◌}
use mathlib.Core.Logic.{◌↔◌, inl, inr}
use mathlib.Core.Option.{Option, none, some}
use mathlib.Core.Path.{◌≡◌, refl}
use wasm_dbms.Prelude.Tests.{◌==◌, ==_iff, if◌then◌else◌, Bool-cases}

-- Decidable equality of the values of a type.
pub record Eq {ℓ} (A : Type ℓ) : Type ℓ where
  pub eq : A → A → Bool
  pub eq_iff : (a b : A) → (eq a b ≡ true) ↔ (a ≡ b)

abbrev pub Name : Type 0
Name = List ℕ

abbrev pub name_eq : Name → Name → Bool
name_eq [] [] = true
name_eq (c ∷ cs) (d ∷ ds) = c == d && name_eq cs ds
name_eq _ _ = false

pub name_eq_lem : (a b : Name) → name_eq a b ≡ true → a ≡ b
name_eq_lem [] [] h = refl
name_eq_lem [] (d ∷ ds) h = cc
name_eq_lem (c ∷ cs) [] h = cc
name_eq_lem (c ∷ cs) (d ∷ ds) h = elim (Bool-cases (c == d)) [
  | inl e ↦ cc ((==_iff c d).0 e, name_eq_lem cs ds (rw e at h))
  | inr e ↦ cc (rw e at h)
]

pub name_eq_refl : (a : Name) → name_eq a a ≡ true
name_eq_refl [] = refl
name_eq_refl (c ∷ cs) = rw ((==_iff c c).1 refl) (name_eq_refl cs)

abbrev pub names : Eq Name
names = record { eq = name_eq; eq_iff = λ a b. (name_eq_lem a b, λ e. rw e (name_eq_refl b)) }

abbrev pub any {ℓ} : {A : Type ℓ} → (A → Bool) → List A → Bool
any test [] = false
any test (x ∷ xs) = test x || any test xs

abbrev pub find {ℓ} : {A : Type ℓ} → (A → Bool) → List A → Option A
find test [] = none
find test (x ∷ xs) = if test x then some x else find test xs

abbrev pub is_some_and {ℓ} : {A : Type ℓ} → (A → Bool) → Option A → Bool
is_some_and test none = false
is_some_and test (some x) = test x

abbrev pub second {ℓ κ} : {A : Type ℓ} {B : Type κ} → Option (A × B) → Option B
second none = none
second (some (a, b)) = some b
