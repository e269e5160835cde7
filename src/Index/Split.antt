-- ===== src/Index/Split.antt =====
-- index_ledger/index_tree.rs: where an overflowing node is split.
pub mod Balance
pub mod Halves
use wasm_dbms.Prelude.{
  ℕ, ◌+◌, ◌-◌, List, [], ◌∷◌, length, Bool, true, false, not, ◌&&◌, ◌||◌, Option, none, some, ltb,
  leb, if◌then◌else◌,
}

abbrev pub sum : List ℕ → ℕ
sum [] = 0
sum (x ∷ xs) = x + sum xs

abbrev pub abs_diff : ℕ → ℕ → ℕ
abs_diff a b = (a - b) + (b - a)

-- `best.is_none_or(|(_, best_imbalance)| imbalance < best_imbalance)`
abbrev pub is_better : ℕ → Option (ℕ × ℕ) → Bool
is_better imbalance none = true
is_better imbalance (some (i, best_imbalance)) = ltb imbalance best_imbalance

module _ (capacity total count : ℕ) (promote_median : Bool) where
  -- The bytes of the right half.
  abbrev pub right_of : (left size : ℕ) → ℕ
  right_of left size = if promote_median then total - left - size else total - left

  abbrev pub is_split : (index left size : ℕ) → Bool
  is_split index left size =
      ltb 0 index
      && ((not promote_median || ltb (index + 1) count)
          && (leb left capacity && leb (right_of left size) capacity))

  abbrev pub consider : (index left size : ℕ) → Option (ℕ × ℕ) → Option (ℕ × ℕ)
  consider index left size best =
      let imbalance = abs_diff left (right_of left size) in
      if is_split index left size
      then (if is_better imbalance best then some (index, imbalance) else best)
      else best

  unfoldable pub split_loop : List ℕ → (index left : ℕ) → Option (ℕ × ℕ) → Option (ℕ × ℕ)
  split_loop [] index left best = best
  split_loop (size ∷ sizes) index left best =
      split_loop sizes (index + 1) (left + size) (consider index left size best)

abbrev pub index_of : Option (ℕ × ℕ) → Option ℕ
index_of none = none
index_of (some (index, imbalance)) = some index

unfoldable pub byte_balanced_split_index : List ℕ → (header_size page_size : ℕ) → Bool → Option ℕ
unfolding split_loop
byte_balanced_split_index entry_sizes header_size page_size promote_median =
    if ltb page_size header_size
    then none
    else index_of (
        split_loop (page_size - header_size) (sum entry_sizes) (length entry_sizes) promote_median
          entry_sizes 0 0 none)
