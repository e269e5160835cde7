-- ===== src/Index/Key.antt =====
-- The keys of an index: `K: Encode + Ord`, and the derived order of RecordAddress.
use wasm_dbms.Prelude.{
  Bool, true, false, not, ◌&&◌, ◌||◌, ltb, ◌==◌, ◌≡◌, refl, Bool-cases, inl, inr, arith,
}
use wasm_dbms.Encode.{Encode}
use wasm_dbms.Registry.Record.{RecordAddress}

-- The comparisons of `Ord` and `PartialEq` are given by `lt`, as their documentation asks.
pub record Key (K : Type 0) : Type 0 where
  pub e : Encode K
  pub lt : K → K → Bool

module _ {K : Type 0} (key : Key K) where
  abbrev pub le : K → K → Bool
  le a b = not (key.lt b a)

  abbrev pub eq : K → K → Bool
  eq a b = not (key.lt a b) && not (key.lt b a)

  -- `lt` is a strict total order.
  pub record IsOrder : Type 0 where
    pub lt_irrefl : (a : K) → key.lt a a ≡ false
    pub lt_trans : (a b c : K) → key.lt a b ≡ true → key.lt b c ≡ true → key.lt a c ≡ true
    pub lt_total : (a b : K) → key.lt a b ≡ false → key.lt b a ≡ false → a ≡ b

module _ {K : Type 0} (key : Key K) (order : IsOrder key) where
  pub lt_of_lt_of_le : (a b c : K) → key.lt a b ≡ true → key.lt c b ≡ false → key.lt a c ≡ true
  lt_of_lt_of_le a b c ab cb = elim (Bool-cases (key.lt a c)) [
    | inl ac ↦ ac
    | inr ac ↦ elim (Bool-cases (key.lt c a)) [
      | inl ca ↦ cc (order.lt_trans c a b ca ab, cb)
      | inr ca ↦ cc (order.lt_total a c ac ca, ab, cb)
    ]
  ]

  pub le_trans : (a b c : K) → le key a b ≡ true → le key b c ≡ true → le key a c ≡ true
  le_trans a b c ab bc = elim (Bool-cases (key.lt c a)) [
    | inr ca ↦ rw ca refl
    | inl ca ↦
        let cb : key.lt c b ≡ true = lt_of_lt_of_le c a b ca (ground arith) in cc (rw cb at bc)
  ]

abbrev pub address_lt : RecordAddress → RecordAddress → Bool
address_lt a b = ltb a.page b.page || (a.page == b.page && ltb a.offset b.offset)

abbrev pub address_eq : RecordAddress → RecordAddress → Bool
address_eq a b = a.page == b.page && a.offset == b.offset
