-- ===== src/Journal/Wrote.antt =====
-- Sequences of calls of the journaled writer, composed, and undone.
use native.Mathlib.Nat.{mul-le-mul_right}
use wasm_dbms.Prelude.{
  ℕ, ◌+◌, ◌≤◌, ◌≡◌, refl, sym, ap, ◌∙◌, arith, List, [], ◌∷◌, ◌++◌, All, All-append,
}
use wasm_dbms.Prelude.Result.{ok}
use wasm_dbms.Journal.{JournaledWriter, rollback}
use wasm_dbms.Journal
use wasm_dbms.Journal.Rollback.{
  Op, grow_one_page, zero_page, read_at, write_at, write_at_raw, zero_at, zero_raw, read_at_raw,
}
use wasm_dbms.Journal.Rollback.{IsInPage, count_grows, with_grow, run, rollback-run}
use wasm_dbms.Memory.Provider.{MemoryProvider, IsProvider}
use wasm_dbms.Memory.Manager.Effects.{HasRoom}

step-with_grow : (op : Op) (x y z : ℕ) → z ≡ x + y → with_grow op z ≡ with_grow op x + y
step-with_grow grow_one_page x y z h = omega arith
step-with_grow (zero_page page) x y z h = h
step-with_grow (read_at D e page offset) x y z h = h
step-with_grow (write_at D e page offset a) x y z h = h
step-with_grow (write_at_raw page offset buf) x y z h = h
step-with_grow (zero_at D e page offset a) x y z h = h
step-with_grow (zero_raw page offset len) x y z h = h
step-with_grow (read_at_raw page offset buf) x y z h = h

count_grows-append : (a b : List Op) → count_grows (a ++ b) ≡ count_grows a + count_grows b
count_grows-append [] b = omega arith
count_grows-append (op ∷ a) b =
    step-with_grow op (count_grows a) (count_grows b) (count_grows (a ++ b))
      (count_grows-append a b)

module _ {P : Type 0} (mp : MemoryProvider P) where
  run-append : (a b : List Op) (w : JournaledWriter P) → run mp (a ++ b) w ≡ run mp b (run mp a w)
  unfolding run
  run-append [] b w = refl
  run-append (op ∷ a) b w = run-append a b _

  -- The second state comes from the first by calls of the journaled writer, each within a page, that
  -- add at most `n` pages.
  pub record Wrote (n : ℕ) (w w' : JournaledWriter P) : Type 1 where
    pub ops : List Op
    pub in_page : All (IsInPage mp.page_size) ops
    pub grows : count_grows ops ≤ n
    pub result : w' ≡ run mp ops w

  pub Wrote-trans :
      {n m : ℕ} {a b c : JournaledWriter P} {k : ℕ}
      → n + m ≤ k
      → Wrote n a b
      → Wrote m b c
      → Wrote k a c
  Wrote-trans {a = a} {b = b} le x y = record {
    ops = x.ops ++ y.ops;
    in_page = All-append (IsInPage mp.page_size) x.ops y.ops x.in_page y.in_page;
    grows = omega (arith, count_grows-append x.ops y.ops, x.grows, y.grows, le);
    result = y.result ∙ ap (run mp y.ops) x.result ∙ sym (run-append x.ops y.ops a);
  }

  pub Wrote-refl : {n : ℕ} (w : JournaledWriter P) → Wrote n w w
  unfolding run
  Wrote-refl w = record { ops = []; in_page = tt; grows = omega arith; result = refl }

module _ {P : Type 0} {mp : MemoryProvider P} {bytes : P → List ℕ} (L : IsProvider mp bytes) where
  pub HasRoom-le : {k n : ℕ} {p : P} → k ≤ n → HasRoom mp bytes n p → HasRoom mp bytes k p
  HasRoom-le {k} {n} h room = record {
    page_size_lt = room.page_size_lt;
    whole_pages = room.whole_pages;
    length_le = omega (arith, mul-le-mul_right mp.page_size h, room.length_le);
  }

  pub rollback-Wrote :
      {n : ℕ} (p : P) (w : JournaledWriter P)
      → HasRoom mp bytes n p
      → Wrote mp n (record { mm = p; journal = Journal.new }) w
      → ((rollback mp w.journal w.mm).0 ≡ ok tt)
        × ((extra : List ℕ) × (bytes (rollback mp w.journal w.mm).1 ≡ bytes p ++ extra))
  rollback-Wrote p w room wrote =
      rw (wrote.result) (rollback-run L wrote.ops p (HasRoom-le wrote.grows room) wrote.in_page)
