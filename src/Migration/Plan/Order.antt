-- ===== src/Migration/Plan/Order.antt =====
-- The operations of a migration by their priorities.
use wasm_dbms.Prelude.{
  ℕ, ◌≡◌, ◌≤◌, ◌<◌, refl, ap, ◌∙◌, arith, List, [], ◌∷◌, ◌++◌, All, zero, suc, ◌+◌, true, false,
  ◌==◌, leb,
}
use wasm_dbms.Prelude.{if◌then◌else◌, Bool-cases, inl, inr, ==_iff}
use wasm_dbms.Migration.Plan.{MigrationOp, op_priority, insert, order_ops}

leb→le : (a b : ℕ) → leb a b ≡ true → a ≤ b
leb→le a b h = ground arith

leb→lt : (a b : ℕ) → leb a b ≡ false → b < a
leb→lt a b h = ground arith

module _ {T C D I K : Type 0} where
  -- The operations of one priority, in their order.
  abbrev pub bucket : ℕ → List (MigrationOp T C D I K) → List (MigrationOp T C D I K)
  bucket p [] = []
  bucket p (o ∷ ops) = let later = bucket p ops in if op_priority o == p then o ∷ later else later

  -- No operation has a smaller priority than `p` or than one before it.
  abbrev pub Ascends : ℕ → List (MigrationOp T C D I K) → Type 0
  Ascends p [] = Unit
  Ascends p (o ∷ ops) = (p ≤ op_priority o) × Ascends (op_priority o) ops

  bucket-swap :
      (p : ℕ) (op o : MigrationOp T C D I K) (ops : List (MigrationOp T C D I K))
      → op_priority o < op_priority op
      → bucket p (o ∷ op ∷ ops) ≡ bucket p (op ∷ o ∷ ops)
  bucket-swap p op o ops h = elim (Bool-cases (op_priority op == p)) [
    | inl e ↦ elim (Bool-cases (op_priority o == p)) [
      | inl f ↦
          absurd (omega (arith, (==_iff (op_priority op) p).0 e, (==_iff (op_priority o) p).0 f))
      | inr f ↦ rw (e, f) refl
    ]
    | inr e ↦ rw e refl
  ]

  bucket-insert :
      (p : ℕ) (op : MigrationOp T C D I K) (ops : List (MigrationOp T C D I K))
      → bucket p (insert op ops) ≡ bucket p (op ∷ ops)
  unfolding insert
  bucket-insert p op [] = refl
  bucket-insert p op (o ∷ ops) = elim (Bool-cases (leb (op_priority op) (op_priority o))) [
    | inl e ↦ rw e refl
    | inr e ↦
        rw (e, bucket-insert p op ops)
          (bucket-swap p op o ops (leb→lt (op_priority op) (op_priority o) e))
  ]

  Ascends-insert :
      (p : ℕ) (op : MigrationOp T C D I K) (ops : List (MigrationOp T C D I K))
      → p ≤ op_priority op
      → Ascends p ops
      → Ascends p (insert op ops)
  unfolding insert
  Ascends-insert p op [] h k = (h, tt)
  Ascends-insert p op (o ∷ ops) h (first, k) =
      elim (Bool-cases (leb (op_priority op) (op_priority o))) [
        | inl e ↦ let le : op_priority op ≤ op_priority o = leb→le _ _ e in rw e (h, (le, k))
        | inr e ↦
            let le : op_priority o ≤ op_priority op =
              omega (arith, leb→lt (op_priority op) (op_priority o) e) in
            rw e (first, Ascends-insert (op_priority o) op ops le k)
      ]

  -- The ordered operations ascend in priority, and those of each priority are the given ones.
  pub order_ops_buckets :
      (ops : List (MigrationOp T C D I K))
      → Ascends 0 (order_ops ops) × ((p : ℕ) → bucket p (order_ops ops) ≡ bucket p ops)
  unfolding order_ops
  order_ops_buckets [] = (tt, λ p. refl)
  order_ops_buckets (op ∷ ops) =
      let (sorted, same) = order_ops_buckets ops in
      (
        Ascends-insert 0 op (order_ops ops) (omega arith) sorted,
        λ p.
            bucket-insert p op (order_ops ops)
            ∙ ap (λ later. if op_priority op == p then op ∷ later else later) (same p),
      )

  -- The operations of `n` priorities from `p` on.
  abbrev pub buckets : ℕ → ℕ → List (MigrationOp T C D I K) → List (MigrationOp T C D I K)
  buckets zero p ops = []
  buckets (suc n) p ops = bucket p ops ++ buckets n (suc p) ops

  bucket-above :
      (p q : ℕ) (ops : List (MigrationOp T C D I K)) → q < p → Ascends p ops → bucket q ops ≡ []
  bucket-above p q [] h k = refl
  bucket-above p q (o ∷ ops) h (le, k) = elim (Bool-cases (op_priority o == q)) [
    | inl e ↦ absurd (omega (arith, (==_iff (op_priority o) q).0 e))
    | inr e ↦ rw e (bucket-above (op_priority o) q ops (omega arith) k)
  ]

  Ascends-le :
      (p q : ℕ) (ops : List (MigrationOp T C D I K)) → p ≤ q → Ascends q ops → Ascends p ops
  Ascends-le p q [] h k = tt
  Ascends-le p q (o ∷ ops) h (le, k) = (omega arith, k)

  buckets-above :
      (n p : ℕ) (o : MigrationOp T C D I K) (ops : List (MigrationOp T C D I K))
      → op_priority o < p
      → buckets n p (o ∷ ops) ≡ buckets n p ops
  buckets-above zero p o ops h = refl
  buckets-above (suc n) p o ops h =
      let other : (op_priority o == p) ≡ false = ground arith in
      rw (other, buckets-above n (suc p) o ops (omega arith)) refl

  pub buckets-Ascends :
      (m n p : ℕ) (ops : List (MigrationOp T C D I K))
      → m ≤ p + n
      → Ascends p ops
      → All (λ o. op_priority o < m) ops
      → buckets n p ops ≡ ops
  buckets-Ascends m zero p [] top h k = refl
  buckets-Ascends m (suc n) p [] top h k = buckets-Ascends m n (suc p) [] (omega (arith, top)) tt tt
  buckets-Ascends m zero p (o ∷ ops) top (le, h) (lt, k) = absurd (omega arith)
  buckets-Ascends m (suc n) p (o ∷ ops) top (le, h) (lt, k) =
      elim (Bool-cases (op_priority o == p)) [
        | inl e ↦
            let same : op_priority o ≡ p = (==_iff (op_priority o) p).0 e in
            rw (e, buckets-above n (suc p) o ops (omega (arith, same)))
              (ap (λ t. o ∷ t)
                (buckets-Ascends m (suc n) p ops top (Ascends-le p (op_priority o) ops le h) k))
        | inr e ↦
            let above : p < op_priority o = ground arith in
            rw (bucket-above (suc p) p (o ∷ ops) (omega arith) (above, h))
              (buckets-Ascends m n (suc p) (o ∷ ops) (omega (arith, top)) (above, h) (lt, k))
      ]
