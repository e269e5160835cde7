-- ===== src/Index/View/Child.antt =====
-- The view of an internal node's page routes a key to the same child as the node that is read in full.
use wasm_dbms.Prelude.{
  ℕ, ◌≤◌, ◌<◌, ◌≡◌, refl, sym, ap, ◌∙◌, arith, All, List, [], ◌∷◌, ◌++◌, length, length-append,
  drop, replicate, get_elem?, Bool, true, false, some, le→ltb, lt→ltb, Bool-cases, inl, inr,
}
use wasm_dbms.Prelude.Bytes.{to_le_bytes, from_le_bytes, from_le_bytes-to_le_bytes}
use wasm_dbms.Prelude.Result.{ok}
use wasm_dbms.Encode.{Page, u32_mod}
use wasm_dbms.Index.Key.{Key, IsOrder, le, lt_of_lt_of_le}
use wasm_dbms.Index.Node.{
  Entry, InternalNodeBody, internal, NodeHeader, serialize, internal_header, internal_header_size,
  child_page_size,
}
use wasm_dbms.Index.Node.Codec.{IsNode, internal_bytes, serialize_internal, decode_page}
use wasm_dbms.Index.View
use wasm_dbms.Index.View.{NodeView, parse, child_for, partition_point, len}
use wasm_dbms.Index.View.Entries.{parse_offsets_lem}
use wasm_dbms.Index.View.Search.{Shows, Shows-entries, partition_point_lem, page}
use wasm_dbms.Index.Tree.{find_child, find_child_in}

at_length :
    {A : Type 0} (front : List A) (back : List A) (b : A)
    → get_elem? (front ++ (b ∷ back)) (length front) ≡ some b
at_length [] back b = refl
at_length (a ∷ front) back b = at_length front back b

module _ {K : Type 0} (key : Key K) where
  -- The keys ascend.
  abbrev pub IsSorted : {T : Type 0} → List (Entry K T) → Type 0
  IsSorted [] = Unit
  IsSorted (entry ∷ entries) = All (λ e. le key entry.key e.key ≡ true) entries × IsSorted entries

  abbrev child_at : List (Entry K Page) → Page → Page
  child_at [] rightmost_child = rightmost_child
  child_at (entry ∷ entries) rightmost_child = entry.target

  module _ (order : IsOrder key) where
    later_above :
        (k h : K) (entries : List (Entry K Page))
        → key.lt k h ≡ true
        → All (λ e. le key h e.key ≡ true) entries
        → All (λ e. le key e.key k ≡ false) entries
    later_above k h [] above hs = tt
    later_above k h (e ∷ entries) above (x, hs) =
        let not_less : key.lt e.key h ≡ false = ground arith in
        (
          rw (lt_of_lt_of_le key order k h e.key above not_less) refl,
          later_above k h entries above hs,
        )

    parted :
        (entries : List (Entry K Page)) (rightmost_child : Page) (k : K)
        → IsSorted entries
        → (front back : List (Entry K Page)) × (entries ≡ front ++ back)
          × All (λ e. le key e.key k ≡ true) front
          × All (λ e. le key e.key k ≡ false) back
          × (find_child_in key entries rightmost_child k ≡ child_at back rightmost_child)
    unfolding find_child_in
    parted [] r k hs = ([], [], refl, tt, tt, refl)
    parted (e ∷ entries) r k (h, hs) = elim (Bool-cases (le key e.key k)) [
      | inl before ↦
          let (front, back, parts, fs, bs, child) = parted entries r k hs in
          (e ∷ front, back, ap (λ t. e ∷ t) parts, (before, fs), bs, rw before child)
      | inr past ↦ (
        [],
        e ∷ entries,
        refl,
        tt,
        (past, later_above k e.key entries (ground arith) h),
        rw past refl,
      )
    ]

    back_head :
        (front back : List (Entry K Page)) (r : Page) (view : NodeView) (k : K)
        → Shows key child_page_size (to_le_bytes 4) view (front ++ back)
        → All (λ e. le key e.key k ≡ true) front
        → All (λ e. le key e.key k ≡ false) back
        → All (λ e. e.target < u32_mod) back
        → View.child_of key (View.internal r) k view ≡ ok (some (child_at back r))
    unfolding View.child_of
    back_head front [] r view k shows fs bs small =
        let at_end : len view ≡ length front =
          shows.len_lem ∙ omega (arith, length-append front []) in
        rw
          (
            partition_point_lem key child_page_size (to_le_bytes 4) view front [] (λ e. le key e k)
                shows fs bs,
            at_end,
            le→ltb (length front) (length front) (omega arith),
          )
          refl
    back_head front (b ∷ back) r view k shows fs bs small =
        let inside : length front < len view =
          omega (arith, shows.len_lem, length-append front (b ∷ back)) in
        let (start, after, range, target) =
          shows.target_lem (length front) b (at_length front back b) in
        rw
          (
            partition_point_lem key child_page_size (to_le_bytes 4) view front (b ∷ back)
                (λ e. le key e k) shows fs bs,
            lt→ltb (length front) (len view) inside,
            range,
            target,
            from_le_bytes-to_le_bytes 4 b.target small.0,
          )
          refl

    All-back :
        (P : Entry K Page → Type 0) (front back : List (Entry K Page))
        → All P (front ++ back)
        → All P back
    All-back P [] back h = h
    All-back P (f ∷ front) back h = All-back P front back h.1

    -- On the page of an internal node with ascending keys, the view parses, and its binary search answers
    -- the child that `find_child` gives on the node's body.
    pub child_for-find_child :
        (page_number : Page) (h : NodeHeader) (body : InternalNodeBody K) (dirty : Bool)
        (page_size : ℕ) (buf : List ℕ) (k : K)
        → IsNode key page_size
            (record { page = page_number; header = h; body = internal body; dirty = dirty })
        → All (λ e. e.target < u32_mod) body.entries
        → IsSorted body.entries
        → serialize key
            (record { page = page_number; header = h; body = internal body; dirty = dirty })
            page_size
          ≡ ok buf
        → (view : NodeView) × (parse buf ≡ ok view)
          × (child_for key k view ≡ ok (some (find_child key body k)))
    unfolding parse child_for find_child
    child_for-find_child page_number h body dirty page_size buf k is small sorted written =
        let (num, es, right, fits) = is.is_body in
        let header = internal_header key h body in
        let pad : List ℕ =
          drop (length (header ++ internal_bytes key body.entries)) (replicate page_size 0) in
        let stored = header ++ (internal_bytes key body.entries ++ pad) in
        let same : buf ≡ stored =
          cc (written, serialize_internal key page_number h body dirty page_size is.is_body) in
        let view =
          page key child_page_size (to_le_bytes 4) body.entries header pad internal_header_size
            (View.internal body.rightmost_child) in
        let long : internal_header_size ≤ length stored =
          omega (arith, length-append header (internal_bytes key body.entries ++ pad)) in
        let count : from_le_bytes (to_le_bytes 2 h.num_entries) ≡ length body.entries =
          from_le_bytes-to_le_bytes 2 h.num_entries is.count_fits ∙ num in
        let shows =
          Shows-entries key child_page_size (to_le_bytes 4) internal_header_size (decode_page key)
            (View.internal body.rightmost_child) body.entries header pad es in
        let (front, back, parts, fs, bs, child) =
          parted body.entries body.rightmost_child k sorted in
        let answer : child_for key k view ≡ ok (some (child_at back body.rightmost_child)) =
          back_head front back body.rightmost_child view k (rw (← parts) shows) fs bs
            (All-back (λ e. e.target < u32_mod) front back (rw (← parts) small)) in
        (
          view,
          rw same (
              rw
                (
                  le→ltb (length stored) internal_header_size long,
                  count,
                  parse_offsets_lem key internal_header_size child_page_size (to_le_bytes 4)
                      (decode_page key) body.entries header pad es,
                  from_le_bytes-to_le_bytes 4 body.rightmost_child right,
                )
                refl),
          answer ∙ ap (λ c. ok (some c)) (sym child),
        )
