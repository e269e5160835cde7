-- ===== src/Access/Candidate/Sound.antt =====
-- A path made of candidates that a row belongs to is one that the row belongs to.
use wasm_dbms.Prelude.{
  ◌≡◌, refl, List, [], ◌∷◌, ◌++◌, map, All, Bool, true, false, not, ◌&&◌, ◌||◌, inl, inr,
  Bool-cases, some,
}
use wasm_dbms.Prelude.Names.{Name, any}
use wasm_dbms.Query.Filter.{Values, Row}
use wasm_dbms.Access.Scan.{
  IndexScan, AccessPath, empty, scan, union, intersection, to_paths, from_scans, matches_scan,
  matches_row, matches_any, matches_all,
}
use wasm_dbms.Access.Candidate.{
  Candidate, is_empty_path, sorts_before, insert_candidate, sort_candidates, all_covered,
  is_none_left, select_members, join_members, is_read_alone, choose,
}

module _ {V J F E : Type 0} (values : Values V J F E) (row : Row values) where
  -- The row belongs to the candidate's path.
  abbrev pub HasRow : Candidate V → Type 0
  HasRow c = matches_row values c.path row ≡ true

  abbrev pub PathHasRow : AccessPath V → Type 0
  PathHasRow p = matches_row values p row ≡ true

  pub matches_any-to_paths :
      (ps : List (AccessPath V))
      → matches_any values (to_paths ps) row ≡ any (λ p. matches_row values p row) ps
  unfolding matches_any
  matches_any-to_paths [] = refl
  matches_any-to_paths (p ∷ ps) = rw (matches_any-to_paths ps) refl

  matches_all-to_paths :
      (ps : List (AccessPath V)) → All PathHasRow ps → matches_all values (to_paths ps) row ≡ true
  unfolding matches_all
  matches_all-to_paths [] h = refl
  matches_all-to_paths (p ∷ ps) (h, hs) = rw (h, matches_all-to_paths ps hs) refl

  or_false : (b : Bool) → (b || false) ≡ b
  or_false true = refl
  or_false false = refl

  any-scans :
      (ss : List (IndexScan V))
      → any (λ p. matches_row values p row) (map (λ s. scan s) ss)
        ≡ any (λ s. matches_scan values s row) ss
  unfolding matches_row
  any-scans [] = refl
  any-scans (s ∷ ss) = rw (any-scans ss) refl

  -- A row belongs to the path of some scans when it belongs to one of them.
  pub matches_row-from_scans :
      (ss : List (IndexScan V))
      → matches_row values (from_scans ss) row ≡ any (λ s. matches_scan values s row) ss
  unfolding matches_row
  matches_row-from_scans [] = refl
  matches_row-from_scans (s ∷ []) = rw (or_false (matches_scan values s row)) refl
  matches_row-from_scans (s ∷ t ∷ ss) =
      rw (matches_any-to_paths (map (λ u. scan u) (s ∷ t ∷ ss))) (any-scans (s ∷ t ∷ ss))

  insert_candidate-HasRow :
      (c : Candidate V) (cs : List (Candidate V))
      → HasRow c
      → All HasRow cs
      → All HasRow (insert_candidate c cs)
  insert_candidate-HasRow c [] h hs = (h, tt)
  insert_candidate-HasRow c (d ∷ ds) h (k, ks) = elim (Bool-cases (sorts_before d c)) [
    | inl e ↦ rw e (k, insert_candidate-HasRow c ds h ks)
    | inr e ↦ rw e (h, (k, ks))
  ]

  pub sort_candidates-HasRow :
      (cs : List (Candidate V)) → All HasRow cs → All HasRow (sort_candidates cs)
  sort_candidates-HasRow [] h = tt
  sort_candidates-HasRow (c ∷ cs) (h, hs) =
      insert_candidate-HasRow c (sort_candidates cs) h (sort_candidates-HasRow cs hs)

  pub is_empty_path-HasRow : (p : AccessPath V) → PathHasRow p → is_empty_path p ≡ false
  unfolding matches_row
  is_empty_path-HasRow empty h = cc
  is_empty_path-HasRow (scan s) h = refl
  is_empty_path-HasRow (union ps) h = refl
  is_empty_path-HasRow (intersection ps) h = refl

  none_empty :
      (cs : List (Candidate V)) → All HasRow cs → any (λ c. is_empty_path c.path) cs ≡ false
  none_empty [] h = refl
  none_empty (c ∷ cs) (h, hs) = rw (is_empty_path-HasRow c.path h, none_empty cs hs) refl

  select_members-HasRow :
      (covered : List Name) (cs : List (Candidate V))
      → All HasRow cs
      → All PathHasRow (select_members covered cs)
  select_members-HasRow covered [] h = tt
  select_members-HasRow covered (c ∷ cs) (h, hs) =
      elim (Bool-cases (not (is_none_left c.columns) && all_covered covered c.columns)) [
        | inl e ↦ rw e (select_members-HasRow covered cs hs)
        | inr e ↦ rw e (h, select_members-HasRow (covered ++ c.columns) cs hs)
      ]

  join_members-HasRow :
      (ps : List (AccessPath V)) → All PathHasRow ps → PathHasRow (join_members ps)
  unfolding matches_row
  join_members-HasRow [] h = refl
  join_members-HasRow (p ∷ []) (h, hs) = h
  join_members-HasRow (p ∷ q ∷ ps) h = matches_all-to_paths (p ∷ q ∷ ps) h

  -- Whatever is chosen among candidates that a row belongs to, the row belongs to it.
  pub choose-HasRow :
      (cs : List (Candidate V)) (p : AccessPath V)
      → All HasRow cs
      → choose cs ≡ some p
      → PathHasRow p
  choose-HasRow [] p h e = cc
  choose-HasRow (c ∷ cs) p h e = elim (Bool-cases (is_read_alone c.rank)) [
    | inl alone ↦
        let same : c.path ≡ p = cc (rw (none_empty (c ∷ cs) h, alone) at e) in rw (← same) h.0
    | inr joined ↦
        let same : join_members (select_members [] (c ∷ cs)) ≡ p =
          cc (rw (none_empty (c ∷ cs) h, joined) at e) in
        rw (← same)
          (join_members-HasRow (select_members [] (c ∷ cs)) (select_members-HasRow [] (c ∷ cs) h))
  ]
