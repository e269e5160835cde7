-- ===== src/Registry/Pages/Walk.antt =====
-- A scan that follows the ledger visits each of its pages.
use wasm_dbms.Prelude.{
  ℕ, zero, suc, ◌+◌, ◌≤◌, ◌≡◌, refl, sym, ap, ◌∙◌, arith, List, [], ◌∷◌, ◌++◌, false, map,
}
use wasm_dbms.Prelude.{none, some, ◌==◌, ==_iff, All, length, get_elem?}
use mathlib.Core.Path.{subst}
use mathlib.Core.List.{append_assoc}
use wasm_dbms.Encode.{Page}
use wasm_dbms.Registry.Pages.{PageRecord, position, next_page_after}
use wasm_dbms.Registry.Pages.Space.{HasDistinctPages, apart}

abbrev page_of : PageRecord → Page
page_of r = r.page

-- The pages that a scan visits from `current` on, in at most `fuel` steps.
unfoldable pub walk : ℕ → Page → List PageRecord → List Page
unfolding next_page_after
walk zero current pages = []
walk (suc fuel) current pages =
    current ∷ elim (next_page_after current pages) [ none ↦ [] | some next ↦ walk fuel next pages ]

get_elem?-middle :
    (front : List PageRecord) (r : PageRecord) (rest : List PageRecord)
    → get_elem? (front ++ (r ∷ rest)) (length front + 1) ≡ get_elem? rest 0
get_elem?-middle [] r [] = refl
get_elem?-middle [] r (q ∷ rest) = refl
get_elem?-middle (q ∷ front) r rest =
    let e : length (q ∷ front) + 1 ≡ suc (length front + 1) = omega arith in
    ap (λ (i : ℕ). get_elem? (q ∷ front ++ (r ∷ rest)) i) e ∙ get_elem?-middle front r rest

All-middle :
    (P : PageRecord → Type 0) (front : List PageRecord) (r : PageRecord) (rest : List PageRecord)
    → All P (front ++ (r ∷ rest))
    → P r
All-middle P [] r rest (h, hs) = h
All-middle P (q ∷ front) r rest (h, hs) = All-middle P front r rest hs

position-middle :
    (front : List PageRecord) (r : PageRecord) (rest : List PageRecord)
    → HasDistinctPages (front ++ (r ∷ rest))
    → position r.page (front ++ (r ∷ rest)) ≡ some (length front)
unfolding position
position-middle [] r rest d = rw ((==_iff r.page r.page).1 refl) refl
position-middle (q ∷ front) r rest (d, ds) =
    rw
      (
        apart r.page q.page (All-middle (λ x. x.page == q.page ≡ false) front r rest d),
        position-middle front r rest ds,
      )
      refl

walk-from :
    (front : List PageRecord) (r : PageRecord) (rest : List PageRecord) (fuel : ℕ)
    → HasDistinctPages (front ++ (r ∷ rest))
    → length (r ∷ rest) ≤ fuel
    → walk fuel r.page (front ++ (r ∷ rest)) ≡ map page_of (r ∷ rest)
unfolding walk next_page_after
walk-from front r rest zero d enough = absurd (omega arith)
walk-from front r [] (suc fuel) d enough =
    rw (position-middle front r [] d, get_elem?-middle front r [], next_page_after, walk) refl
walk-from front r (q ∷ rest) (suc fuel) d enough =
    let same : (front ++ (r ∷ [])) ++ (q ∷ rest) ≡ front ++ (r ∷ q ∷ rest) =
      append_assoc front (r ∷ []) (q ∷ rest) in
    let later =
      walk-from (front ++ (r ∷ [])) q rest fuel (subst HasDistinctPages (sym same) d)
        (omega arith) in
    rw
      (
        position-middle front r (q ∷ rest) d,
        get_elem?-middle front r (q ∷ rest),
        next_page_after,
        walk,
      )
      (ap (◌∷◌ r.page) (rw same at later))

-- A scan from the first page on visits the pages of the ledger in its order, each once.
pub walk-pages :
    (r : PageRecord) (rest : List PageRecord) (fuel : ℕ)
    → HasDistinctPages (r ∷ rest)
    → length (r ∷ rest) ≤ fuel
    → walk fuel r.page (r ∷ rest) ≡ map page_of (r ∷ rest)
walk-pages r rest fuel d enough = walk-from [] r rest fuel d enough
