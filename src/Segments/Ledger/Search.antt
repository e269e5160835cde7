-- ===== src/Segments/Ledger/Search.antt =====
-- What a search for a free segment finds.
use native.Mathlib.Nat.{div-add-mod', mul-le-mul_right, div-lt_iff_lt-mul, suc-mul}
use mathlib.Core.List.{Memᴰ}
use wasm_dbms.Prelude.{
  ℕ, suc, ◌+◌, ◌-◌, ◌*◌, ◌/◌, ◌%◌, ◌≤◌, ◌<◌, ◌≡◌, ◌⊎◌, refl, sym, ap, ◌∙◌, arith, List, [], ◌∷◌,
  Bool, true, false,
}
use wasm_dbms.Prelude.{Option, none, some, leb, All, Bool-cases, inl, inr}
use wasm_dbms.Prelude.Result.{ok, err, panic}
use mathlib.Core.Path.{subst}
use wasm_dbms.Encode.{Page, Encode, MemoryResult}
use wasm_dbms.Memory.Access.{MemoryAccess}
use wasm_dbms.Memory.Exec.{Exec, pure, continue}
use wasm_dbms.Memory.Manager.{round_up}
use wasm_dbms.Registry.Record.{FreeSegmentTicket}
use wasm_dbms.Segments.Table
use wasm_dbms.Segments.Table.{list_encode, FreeSegment, FreeSegmentsTable, find}
use wasm_dbms.Segments.Ledger.{
  FreeSegmentsLedger, find_segment, find_reusable_segment_raw, find_reusable_segment,
}

below : (x a k : ℕ) → x / a < suc k → x / a ≤ k
below x a k h = omega arith

round_up-le : (a n m : ℕ) → 0 < a → n ≤ m → m % a ≡ 0 → round_up a n ≤ m
round_up-le a n m pos le whole =
    let k = m / a in
    let exact : k * a ≡ m = omega (arith, div-add-mod' m a) in
    let less : (n + a - 1) / a < suc k = (div-lt_iff_lt-mul pos).1 (omega (arith, suc-mul k a)) in
    omega (arith, mul-le-mul_right a (below (n + a - 1) a k less))

find-test :
    (test : FreeSegment → Bool) (P : FreeSegment → Type 0) (rs : List FreeSegment)
    → All P rs
    → ((find test rs ≡ none) × All (λ r. test r ≡ false) rs)
      ⊎ ((r : FreeSegment) × (find test rs ≡ some r) × (test r ≡ true) × P r × Memᴰ r rs)
unfolding find
find-test test P [] h = inl (refl, tt)
find-test test P (r ∷ rs) (h, hs) = elim (Bool-cases (test r)) [
  | inl t ↦ rw t (inr (r, refl, t, h, Memᴰ.head refl))
  | inr t ↦ elim (find-test test P rs hs) [
    | inl (gone, none_there) ↦ rw t (inl (gone, (refl, none_there)))
    | inr (q, found, holds, p, in_rest) ↦ rw t (inr (q, found, holds, p, Memᴰ.tail in_rest))
  ]
]

module _ {S : Type 0} (mm : MemoryAccess S) where
  -- Loading the tables succeeds and changes nothing, and their segments have the property.
  abbrev pub Loads : (FreeSegment → Type 0) → S → List Page → Type 0
  Loads P s pages =
      All (λ page. (t : FreeSegmentsTable) × (Table.load mm page s ≡ (ok t, s)) × All P t.records)
        pages

  -- The table of the page is loaded, and none of its segments passes the test.
  abbrev pub HasNone : (FreeSegment → Bool) → S → Page → Type 0
  HasNone test s page =
      (t : FreeSegmentsTable) × (Table.load mm page s ≡ (ok t, s))
      × All (λ r. test r ≡ false) t.records

  -- The ticket names a page of the list, and its segment is one of the table of that page.
  abbrev pub IsOf : S → List Page → FreeSegmentTicket → Type 0
  IsOf s pages ticket =
      Memᴰ ticket.table pages
      × ((t : FreeSegmentsTable) × (Table.load mm ticket.table s ≡ (ok t, s))
          × Memᴰ ticket.segment t.records)

  IsOf-later :
      (s : S) (page : Page) (pages : List Page) (ticket : FreeSegmentTicket)
      → IsOf s pages ticket
      → IsOf s (page ∷ pages) ticket
  IsOf-later s page pages ticket (there, found) = (Memᴰ.tail there, found)

  -- The page of the table that an answer holds.
  abbrev page_of : Page → MemoryResult FreeSegmentsTable × S → Page
  page_of page (ok t, s) = t.page
  page_of page (err e, s) = page
  page_of page (panic, s) = page

  page_of-continue :
      (page : Page) (r : MemoryResult (List FreeSegment)) (s : S)
      → page_of page (
          continue r
            (λ records. pure (record {
              max_records = Table.max_segments mm.page_size;
              records = records;
              page = page;
            }))
            s)
        ≡ page
  page_of-continue page (ok records) s = refl
  page_of-continue page (err e) s = refl
  page_of-continue page panic s = refl

  -- A loaded table knows its page.
  page-load :
      (page : Page) (s : S) (t : FreeSegmentsTable)
      → Table.load mm page s ≡ (ok t, s)
      → t.page ≡ page
  unfolding Table.load
  page-load page s t h =
      let (r, s') = mm.read_at (List FreeSegment) list_encode page 0 s in
      sym (ap (page_of page) h) ∙ page_of-continue page r s'

  turn :
      (test : FreeSegment → Bool) (page : Page) (pages : List Page) (s : S) (t : FreeSegmentsTable)
      → Table.load mm page s ≡ (ok t, s)
      → find_segment mm test (page ∷ pages) s
        ≡ (elim (find test t.records) as (λ _. Exec S (Option FreeSegmentTicket)) [
          | some segment ↦ pure (some (record { segment = segment; table = t.page }))
          | none ↦ find_segment mm test pages
        ])
            s
  unfolding find_segment
  turn test page pages s t loaded = rw (loaded, find_segment) refl

  find_segment_lem :
      (test : FreeSegment → Bool) (P : FreeSegment → Type 0) (pages : List Page) (s : S)
      → Loads P s pages
      → ((find_segment mm test pages s ≡ (ok none, s)) × All (HasNone test s) pages)
        ⊎ ((ticket : FreeSegmentTicket) × (find_segment mm test pages s ≡ (ok (some ticket), s))
            × (test ticket.segment ≡ true)
            × P ticket.segment
            × IsOf s pages ticket)
  unfolding find_segment
  find_segment_lem test P [] s h = inl (refl, tt)
  find_segment_lem test P (page ∷ pages) s ((t, loaded, has), hs) =
      let first = turn test page pages s t loaded in
      elim (find-test test P t.records has) [
        | inr (r, there, holds, p, in_table) ↦
            let same = page-load page s t loaded in
            inr (
              record { segment = r; table = t.page },
              first ∙ rw there refl,
              holds,
              p,
              (
                Memᴰ.head same,
                (t, subst (λ q. Table.load mm q s ≡ (ok t, s)) (sym same) loaded, in_table),
              ),
            )
        | inl (gone, none_here) ↦ elim (find_segment_lem test P pages s hs) [
          | inl (rest, none_there) ↦
              inl (first ∙ rw gone rest, ((t, loaded, none_here), none_there))
          | inr (ticket, rest, holds, p, of) ↦
              inr (ticket, first ∙ rw gone rest, holds, p, IsOf-later s page pages ticket of)
        ]
      ]

  -- When the tables of a ledger can be loaded, and the sizes of their segments are multiples of the
  -- record's alignment, a search for the space of a record answers with a segment of one of those tables
  -- that has it, padding included, and with that table's page; or it answers with none, and no segment of any table has the record's size.
  pub find_reusable_segment_cases :
      {E : Type 0} (e : Encode E) (a : E) (l : FreeSegmentsLedger) (s : S)
      → Loads (λ r. r.size % e.alignment ≡ 0) s l.tables
      → 0 < e.alignment
      → ((find_reusable_segment mm e a l s ≡ (ok none, s))
          × All (HasNone (λ r. leb (e.size a) r.size) s) l.tables)
        ⊎ ((ticket : FreeSegmentTicket) × (find_reusable_segment mm e a l s ≡ (ok (some ticket), s))
            × (round_up e.alignment (e.size a) ≤ ticket.segment.size)
            × IsOf s l.tables ticket)
  unfolding find_reusable_segment find_reusable_segment_raw
  find_reusable_segment_cases e a l s h pos =
      elim (find_segment_lem (λ r. leb (e.size a) r.size) (λ r. r.size % e.alignment ≡ 0) l.tables s
        h) [
          | inl gone ↦ inl gone
          | inr (ticket, found, holds, whole, of) ↦
              let le : e.size a ≤ ticket.segment.size = ground arith in
              inr (
                ticket,
                found,
                round_up-le e.alignment (e.size a) ticket.segment.size pos le whole,
                of,
              )
        ]
