-- ===== src/Registry/Pages/Space.antt =====
-- The space that the ledger hands out lies in its page, and is not handed out again.
use mathlib.Core.Path.{subst}
use wasm_dbms.Prelude.{
  ℕ, ◌+◌, ◌-◌, ◌%◌, ◌≤◌, ◌<◌, ◌≡◌, refl, sym, ap, ◌∙◌, arith, List, [], ◌∷◌, ◌++◌, Bool, true,
  false,
}
use wasm_dbms.Prelude.{
  Option, none, some, ltb, leb, ltb→le, ◌==◌, ==_iff, if◌then◌else◌, All, Bool-cases, Option-cases,
  inl, inr,
}
use wasm_dbms.Prelude.Names.{find}
use wasm_dbms.Prelude.Result.{Result-cases, ok}
use wasm_dbms.Encode.{Page, PageOffset, Encode, MemoryResult, u16_mod}
use wasm_dbms.Memory.Access.{MemoryAccess, claim_page}
use wasm_dbms.Memory.Manager.{round_up}
use wasm_dbms.Memory.Manager.Effects.{align_up_lem, le-round_up}
use wasm_dbms.Registry.Pages.{
  PageRecord, PageLedger, is_page, set_free, add_page, taken, place_record,
  get_page_and_offset_for_record,
}
use wasm_dbms.Registry.Pages.{commit, take_space, write}

module _ {A : Type 0} (test : A → Bool) where
  find-All :
      (P : A → Type 0) (xs : List A) (x : A)
      → All P xs
      → find test xs ≡ some x
      → P x × (test x ≡ true)
  find-All P [] x h e = cc
  find-All P (y ∷ xs) x (h, hs) e = elim (Bool-cases (test y)) [
    | inl t ↦ let same : y ≡ x = cc (rw t at e) in (subst P same h, ap test (sym same) ∙ t)
    | inr t ↦ find-All P xs x hs (rw t at e)
  ]

pub apart : (n m : ℕ) → n == m ≡ false → m == n ≡ false
apart n m h = ground arith

-- No two records of the same page.
abbrev pub HasDistinctPages : List PageRecord → Type 0
HasDistinctPages [] = Unit
HasDistinctPages (r ∷ pages) = All (λ q. q.page == r.page ≡ false) pages × HasDistinctPages pages

find_page :
    (test : PageRecord → Bool) (pages : List PageRecord) (r : PageRecord)
    → HasDistinctPages pages
    → find test pages ≡ some r
    → find (is_page r.page) pages ≡ some r
find_page test [] r d e = cc
find_page test (q ∷ pages) r (d, ds) e = elim (Bool-cases (test q)) [
  | inl t ↦
      let same : q ≡ r = cc (rw t at e) in
      rw ((==_iff q.page r.page).1 (ap (λ x. x.page) same)) (ap some same)
  | inr t ↦
      let there : find test pages ≡ some r = rw t at e in
      let other = (find-All test (λ x. x.page == q.page ≡ false) pages r d there).0 in
      rw (apart r.page q.page other) (find_page test pages r ds there)
]

module _ (page_size : ℕ) where
  -- The bytes taken at the front of a page, when the ledger has it.
  abbrev pub taken_at : Page → List PageRecord → Option ℕ
  taken_at page [] = none
  taken_at page (r ∷ pages) =
      if is_page page r then some (page_size - r.free) else taken_at page pages

  taken_at-find :
      (page : Page) (pages : List PageRecord) (r : PageRecord)
      → find (is_page page) pages ≡ some r
      → taken_at page pages ≡ some (page_size - r.free)
  taken_at-find page [] r e = cc
  taken_at-find page (q ∷ pages) r e = elim (Bool-cases (is_page page q)) [
    | inl t ↦ let same : q ≡ r = cc (rw t at e) in rw t (ap (λ x. some (page_size - x.free)) same)
    | inr t ↦ rw t (taken_at-find page pages r (rw t at e))
  ]

  taken_at-set_free :
      (page : Page) (free : ℕ) (pages : List PageRecord) (r : PageRecord)
      → find (is_page page) pages ≡ some r
      → taken_at page (set_free page free pages) ≡ some (page_size - free)
  taken_at-set_free page free [] r e = cc
  taken_at-set_free page free (q ∷ pages) r e = elim (Bool-cases (is_page page q)) [
    | inl t ↦ rw (t, t) refl
    | inr t ↦ rw (t, t) (taken_at-set_free page free pages r (rw t at e))
  ]

  taken_at-set_free_ne :
      (page other : Page) (free : ℕ) (pages : List PageRecord)
      → page == other ≡ false
      → taken_at other (set_free page free pages) ≡ taken_at other pages
  taken_at-set_free_ne page other free [] h = refl
  taken_at-set_free_ne page other free (q ∷ pages) h = elim (Bool-cases (is_page page q)) [
    | inl t ↦ let no : q.page == other ≡ false = rw ((==_iff q.page page).0 t) h in rw (t, no) refl
    | inr t ↦ rw t (
        ap (λ x. if is_page other q then some (page_size - q.free) else x)
          (taken_at-set_free_ne page other free pages h))
  ]

  taken_at-append :
      (page other : Page) (free : ℕ) (pages : List PageRecord)
      → page == other ≡ false
      → taken_at other (pages ++ (record { page = page; free = free } ∷ [])) ≡ taken_at other pages
  taken_at-append page other free [] h = rw h refl
  taken_at-append page other free (q ∷ pages) h =
      ap (λ x. if is_page other q then some (page_size - q.free) else x)
        (taken_at-append page other free pages h)

find-append :
    (page : Page) (free : ℕ) (pages : List PageRecord)
    → All (λ q. q.page == page ≡ false) pages
    → find (is_page page) (pages ++ (record { page = page; free = free } ∷ []))
      ≡ some (record { page = page; free = free })
find-append page free [] h = rw ((==_iff page page).1 refl) refl
find-append page free (q ∷ pages) (h, hs) = rw h (find-append page free pages hs)

module _ {S : Type 0} (mm : MemoryAccess S) where
  -- A ledger with a page's record for the space `n` at `offset` of the page, and the other pages as
  -- in `l`.
  abbrev HasSpace : ℕ → Page → PageOffset → PageLedger → PageLedger → Type 0
  HasSpace n page offset l l' =
      (r : PageRecord) × (find (is_page page) l'.pages ≡ some r)
      × (r.free ≤ mm.page_size)
      × (mm.page_size - r.free ≡ offset)
      × (offset + n ≤ mm.page_size)
      × ((other : Page)
          → page == other ≡ false
          → taken_at mm.page_size other l'.pages ≡ taken_at mm.page_size other l.pages)

  -- The ledger's pages are distinct, with no more space free than a page has, and a page that is
  -- claimed is not among them.
  pub record IsLedger (l : PageLedger) (s : S) : Type 0 where
    pub page_size_le : mm.page_size ≤ u16_mod
    pub free_le : All (λ r. r.free ≤ mm.page_size) l.pages
    pub distinct : HasDistinctPages l.pages
    pub claims_new :
        (page : Page) → (claim_page mm s).0 ≡ ok page → All (λ r. r.page == page ≡ false) l.pages

  same_place :
      (n : ℕ) (new page : Page) (o offset : PageOffset) (l l' : PageLedger)
      → Path (MemoryResult (Page × PageOffset)) (ok (new, o)) (ok (page, offset))
      → HasSpace n new o l l'
      → HasSpace n page offset l l'
  same_place n new page o offset l l' e h =
      let same_page : new ≡ page = cc in
      let same_offset : o ≡ offset = cc in
      subst (λ x. HasSpace n x offset l l') same_page
        (subst (λ x. HasSpace n new x l l') same_offset h)

  add_page_lem :
      (n : ℕ) (l : PageLedger) (s : S) (page : Page) (offset : PageOffset)
      → IsLedger l s
      → n ≤ mm.page_size
      → (add_page mm (l, s)).0 ≡ ok (page, offset)
      → HasSpace n page offset l (add_page mm (l, s)).1.0
  unfolding add_page
  add_page_lem n l s page offset k le e = elim (Result-cases (claim_page mm s).0) [
    | inl p ↦ cc (rw (p, add_page) at e)
    | inr (inl (x, p)) ↦ cc (rw (p, add_page) at e)
    | inr (inr (new, p)) ↦
        let after : PageLedger = record l {
          pages = l.pages ++ (record { page = new; free = mm.page_size } ∷ []);
        } in
        rw (p, add_page)
          (same_place n new page 0 offset l after (rw (p, add_page) at e) (
            record { page = new; free = mm.page_size },
            find-append new mm.page_size l.pages (k.claims_new new p),
            omega arith,
            omega arith,
            omega arith,
            λ other h. taken_at-append mm.page_size new other mm.page_size l.pages h,
          ))
  ]

  place_record_lem :
      (n : ℕ) (l : PageLedger) (s : S) (page : Page) (offset : PageOffset)
      → IsLedger l s
      → 0 < n
      → (place_record mm n (l, s)).0 ≡ ok (page, offset)
      → HasSpace n page offset l (place_record mm n (l, s)).1.0
  unfolding place_record
  place_record_lem n l s page offset k pos e = elim (Bool-cases (ltb mm.page_size n)) [
    | inl big ↦ cc (rw (big, place_record) at e)
    | inr fits ↦ elim (Option-cases (find (λ r. leb (taken mm r + n) mm.page_size) l.pages)) [
      | inl none' ↦
          rw (fits, none', place_record)
            (add_page_lem n l s page offset k (omega (arith, ltb→le mm.page_size n fits))
              (rw (fits, none', place_record) at e))
      | inr (r, found) ↦
          let (free_le, room) = find-All _ (λ x. x.free ≤ mm.page_size) l.pages r k.free_le found in
          let small : (mm.page_size - r.free) % u16_mod ≡ mm.page_size - r.free =
            ground (arith, k.page_size_le) in
          rw (fits, found, place_record)
            (same_place n r.page page (taken mm r % u16_mod) offset l l
              (rw (fits, found, place_record) at e)
              (
                r,
                find_page _ l.pages r k.distinct found,
                free_le,
                sym small,
                ground (arith, small, room),
                λ other h. refl,
              ))
    ]
  ]

  -- What committing a record does to the space of the pages.
  commit_space :
      {R : Type 0} (e : Encode R) (a : R) (page : Page) (offset : PageOffset) (l l' : PageLedger)
      (s : S)
      → 0 < e.alignment
      → HasSpace (round_up e.alignment (e.size a)) page offset l l'
      → let after = (commit mm page e a (l', s)).1.0.pages in
        (taken_at mm.page_size page after ≡ some (offset + round_up e.alignment (e.size a)))
        × ((other : Page)
            → page == other ≡ false
            → taken_at mm.page_size other after ≡ taken_at mm.page_size other l.pages)
  unfolding commit take_space write
  commit_space e a page offset l l' s pos (r, found, free_le, at_offset, fits, same) =
      let n = round_up e.alignment (e.size a) in
      let le : e.size a ≤ n = le-round_up e.alignment (e.size a) pos in
      let enough : ltb r.free (e.size a) ≡ false = ground arith in
      let left : mm.page_size - (r.free - (e.size a + (n - e.size a))) ≡ offset + n = omega arith in
      rw (found, enough, align_up_lem e.alignment (e.size a) pos, commit)
        (
          taken_at-set_free mm.page_size page _ l'.pages r found ∙ ap some left,
          λ other h. taken_at-set_free_ne mm.page_size page other _ l'.pages h ∙ same other h,
        )

  -- In a ledger of distinct pages, where a page that is claimed is not among them and a page has at
  -- most 64 KiB, the place given for a record lies in its page with its padding, and starts where the
  -- bytes taken in the page end. When the record is committed they end behind it, and the space
  -- of any other page is what it was.
  pub commit-get_page_and_offset :
      {R : Type 0} (e : Encode R) (a : R) (page other : Page) (offset : PageOffset) (l : PageLedger)
      (s : S)
      → IsLedger l s
      → 0 < e.alignment
      → 0 < e.size a
      → page == other ≡ false
      → (get_page_and_offset_for_record mm e a (l, s)).0 ≡ ok (page, offset)
      → let (l', s') = (get_page_and_offset_for_record mm e a (l, s)).1 in
        let after = (commit mm page e a (l', s')).1.0.pages in
        (offset + round_up e.alignment (e.size a) ≤ mm.page_size)
        × (taken_at mm.page_size page l'.pages ≡ some offset)
        × (taken_at mm.page_size page after ≡ some (offset + round_up e.alignment (e.size a)))
        × (taken_at mm.page_size other after ≡ taken_at mm.page_size other l.pages)
  unfolding get_page_and_offset_for_record
  commit-get_page_and_offset e a page other offset l s k pos size_pos ne answer =
      let n = round_up e.alignment (e.size a) in
      let le : e.size a ≤ n = le-round_up e.alignment (e.size a) pos in
      let computed : get_page_and_offset_for_record mm e a (l, s) ≡ place_record mm n (l, s) =
        rw (align_up_lem e.alignment (e.size a) pos, get_page_and_offset_for_record) refl in
      let (l', s') = (get_page_and_offset_for_record mm e a (l, s)).1 in
      let space = place_record_lem n l s page offset k (omega arith) (rw computed at answer) in
      let space' : HasSpace n page offset l l' = rw computed space in
      let (r, found, free_le, at_offset, fits, same) = space' in
      let (ends, others) = commit_space e a page offset l l' s' pos space' in
      (
        fits,
        taken_at-find mm.page_size page l'.pages r found ∙ ap some at_offset,
        ends,
        others other ne,
      )
