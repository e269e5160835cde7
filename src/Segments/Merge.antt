-- ===== src/Segments/Merge.antt =====
-- Neighbouring segments: when they are found, and what their join and their remainder cover.
use wasm_dbms.Prelude.{ℕ, ◌+◌, ◌≤◌, ◌<◌, ◌≡◌, refl, ap, arith, inl, inr, ◌⊎◌}
use wasm_dbms.Prelude.{List, ◌++◌, true, false, none, some, leb}
use wasm_dbms.Prelude.{length, Option-cases, min, le→ltb}
use mathlib.Core.List.{append-nil}
use wasm_dbms.Encode.{Page, PageOffset, MSize}
use wasm_dbms.Segments.Table.{FreeSegment, find, position, swap_remove, is_segment, remainder}
use wasm_dbms.Segments.Table.{
  before, after, saturating_add, has_adjacent_segment_before, has_adjacent_segment_after,
}
use wasm_dbms.Segments.Table.{has_adjacent_segment}
use wasm_dbms.Segments.Table.{ends_at, starts_at}
use wasm_dbms.Segments.Space.{total, covers, excess, one, length-total, find_lem}
use wasm_dbms.Segments.Space.{total-swap_remove}

abbrev pub segment : Page → PageOffset → MSize → FreeSegment
segment page offset size = record { page = page; offset = offset; size = size }

covers-join :
    (p : Page) (b : ℕ) (page : Page) (offset m n : ℕ)
    → covers p b (segment page offset (m + n))
      ≡ covers p b (segment page offset m) + covers p b (segment page (offset + m) n)
covers-join p b page offset m n = ground arith

pub covers_before :
    (page : Page) (offset : PageOffset) (size : MSize) (seg : FreeSegment)
    → seg.page ≡ page
    → seg.offset + seg.size ≡ offset
    → saturating_add seg.size size ≡ seg.size + size
    → (p : Page) (b : ℕ)
    → covers p b (segment page seg.offset (saturating_add seg.size size))
      ≡ covers p b seg + covers p b (segment page offset size)
covers_before page offset size seg same_page same_end sum p b =
    rw (sum, ← same_end, ← same_page) (covers-join p b seg.page seg.offset seg.size size)

pub covers_after :
    (page : Page) (offset : PageOffset) (size : MSize) (seg : FreeSegment)
    → seg.page ≡ page
    → seg.offset ≡ offset + size
    → saturating_add size seg.size ≡ size + seg.size
    → (p : Page) (b : ℕ)
    → covers p b (segment page offset (saturating_add size seg.size))
      ≡ covers p b seg + covers p b (segment page offset size)
covers_after page offset size seg same_page start sum p b = omega (
  arith,
  ap (λ n. covers p b (segment page offset n)) sum,
  covers-join p b page offset size seg.size,
  ap (λ n. covers p b (segment page n seg.size)) start,
  ap (λ q. covers p b (segment q seg.offset seg.size)) same_page,
)

pub ends_at_lem :
    (page : Page) (offset : PageOffset) (r : FreeSegment)
    → ends_at page offset r ≡ true
    → excess r ≡ 0
    → (r.page ≡ page) × (r.offset + r.size ≡ offset)
ends_at_lem page offset r h e = (ground arith, ground arith)

pub starts_at_lem :
    (page : Page) (offset : PageOffset) (r : FreeSegment)
    → starts_at page offset r ≡ true
    → (r.page ≡ page) × (r.offset ≡ offset)
starts_at_lem page offset r h = (ground arith, ground arith)

-- What is left of a table from which a whole segment is taken.
pub total_removed :
    (f : FreeSegment → ℕ) (seg : FreeSegment) (xs : List FreeSegment) (i : ℕ)
    → position (is_segment seg) xs ≡ some i
    → total f (swap_remove i xs ++ remainder seg seg.size) + f seg ≡ total f xs
total_removed f seg xs i h =
    rw (le→ltb seg.size seg.size (omega arith), append-nil) (total-swap_remove f seg xs i h)

pub length-removed :
    (seg : FreeSegment) (xs : List FreeSegment) (i : ℕ)
    → position (is_segment seg) xs ≡ some i
    → length (swap_remove i xs ++ remainder seg seg.size) + 1 ≡ length xs
length-removed seg xs i h = omega (
  arith,
  length-total (swap_remove i xs ++ remainder seg seg.size),
  length-total xs,
  total_removed one seg xs i h,
)

pub length-remainder : (seg : FreeSegment) (used : MSize) → length (remainder seg used) ≤ 1
length-remainder seg used = ground arith

pub excess-remainder :
    (seg : FreeSegment) (used : MSize) → excess seg ≡ 0 → total excess (remainder seg used) ≡ 0
excess-remainder seg used h = ground arith

pub covers-remainder :
    (p : Page) (b : ℕ) (seg : FreeSegment) (used : MSize)
    → excess seg ≡ 0
    → total (covers p b) (remainder seg used)
        + covers p b (segment seg.page seg.offset (min used seg.size))
      ≡ covers p b seg
covers-remainder p b seg used h = ground arith

pub le→leb_false : (a b : ℕ) → b < a → leb a b ≡ false
le→leb_false a b h = ground arith

pub adjacent_cases :
    (records : List FreeSegment) (page : Page) (offset : PageOffset) (size : MSize)
    → (has_adjacent_segment records page offset size ≡ none)
      ⊎ (((seg : FreeSegment) × (has_adjacent_segment records page offset size ≡ some (before seg))
            × (ends_at page offset seg ≡ true)
            × ((i : ℕ) × (position (is_segment seg) records ≡ some i)))
          ⊎ ((seg : FreeSegment) × (has_adjacent_segment records page offset size
                ≡ some (after seg))
              × (starts_at page (saturating_add offset size) seg ≡ true)
              × ((i : ℕ) × (position (is_segment seg) records ≡ some i))))
unfolding has_adjacent_segment has_adjacent_segment_before has_adjacent_segment_after
adjacent_cases records page offset size = elim (Option-cases (find (ends_at page offset) records)) [
  | inr (seg, e) ↦
      let (holds, found) = find_lem (ends_at page offset) records seg e in
      inr (inl (seg, rw (e, has_adjacent_segment, has_adjacent_segment_before) refl, holds, found))
  | inl no_before ↦
      elim (Option-cases (find (starts_at page (saturating_add offset size)) records)) [
        | inl no_after ↦ inl (
            rw
              (
                no_before, no_after, has_adjacent_segment, has_adjacent_segment_before,
                has_adjacent_segment_after,
              )
              refl)
        | inr (seg, e) ↦
            let (holds, found) =
              find_lem (starts_at page (saturating_add offset size)) records seg e in
            inr (
              inr (
                seg,
                rw
                    (
                      no_before, e, has_adjacent_segment, has_adjacent_segment_before,
                      has_adjacent_segment_after,
                    )
                    refl,
                holds,
                found,
              ))
      ]
]
