-- ===== src/Segments/Table.antt =====
-- free_segment.rs and free_segments_table.rs: one page of free segments. A method works on the table
-- and on the state behind `mm`.
use wasm_dbms.Prelude.{ℕ, zero, suc, ◌+◌, ◌-◌, ◌*◌, ◌/◌, ◌%◌, List, [], ◌∷◌, ◌++◌, Bool, ◌&&◌, min}
use wasm_dbms.Prelude.{true, false, Option, none, some, ltb, leb, ◌==◌, if◌then◌else◌, length}
use wasm_dbms.Prelude.Slices.{slice}
use wasm_dbms.Prelude.Bytes.{to_le_bytes, from_le_bytes}
use wasm_dbms.Prelude.Result.{ok, panic, ◌>>=◌}
use wasm_dbms.Encode.{Page, PageOffset, MSize, MemoryResult, Encode, dynamic}
use wasm_dbms.Encode.{default_alignment, u16_mod, msize_max}
use wasm_dbms.Memory.Exec
use wasm_dbms.Memory.Exec.{Exec}
use wasm_dbms.Memory.Access.{MemoryAccess}
use wasm_dbms.Memory.Unclaimed.{pop_last}

pub record FreeSegment : Type 0 where
  pub page : Page
  pub offset : PageOffset
  pub size : MSize

unfoldable pub encode_segment : FreeSegment → List ℕ
encode_segment s = to_le_bytes 4 s.page ++ (to_le_bytes 2 s.offset ++ to_le_bytes 2 s.size)

-- A slice out of range panics.
unfoldable pub decode_segment : List ℕ → MemoryResult FreeSegment
decode_segment bytes =
    if ltb (length bytes) 8
    then panic
    else ok (record {
      page = from_le_bytes (slice 0 4 bytes);
      offset = from_le_bytes (slice 4 2 bytes);
      size = from_le_bytes (slice 6 2 bytes);
    })

unfoldable pub encode_segments : List FreeSegment → List ℕ
unfolding encode_segment
encode_segments [] = []
encode_segments (s ∷ rest) = encode_segment s ++ encode_segments rest

unfoldable pub encode_list : List FreeSegment → List ℕ
unfolding encode_segments
encode_list records = to_le_bytes 2 (length records % u16_mod) ++ encode_segments records

-- The loop of `decode`, with the number of records left and the bytes from `offset` on.
unfoldable pub decode_segments : ℕ → List ℕ → MemoryResult (List FreeSegment)
unfolding decode_segment
decode_segments zero bytes = ok []
decode_segments (suc n) bytes = decode_segment (slice 0 8 bytes) >>= λ s.
    decode_segments n (slice 8 (length bytes - 8) bytes) >>= λ rest. ok (s ∷ rest)

unfoldable pub decode_list : List ℕ → MemoryResult (List FreeSegment)
unfolding decode_segments
decode_list bytes =
    if ltb (length bytes) 2
    then panic
    else decode_segments (from_le_bytes (slice 0 2 bytes)) (slice 2 (length bytes - 2) bytes)

abbrev pub saturating_add : ℕ → ℕ → ℕ
saturating_add a b = min (a + b) msize_max

unfoldable pub list_size : List FreeSegment → MSize
list_size records = saturating_add 2 (min (length records % u16_mod * 8) msize_max)

abbrev pub list_encode : Encode (List FreeSegment)
list_encode = record {
  data_size = dynamic;
  alignment = default_alignment;
  encode = encode_list;
  decode = decode_list;
  size = list_size;
}

pub record FreeSegmentsTable : Type 0 where
  pub max_records : ℕ
  pub records : List FreeSegment
  pub page : Page

pub data AdjacentSegment : Type 0 where
  before : FreeSegment → AdjacentSegment
  after : FreeSegment → AdjacentSegment

-- `iter().find(..)`
unfoldable pub find : (FreeSegment → Bool) → List FreeSegment → Option FreeSegment
find test [] = none
find test (r ∷ rest) = if test r then some r else find test rest

unfoldable pub is_full : FreeSegmentsTable → Bool
is_full t = leb t.max_records (length t.records)

abbrev pub ends_at : Page → PageOffset → FreeSegment → Bool
ends_at page offset r = r.page == page && saturating_add r.offset r.size == offset

abbrev pub starts_at : Page → PageOffset → FreeSegment → Bool
starts_at page offset r = r.page == page && r.offset == offset

unfoldable pub has_adjacent_segment_before :
    List FreeSegment → Page → PageOffset → Option AdjacentSegment
unfolding find
has_adjacent_segment_before records page offset = elim (find (ends_at page offset) records) [
  | none ↦ none
  | some s ↦ some (before s)
]

unfoldable pub has_adjacent_segment_after :
    List FreeSegment → Page → PageOffset → MSize → Option AdjacentSegment
unfolding find
has_adjacent_segment_after records page offset size =
    elim (find (starts_at page (saturating_add offset size)) records) [
      | none ↦ none
      | some s ↦ some (after s)
    ]

unfoldable pub has_adjacent_segment :
    List FreeSegment → Page → PageOffset → MSize → Option AdjacentSegment
unfolding has_adjacent_segment_before has_adjacent_segment_after
has_adjacent_segment records page offset size =
    elim (has_adjacent_segment_before records page offset) [
      | some a ↦ some a
      | none ↦ has_adjacent_segment_after records page offset size
    ]

abbrev pub is_segment : FreeSegment → FreeSegment → Bool
is_segment s r = r.page == s.page && (r.offset == s.offset && r.size == s.size)

-- `iter().position(..)`
unfoldable pub position : (FreeSegment → Bool) → List FreeSegment → Option ℕ
position test [] = none
position test (r ∷ rest) =
    let later = position test rest in
    if test r then some 0 else (elim later [ none ↦ none | some i ↦ some (suc i) ])

abbrev pub set : List FreeSegment → ℕ → FreeSegment → List FreeSegment
set [] i v = []
set (x ∷ xs) zero v = v ∷ xs
set (x ∷ xs) (suc i) v = x ∷ set xs i v

-- `Vec::swap_remove`: the last element takes the place of the removed one.
unfoldable pub swap_remove : ℕ → List FreeSegment → List FreeSegment
swap_remove i records = elim (pop_last records) [
  | none ↦ []
  | some (last, front) ↦ set front i last
]

-- What is left of a segment of which `used_size` bytes are taken.
abbrev pub remainder : FreeSegment → MSize → List FreeSegment
remainder s used_size =
    if ltb used_size s.size
    then (record {
      page = s.page;
      offset = saturating_add s.offset used_size;
      size = s.size - used_size;
    })
      ∷ []
    else []

unfoldable pub max_segments : ℕ → ℕ
max_segments page_size = (page_size + 7) / 8 - 1

module _ {S : Type 0} (mm : MemoryAccess S) where
  unfoldable pub load : Page → Exec S FreeSegmentsTable
  unfolding max_segments
  load page = Exec.◌>>=◌ (mm.read_at (List FreeSegment) list_encode page 0) λ records.
      Exec.pure (record { max_records = max_segments mm.page_size; records = records; page = page })

  abbrev pub Method : Type 0
  Method = Exec (FreeSegmentsTable × S) (Unit {0})

  unfoldable pub commit : Method
  commit (t, s) =
      let (r, s') = mm.write_at (List FreeSegment) list_encode t.page 0 t.records s in (r, (t, s'))

  abbrev set_records : List FreeSegment → Method
  set_records records (t, s) = (ok tt, (record t { records = records }, s))

  unfoldable pub remove : FreeSegment → MSize → Method
  unfolding commit swap_remove position
  remove segment used_size (t, s) = elim (position (is_segment segment) t.records) [
    | none ↦ (ok tt, (t, s))
    | some pos ↦
        Exec.◌>>◌ (set_records (swap_remove pos t.records ++ remainder segment used_size)) commit
          (t, s)
  ]

  -- Each call removes a segment before it calls itself, so `fuel` above their number is enough.
  unfoldable pub insert_free_segment : ℕ → Page → PageOffset → MSize → Method
  unfolding is_full remove commit has_adjacent_segment
  insert_free_segment zero page offset size w = (panic, w)
  insert_free_segment (suc fuel) page offset size (t, s) = elim (is_full t) [
    | true ↦ (panic, (t, s))
    | false ↦ elim (has_adjacent_segment t.records page offset size) [
      | some (before seg) ↦
          Exec.◌>>◌ (remove seg seg.size)
            (Exec.◌>>◌ (insert_free_segment fuel page seg.offset (saturating_add seg.size size))
              commit)
            (t, s)
      | some (after seg) ↦
          Exec.◌>>◌ (remove seg seg.size)
            (Exec.◌>>◌ (insert_free_segment fuel page offset (saturating_add size seg.size)) commit)
            (t, s)
      | none ↦
          Exec.◌>>◌
            (set_records (t.records ++ (record { page = page; offset = offset; size = size } ∷ [])))
            commit (t, s)
    ]
  ]
