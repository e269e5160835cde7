-- ===== src/Memory/Unclaimed.antt =====
-- unclaimed_pages.rs: the ledger of released pages, a stack kept on a reserved page.
pub mod Codec
use wasm_dbms.Prelude.{ℕ, ◌+◌, ◌-◌, ◌*◌, ◌%◌, List, [], ◌∷◌, ◌++◌, Bool, true, false, ltb, leb}
use wasm_dbms.Prelude.{Option, none, some, if◌then◌else◌, length}
use wasm_dbms.Prelude.Slices.{slice}
use wasm_dbms.Prelude.Bytes.{to_le_bytes, from_le_bytes}
use wasm_dbms.Prelude.Result.{ok, err}
use wasm_dbms.Encode.{Page, MSize, MemoryResult, u16_mod, u32_mod, Encode, dynamic}
use wasm_dbms.Encode.{default_alignment, unclaimed_pages_full, decode_error, too_short}

-- `(u16::MAX - 4) / 4`
abbrev pub unclaimed_pages_capacity : ℕ
unclaimed_pages_capacity = 16382

pub record UnclaimedPages : Type 0 where
  pub pages : List Page

abbrev pub new : UnclaimedPages
new = record { pages = [] }

unfoldable pub remaining_capacity : UnclaimedPages → ℕ
remaining_capacity u = (unclaimed_pages_capacity + u32_mod - length u.pages % u32_mod) % u32_mod

unfoldable pub is_empty : UnclaimedPages → Bool
is_empty u = elim u.pages [ [] ↦ true | _ ∷ _ ↦ false ]

-- `Vec::pop`: the last element, and the list without it.
abbrev pub pop_last {ℓ} : {A : Type ℓ} → List A → Option (A × List A)
pop_last [] = none
pop_last (x ∷ []) = some (x, [])
pop_last (x ∷ y ∷ xs) = elim (pop_last (y ∷ xs)) [
  | none ↦ none
  | some (z, rest) ↦ some (z, x ∷ rest)
]

-- The state after `pop` is returned beside its result.
unfoldable pub pop : UnclaimedPages → Option (Page × UnclaimedPages)
pop u = elim (pop_last u.pages) [
  | none ↦ none
  | some (page, rest) ↦ some (page, record { pages = rest })
]

unfoldable pub push : Page → UnclaimedPages → MemoryResult UnclaimedPages
push page u =
    if leb unclaimed_pages_capacity (length u.pages % u32_mod)
    then err (unclaimed_pages_full unclaimed_pages_capacity)
    else ok (record { pages = u.pages ++ (page ∷ []) })

-- `as_chunks::<4>().0`, each chunk read as a page number.
abbrev pub chunk_pages : List ℕ → List Page
chunk_pages (a ∷ b ∷ c ∷ d ∷ rest) = from_le_bytes (a ∷ b ∷ c ∷ d ∷ []) ∷ chunk_pages rest
chunk_pages _ = []

abbrev pub page_bytes : List Page → List ℕ
page_bytes [] = []
page_bytes (p ∷ ps) = to_le_bytes 4 p ++ page_bytes ps

unfoldable pub encode : UnclaimedPages → List ℕ
encode u = to_le_bytes 4 (length u.pages % u32_mod) ++ page_bytes u.pages

unfoldable pub decode : List ℕ → MemoryResult UnclaimedPages
decode bytes =
    let count = from_le_bytes (slice 0 4 bytes) in
    if ltb (length bytes) 4
    then err (decode_error too_short)
    else if ltb unclaimed_pages_capacity count
    then err (unclaimed_pages_full unclaimed_pages_capacity)
    else if ltb (length bytes) (4 + count * 4)
    then err (decode_error too_short)
    else ok (record { pages = chunk_pages (slice 4 (count * 4) bytes) })

unfoldable pub size : UnclaimedPages → MSize
size u = (4 + length u.pages % u16_mod * 4) % u16_mod

abbrev pub unclaimed_encode : Encode UnclaimedPages
unclaimed_encode = record {
  data_size = dynamic;
  alignment = default_alignment;
  encode = encode;
  decode = decode;
  size = size;
}
