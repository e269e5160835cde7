-- ===== src/Registry/Pages/Stored.antt =====
-- The encoding of a page ledger.
use mathlib.Core.List.{append-nil}
use wasm_dbms.Prelude.{
  ℕ, zero, suc, ◌+◌, ◌-◌, ◌*◌, ◌%◌, ◌≤◌, ◌<◌, ◌≡◌, refl, sym, ap, ◌∙◌, arith, All, le→ltb,
}
use wasm_dbms.Prelude.{
  List, [], ◌∷◌, ◌++◌, length, length-append, take, take_all, take-append, inl, inr, ◌⊎◌, none,
  some,
}
use wasm_dbms.Prelude.Bytes.{to_le_bytes, from_le_bytes, from_le_bytes-to_le_bytes}
use wasm_dbms.Prelude.Result.{ok}
use wasm_dbms.Encode.{Page, u16_mod, u32_mod, u64_mod, IsStorable}
use wasm_dbms.Memory.Access.{MemoryAccess}
use wasm_dbms.Registry.Sized.{Reads, Tells, read_sized_lem}
use wasm_dbms.Registry.Pages.{
  PageRecord, encode_record, encode_records, encode_table, decode_records, decode_table,
}
use wasm_dbms.Registry.Pages.{table_size, table_encode, encoded_len, load}

-- The fields are in the range of their types.
abbrev pub IsRecord : PageRecord → Type 0
IsRecord r = (r.page < u32_mod) × (r.free < u64_mod)

-- As many records as their size, a u16, can tell.
pub record IsTable (pages : List PageRecord) : Type 0 where
  pub within : 4 + length pages * 12 < u16_mod
  pub are_records : All IsRecord pages

length-encode_records :
    (pages : List PageRecord) → length (encode_records pages) ≡ length pages * 12
unfolding encode_records encode_record
length-encode_records [] = refl
length-encode_records (r ∷ pages) = omega (arith, length-encode_records pages)

take_tail : (n m : ℕ) (xs : List ℕ) → n ≡ length xs + m → take (n - m) xs ≡ xs
take_tail n m xs h = take_all (n - m) xs (omega arith)

decode_records-encode_records :
    (pages : List PageRecord) (rest : List ℕ)
    → All IsRecord pages
    → decode_records (length pages) (encode_records pages ++ rest) ≡ ok pages
unfolding decode_records encode_records encode_record
decode_records-encode_records [] rest h = refl
decode_records-encode_records (r ∷ pages) rest (h, hs) =
    let tail = encode_records pages ++ rest in
    rw
      (
        take_tail (length (encode_record r ++ tail)) 12 tail (omega arith),
        decode_records-encode_records pages rest hs,
      )
      (cc (from_le_bytes-to_le_bytes 4 r.page h.0, from_le_bytes-to_le_bytes 8 r.free h.1))

decode-encode_append :
    (pages : List PageRecord) (rest : List ℕ)
    → IsTable pages
    → decode_table (encode_table pages ++ rest) ≡ ok pages
unfolding decode_table encode_table
decode-encode_append pages rest h =
    let n = length pages in
    let count : from_le_bytes (to_le_bytes 4 (n % u32_mod)) ≡ n =
      from_le_bytes-to_le_bytes 4 (n % u32_mod) (omega arith) ∙ omega (arith, h.within) in
    let tail = encode_records pages ++ rest in
    rw
      (
        le→ltb (suc (suc (suc (suc (length tail))))) 4 (omega arith),
        count,
        take_tail (suc (suc (suc (suc (length tail))))) 4 tail (omega arith),
      )
      (decode_records-encode_records pages rest h.are_records)

length-encode_table :
    (pages : List PageRecord) → length (encode_table pages) ≡ 4 + length pages * 12
unfolding encode_table
length-encode_table pages = omega (arith, length-encode_records pages)

-- A page ledger whose size a u16 can tell is written with that size, and is read back, with whatever
-- follows it on the page.
pub IsStorable-table : (pages : List PageRecord) → IsTable pages → IsStorable table_encode pages
unfolding encode_table table_size
IsStorable-table pages h = record {
  alignment_pos = omega arith;
  length-encode = omega (arith, length-encode_records pages, h.within);
  fixed_size = λ n e. cc;
  decode-encode =
      ap decode_table (sym (append-nil (encode_table pages))) ∙ decode-encode_append pages [] h;
  decode-append = λ _ rest. decode-encode_append pages rest h;
}

Tells-prefix :
    (pages : List PageRecord) (rest : List ℕ)
    → IsTable pages
    → (k : ℕ)
    → (encoded_len (take k (encode_table pages ++ rest)) ≡ none)
      ⊎ (encoded_len (take k (encode_table pages ++ rest)) ≡ some (4 + length pages * 12))
unfolding encoded_len encode_table
Tells-prefix pages rest h zero = inl refl
Tells-prefix pages rest h (suc zero) = inl refl
Tells-prefix pages rest h (suc (suc zero)) = inl refl
Tells-prefix pages rest h (suc (suc (suc zero))) = inl refl
Tells-prefix pages rest h (suc (suc (suc (suc k)))) =
    let count : from_le_bytes (to_le_bytes 4 (length pages % u32_mod)) ≡ length pages =
      from_le_bytes-to_le_bytes 4 (length pages % u32_mod) (omega arith)
      ∙ omega (arith, h.within) in
    let tail = take k (encode_records pages ++ rest) in
    inr (rw (le→ltb (suc (suc (suc (suc (length tail))))) 4 (omega arith), count) refl)

pub Tells-table :
    (pages : List PageRecord) (rest : List ℕ)
    → IsTable pages
    → Tells encoded_len (encode_table pages ++ rest) (4 + length pages * 12)
unfolding encoded_len encode_table
Tells-table pages rest h =
    let count : from_le_bytes (to_le_bytes 4 (length pages % u32_mod)) ≡ length pages =
      from_le_bytes-to_le_bytes 4 (length pages % u32_mod) (omega arith)
      ∙ omega (arith, h.within) in
    let tail = encode_records pages ++ rest in
    record {
      prefixes = Tells-prefix pages rest h;
      whole = rw (le→ltb (suc (suc (suc (suc (length tail))))) 4 (omega arith), count) refl;
    }

-- Loading a page ledger whose size a u16 can tell gives the pages that were written to its page.
pub load-encode_table :
    {S : Type 0} (mm : MemoryAccess S) (page : Page) (pages : List PageRecord) (rest : List ℕ)
    (s : S)
    → Reads mm page (encode_table pages ++ rest) s
    → IsTable pages
    → load mm page s ≡ (ok (record { ledger_page = page; pages = pages }), s)
unfolding load
load-encode_table mm page pages rest s reads h =
    let n : length (encode_table pages) ≡ 4 + length pages * 12 = length-encode_table pages in
    let fits : 4 + length pages * 12 ≤ mm.page_size =
      omega (arith, reads.length_lem, n, length-append (encode_table pages) rest) in
    let read =
      read_sized_lem mm reads table_encode encoded_len (4 + length pages * 12)
        (Tells-table pages rest h) fits (omega arith) in
    let front : take (4 + length pages * 12) (encode_table pages ++ rest) ≡ encode_table pages =
      rw⁻¹ n (take-append (encode_table pages) rest) in
    rw (read, front, (IsStorable-table pages h).decode-encode, load) refl
