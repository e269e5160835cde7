-- ===== src/Segments/Ledger/Stored.antt =====
-- The encoding of the list of the tables' pages.
use mathlib.Core.List.{append-nil}
use wasm_dbms.Prelude.{
  ℕ, zero, suc, ◌+◌, ◌-◌, ◌*◌, ◌%◌, ◌≤◌, ◌<◌, ◌≡◌, ◌⊎◌, refl, sym, ap, ◌∙◌, arith, All, le→ltb,
}
use wasm_dbms.Prelude.{
  List, [], ◌∷◌, ◌++◌, length, length-append, take, take_all, take-append, inl, inr, none, some,
}
use wasm_dbms.Prelude.Bytes.{to_le_bytes, from_le_bytes, from_le_bytes-to_le_bytes}
use wasm_dbms.Prelude.Result.{ok}
use wasm_dbms.Encode.{Page, u16_mod, u32_mod, IsStorable}
use wasm_dbms.Memory.Access.{MemoryAccess}
use wasm_dbms.Registry.Sized.{Reads, Tells, read_sized_lem}
use wasm_dbms.Segments.Ledger.{
  encode_pages, encode_table, decode_pages, decode_table, table_size, pages_encode, encoded_len,
  load,
}

-- As many pages, each a u32, as their size, a u16, can tell.
pub record IsPages (pages : List Page) : Type 0 where
  pub within : 2 + length pages * 4 < u16_mod
  pub are_pages : All (λ p. p < u32_mod) pages

length-encode_pages : (pages : List Page) → length (encode_pages pages) ≡ length pages * 4
unfolding encode_pages
length-encode_pages [] = refl
length-encode_pages (p ∷ pages) = omega (arith, length-encode_pages pages)

length-encode_table : (pages : List Page) → length (encode_table pages) ≡ 2 + length pages * 4
unfolding encode_table
length-encode_table pages = omega (arith, length-encode_pages pages)

take_tail : (n m : ℕ) (xs : List ℕ) → n ≡ length xs + m → take (n - m) xs ≡ xs
take_tail n m xs h = take_all (n - m) xs (omega arith)

decode_pages-encode_pages :
    (pages : List Page) (rest : List ℕ)
    → All (λ p. p < u32_mod) pages
    → decode_pages (length pages) (encode_pages pages ++ rest) ≡ ok pages
unfolding decode_pages encode_pages
decode_pages-encode_pages [] rest h = refl
decode_pages-encode_pages (p ∷ pages) rest (h, hs) =
    let tail = encode_pages pages ++ rest in
    let long : suc (suc (suc (suc (length tail)))) ≡ length tail + 4 = omega arith in
    rw
      (
        le→ltb (suc (suc (suc (suc (length tail))))) 4 (omega arith),
        take_tail (suc (suc (suc (suc (length tail))))) 4 tail long,
        decode_pages-encode_pages pages rest hs,
      )
      (cc (from_le_bytes-to_le_bytes 4 p h))

decode-encode_append :
    (pages : List Page) (rest : List ℕ)
    → IsPages pages
    → decode_table (encode_table pages ++ rest) ≡ ok pages
unfolding decode_table encode_table
decode-encode_append pages rest h =
    let n = length pages in
    let count : from_le_bytes (to_le_bytes 2 (n % u16_mod)) ≡ n =
      from_le_bytes-to_le_bytes 2 (n % u16_mod) (omega arith) ∙ omega (arith, h.within) in
    let tail = encode_pages pages ++ rest in
    rw
      (
        le→ltb (suc (suc (length tail))) 2 (omega arith),
        count,
        take_tail (suc (suc (length tail))) 2 tail (omega arith),
      )
      (decode_pages-encode_pages pages rest h.are_pages)

-- A list of pages whose size a u16 can tell is written with that size, and is read back, with whatever
-- follows it on the page.
pub IsStorable-pages : (pages : List Page) → IsPages pages → IsStorable pages_encode pages
unfolding encode_table table_size
IsStorable-pages pages h = record {
  alignment_pos = omega arith;
  length-encode = omega (arith, length-encode_pages pages, h.within);
  fixed_size = λ n e. cc;
  decode-encode =
      ap decode_table (sym (append-nil (encode_table pages))) ∙ decode-encode_append pages [] h;
  decode-append = λ _ rest. decode-encode_append pages rest h;
}

Tells-prefix :
    (pages : List Page) (rest : List ℕ)
    → IsPages pages
    → (k : ℕ)
    → (encoded_len (take k (encode_table pages ++ rest)) ≡ none)
      ⊎ (encoded_len (take k (encode_table pages ++ rest)) ≡ some (2 + length pages * 4))
unfolding encoded_len encode_table
Tells-prefix pages rest h zero = inl refl
Tells-prefix pages rest h (suc zero) = inl refl
Tells-prefix pages rest h (suc (suc k)) =
    let count : from_le_bytes (to_le_bytes 2 (length pages % u16_mod)) ≡ length pages =
      from_le_bytes-to_le_bytes 2 (length pages % u16_mod) (omega arith)
      ∙ omega (arith, h.within) in
    let tail = take k (encode_pages pages ++ rest) in
    inr (rw (le→ltb (suc (suc (length tail))) 2 (omega arith), count) refl)

Tells-pages :
    (pages : List Page) (rest : List ℕ)
    → IsPages pages
    → Tells encoded_len (encode_table pages ++ rest) (2 + length pages * 4)
unfolding encoded_len encode_table
Tells-pages pages rest h =
    let count : from_le_bytes (to_le_bytes 2 (length pages % u16_mod)) ≡ length pages =
      from_le_bytes-to_le_bytes 2 (length pages % u16_mod) (omega arith)
      ∙ omega (arith, h.within) in
    let tail = encode_pages pages ++ rest in
    record {
      prefixes = Tells-prefix pages rest h;
      whole = rw (le→ltb (suc (suc (length tail))) 2 (omega arith), count) refl;
    }

-- Loading the ledger whose size a u16 can tell gives the pages of the tables that were written to its
-- page.
pub load-pages_encode :
    {S : Type 0} (mm : MemoryAccess S) (page : Page) (pages : List Page) (rest : List ℕ) (s : S)
    → Reads mm page (encode_table pages ++ rest) s
    → IsPages pages
    → load mm page s ≡ (ok (record { free_segments_page = page; tables = pages }), s)
unfolding load
load-pages_encode mm page pages rest s reads h =
    let n : length (encode_table pages) ≡ 2 + length pages * 4 = length-encode_table pages in
    let fits : 2 + length pages * 4 ≤ mm.page_size =
      omega (arith, reads.length_lem, n, length-append (encode_table pages) rest) in
    let read =
      read_sized_lem mm reads pages_encode encoded_len (2 + length pages * 4)
        (Tells-pages pages rest h) fits (omega arith) in
    let front : take (2 + length pages * 4) (encode_table pages ++ rest) ≡ encode_table pages =
      rw⁻¹ n (take-append (encode_table pages) rest) in
    rw (read, front, (IsStorable-pages pages h).decode-encode, load) refl
