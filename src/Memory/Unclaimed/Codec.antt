-- ===== src/Memory/Unclaimed/Codec.antt =====
-- The unclaimed-pages ledger: its stack discipline, and its encoding.
use mathlib.Core.List.{append-nil}
use wasm_dbms.Prelude.{ℕ, suc, ◌+◌, ◌*◌, ◌%◌, ◌≤◌, ◌<◌, ◌≡◌, refl, sym, ap, ◌∙◌, arith, All}
use wasm_dbms.Prelude.{◌⊎◌, inl, inr, Bool-cases, leb, All-append, le→ltb}
use wasm_dbms.Prelude.{List, [], ◌∷◌, ◌++◌, length, some, length-append, take, take-append}
use wasm_dbms.Prelude.Bytes.{to_le_bytes, from_le_bytes, from_le_bytes-to_le_bytes}
use wasm_dbms.Prelude.Result.{ok, err}
use wasm_dbms.Encode.{Page, u32_mod, IsStorable, unclaimed_pages_full}
use wasm_dbms.Memory.Unclaimed.{UnclaimedPages, unclaimed_pages_capacity, pop_last, pop, push}
use wasm_dbms.Memory.Unclaimed.{chunk_pages, page_bytes, encode, decode, size, unclaimed_encode}

abbrev pub IsPage : Page → Type 0
IsPage p = p < u32_mod

-- At most as many entries as fit the reserved page, each a u32.
pub record IsLedger (u : UnclaimedPages) : Type 0 where
  pub within : length u.pages ≤ unclaimed_pages_capacity
  pub are_pages : All IsPage u.pages

pop_last-append {ℓ} : {A : Type ℓ} (xs : List A) (x : A) → pop_last (xs ++ (x ∷ [])) ≡ some (x, xs)
pop_last-append [] x = refl
pop_last-append (y ∷ []) x = refl
pop_last-append (y ∷ z ∷ xs) x = rw (pop_last-append (z ∷ xs) x)

-- A push that is accepted is undone by the next pop, and the ledger still fits its page; it is
-- refused exactly when the ledger holds `unclaimed_pages_capacity` pages.
pub push_cases :
    (page : Page) (u : UnclaimedPages)
    → IsLedger u
    → IsPage page
    → ((push page u ≡ err (unclaimed_pages_full unclaimed_pages_capacity))
        × (length u.pages ≡ unclaimed_pages_capacity))
      ⊎ ((u' : UnclaimedPages) × (push page u ≡ ok u') × (pop u' ≡ some (page, u)) × IsLedger u')
unfolding push pop
push_cases page u h p =
    elim (Bool-cases (leb unclaimed_pages_capacity (length u.pages % u32_mod))) [
      | inl full ↦ inl (rw full, ground (arith, h.within))
      | inr room ↦ inr (
        record { pages = u.pages ++ (page ∷ []) },
        rw room,
        rw (pop_last-append u.pages page, pop),
        record {
          within = rw length-append (ground (arith, h.within));
          are_pages = All-append IsPage u.pages (page ∷ []) h.are_pages (p, tt);
        },
      )
    ]

length-page_bytes : (ps : List Page) → length (page_bytes ps) ≡ length ps * 4
length-page_bytes [] = refl
length-page_bytes (p ∷ ps) = omega (arith, length-page_bytes ps)

chunk_pages-page_bytes : (ps : List Page) → All IsPage ps → chunk_pages (page_bytes ps) ≡ ps
chunk_pages-page_bytes [] h = refl
chunk_pages-page_bytes (p ∷ ps) (h, hs) =
    cc (from_le_bytes-to_le_bytes 4 p h, chunk_pages-page_bytes ps hs)

take-page_bytes :
    (ps : List Page) (rest : List ℕ) → take (length ps * 4) (page_bytes ps ++ rest) ≡ page_bytes ps
take-page_bytes ps rest = rw (← length-page_bytes ps) (take-append (page_bytes ps) rest)

decode-encode_append :
    (u : UnclaimedPages) (rest : List ℕ) → IsLedger u → decode (encode u ++ rest) ≡ ok u
unfolding decode encode
decode-encode_append u rest h =
    let n = length u.pages in
    let count : from_le_bytes (to_le_bytes 4 (n % u32_mod)) ≡ n =
      from_le_bytes-to_le_bytes 4 (n % u32_mod) (omega arith) ∙ omega (arith, h.within) in
    let long : length (page_bytes u.pages ++ rest) ≡ n * 4 + length rest =
      length-append (page_bytes u.pages) rest ∙ omega (arith, length-page_bytes u.pages) in
    rw
      (
        count,
        le→ltb (suc (suc (suc (suc (length (page_bytes u.pages ++ rest)))))) 4 (omega arith),
        le→ltb unclaimed_pages_capacity n h.within,
        le→ltb (suc (suc (suc (suc (length (page_bytes u.pages ++ rest)))))) (4 + n * 4)
            (omega (arith, long)),
        take-page_bytes,
        chunk_pages-page_bytes u.pages h.are_pages,
      )
      refl

-- A ledger that fits its page is written with the size that it states, and is read back, with
-- whatever follows it on the page.
pub IsStorable-ledger : (u : UnclaimedPages) → IsLedger u → IsStorable unclaimed_encode u
unfolding encode size
IsStorable-ledger u h = record {
  alignment_pos = omega arith;
  length-encode = omega (arith, length-page_bytes u.pages, h.within);
  fixed_size = λ n e. cc;
  decode-encode = ap decode (sym (append-nil (encode u))) ∙ decode-encode_append u [] h;
  decode-append = λ _ rest. decode-encode_append u rest h;
}
