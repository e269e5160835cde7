-- ===== src/Memory/Manager/RoundTrip.antt =====
-- What `write_at` writes, `read_at` reads back.
use wasm_dbms.Prelude.{ℕ, ◌+◌, ◌%◌, ◌-◌, ◌*◌, ◌≤◌, ◌<◌, ◌≡◌, refl, sym, ap, ◌∙◌, arith, le→ltb}
use mathlib.Core.List.{append-nil}
use wasm_dbms.Prelude.{List, [], ◌∷◌, ◌++◌, length, replicate, inl, inr, Bool-cases, length-append}
use wasm_dbms.Prelude.Slices.{slice, slice-add, slice-splice_front, length-slice, length-splice}
use wasm_dbms.Prelude.Result.{ok}
use wasm_dbms.Encode.{Page, PageOffset, Encode, DataSize, fixed, dynamic, IsStorable}
use wasm_dbms.Memory.Provider.{MemoryProvider, IsProvider}
use wasm_dbms.Memory.Manager.{
  write_at, read_at, read_len, check_alignment, round_up, is_unallocated,
}
use wasm_dbms.Memory.Manager.Effects.{
  HasRoom, HasRoom-same, write_at_lem, Writes-write_at, check_alignment-cases,
}
use wasm_dbms.Memory.Manager.Effects.{range_end}
use wasm_dbms.Memory.Manager.Reads.{read_at_raw_lem}

module _ {P : Type 0} {mp : MemoryProvider P} {bytes : P → List ℕ} (L : IsProvider mp bytes) where
  write_at_aligned :
      (D : Type 0) (e : Encode D) (page : Page) (offset : PageOffset) (a : D) (p : P)
      → (write_at mp D e page offset a p).0 ≡ ok tt
      → check_alignment e offset ≡ ok tt
  unfolding write_at
  write_at_aligned D e page offset a p h = elim (check_alignment-cases e offset) [
    | inl on ↦ on
    | inr (x, off) ↦ elim (Bool-cases (is_unallocated mp p page)) [
      | inl u ↦ cc (rw u at h)
      | inr u ↦ cc (rw (u, off) at h)
    ]
  ]

  -- The bytes that `read_at` asks for: those of the encoding, and for a dynamic value the rest of
  -- the page.
  read_len_cases :
      {D : Type 0} (e : Encode D) (a : D) (k : DataSize) (ps offset : ℕ)
      → e.data_size ≡ k
      → IsStorable e a
      → offset + length (e.encode a) ≤ ps
      → (m : ℕ) × (read_len ps k offset ≡ length (e.encode a) + m)
        × (offset + (length (e.encode a) + m) ≤ ps)
        × ((rest : List ℕ) → length rest ≡ m → e.decode (e.encode a ++ rest) ≡ ok a)
  read_len_cases e a (fixed n) ps offset kind s fits =
      let size : n ≡ length (e.encode a) = sym (s.length-encode ∙ s.fixed_size n kind) in
      (0, omega (arith, size), omega arith, decode_empty)
    where
      decode_empty : (rest : List ℕ) → length rest ≡ 0 → e.decode (e.encode a ++ rest) ≡ ok a
      decode_empty [] h = rw append-nil s.decode-encode
      decode_empty (x ∷ rest) h = absurd (omega arith)
  read_len_cases e a dynamic ps offset kind s fits = (
    ps - offset - length (e.encode a),
    omega arith,
    omega arith,
    λ rest _. s.decode-append kind rest,
  )

  module _ {k : ℕ} {p : P} (room : HasRoom mp bytes k p) where
    read_at_written :
        (D : Type 0) (e : Encode D) (page : Page) (offset : PageOffset) (a : D)
        → IsStorable e a
        → (write_at mp D e page offset a p).0 ≡ ok tt
        → (read_at mp D e page offset (write_at mp D e page offset a p).1).0 ≡ ok a
    unfolding read_at
    read_at_written D e page offset a s h =
        elim (Writes-write_at L room D e page offset a s.alignment_pos) [
          | inl ((x, refused), _) ↦ cc
          | inr (page_lt, fits, _, after) ↦
              let n = length (e.encode a) in
              let pad : List ℕ = replicate (round_up e.alignment n - n) 0 in
              let start = page * mp.page_size + offset in
              let q = (write_at mp D e page offset a p).1 in
              let (room', pages) = HasRoom-same L room q (rw (after, length-splice)) in
              let (inside, _) =
                range_end L room page offset (length (e.encode a ++ pad)) page_lt fits in
              let (m, len, fits', decodes) =
                read_len_cases e a e.data_size mp.page_size offset refl s
                  (omega (arith, fits, length-append (e.encode a) pad)) in
              let (got, _) =
                read_at_raw_lem L room' page offset (n + m) (omega (arith, page_lt, pages)) fits' in
              let page_lt' : page < mp.pages q = omega (arith, page_lt, pages) in
              let (inside', _) = range_end L room' page offset (n + m) page_lt' fits' in
              let rest = slice (start + n) m (bytes q) in
              let parts : slice start (n + m) (bytes q) ≡ e.encode a ++ rest =
                slice-add start n m (bytes q)
                ∙ ap (λ t. t ++ rest)
                    (ap (slice start n) after
                      ∙ slice-splice_front start (e.encode a) pad (bytes p) inside) in
              rw
                (
                  write_at_aligned D e page offset a p h,
                  len,
                  got,
                  le→ltb (n + m) (n + m) (omega arith),
                )
                (ap e.decode parts
                  ∙ decodes rest (length-slice (start + n) m (bytes q) (omega (arith, inside'))))
        ]

    -- A storable value whose padded encoding stays in an allocated page, at an aligned offset, is
    -- written without an error, and is read back from there.
    pub read_at-write_at :
        (D : Type 0) (e : Encode D) (page : Page) (offset : PageOffset) (a : D)
        → IsStorable e a
        → offset % e.alignment ≡ 0
        → page < mp.pages p
        → offset + round_up e.alignment (length (e.encode a)) ≤ mp.page_size
        → ((write_at mp D e page offset a p).0 ≡ ok tt)
          × ((read_at mp D e page offset (write_at mp D e page offset a p).1).0 ≡ ok a)
    unfolding check_alignment
    read_at-write_at D e page offset a s aligned page_lt fits =
        let (_, _, done, _) =
          write_at_lem L room D e page offset a s.alignment_pos (ground arith) page_lt fits in
        (done, read_at_written D e page offset a s done)
