-- ===== src/Memory/Manager/Reads.antt =====
-- What a raw read returns, and what growing by a page does to memory.
use mathlib.Core.List.{append-nil}
use native.Mathlib.Nat.{div-add-mod', add-div_right}
use wasm_dbms.Prelude.{ℕ, suc, ◌+◌, ◌-◌, ◌*◌, ◌/◌, ◌%◌, ◌≤◌, ◌<◌, ◌≡◌, refl, sym, ap, ◌∙◌, arith}
use wasm_dbms.Prelude.{List, ◌++◌, length, replicate, min, some, ◌⊎◌, inl, inr, true}
use wasm_dbms.Prelude.{length-replicate, length-append, drop_all}
use wasm_dbms.Prelude.Slices.{slice, splice, splice_end}
use wasm_dbms.Prelude.Result.{ok, err, panic}
use wasm_dbms.Encode.{
  Page, PageOffset, Encode, MemoryResult, MemoryError, u32_mod, u64_mod, segmentation_fault,
}
use wasm_dbms.Memory.Exec.{Exec, continue, lift, ◌>>=◌}
use wasm_dbms.Memory.Provider.{MemoryProvider, IsProvider}
use wasm_dbms.Memory.Manager.{
  last_page, is_unallocated, absolute_offset, read_at_raw, read_at, read_len,
  check_unallocated_page, grow_one_page,
}
use wasm_dbms.Memory.Manager.Effects.{div_le, HasRoom, range_end, allocated, absolute_offset_lem}

full_read :
    (ps offset n : ℕ) → offset + n ≤ ps → min (ps - offset) (length (replicate {A = ℕ} n 0)) ≡ n
full_read ps offset n h = rw length-replicate (omega arith)

-- `m` changes no byte, whatever it returns.
pub record KeepsBytes {P A : Type 0} (bytes : P → List ℕ) (m : Exec P A) : Type 0 where
  pub at : (p : P) → bytes (m p).1 ≡ bytes p

module _ {P : Type 0} {mp : MemoryProvider P} {bytes : P → List ℕ} (L : IsProvider mp bytes) where
  pub read_at_raw_unallocated :
      (p : P) (page : Page) (offset : PageOffset) (buf : List ℕ)
      → is_unallocated mp p page ≡ true
      → read_at_raw mp page offset buf p
        ≡ (err (segmentation_fault page offset (length buf) mp.page_size), p)
  unfolding read_at_raw
  read_at_raw_unallocated p page offset buf u = rw u

  bytes-continue :
      {A B : Type 0} (r : MemoryResult A) (f : A → Exec P B) (p : P)
      → ((a : A) (q : P) → bytes (f a q).1 ≡ bytes q)
      → bytes (continue r f p).1 ≡ bytes p
  bytes-continue (ok a) f p h = h a p
  bytes-continue (err e) f p h = refl
  bytes-continue panic f p h = refl

  KeepsBytes->>= :
      {A B : Type 0} {m : Exec P A} {f : A → Exec P B}
      → KeepsBytes bytes m
      → ((a : A) → KeepsBytes bytes (f a))
      → KeepsBytes bytes (m >>= f)
  KeepsBytes->>= {m = m} {f = f} hm hf = record {
    at = λ p. bytes-continue (m p).0 f (m p).1 (λ a. (hf a).at) ∙ hm.at p;
  }

  KeepsBytes-lift : {A : Type 0} {r : MemoryResult A} → KeepsBytes bytes (lift {S = P} r)
  KeepsBytes-lift = record { at = λ q. refl }

  KeepsBytes-check_unallocated_page :
      (page : Page) (offset : PageOffset) (n : ℕ)
      → KeepsBytes bytes (check_unallocated_page mp page offset n)
  KeepsBytes-check_unallocated_page page offset n = record { at = λ p. ground arith }

  KeepsBytes-read : (start n : ℕ) → KeepsBytes bytes (mp.read start n)
  KeepsBytes-read start n = record { at = L.bytes-read start n }

  -- A read changes no byte, whatever it returns.
  pub KeepsBytes-read_at_raw :
      (page : Page) (offset : PageOffset) (buf : List ℕ)
      → KeepsBytes bytes (read_at_raw mp page offset buf)
  unfolding read_at_raw
  KeepsBytes-read_at_raw page offset buf =
      KeepsBytes->>= (KeepsBytes-check_unallocated_page page offset (length buf)) λ _.
        KeepsBytes->>= KeepsBytes-lift λ start.
          KeepsBytes->>= (KeepsBytes-read start (min (mp.page_size - offset) (length buf)))
            λ b. KeepsBytes-lift

  pub KeepsBytes-read_at :
      (D : Type 0) (e : Encode D) (page : Page) (offset : PageOffset)
      → KeepsBytes bytes (read_at mp D e page offset)
  unfolding read_at
  KeepsBytes-read_at D e page offset = KeepsBytes->>= KeepsBytes-lift λ _.
      KeepsBytes->>=
        (KeepsBytes-read_at_raw page offset
          (replicate (read_len mp.page_size e.data_size offset) 0))
        λ r. record { at = λ q. ground arith }

  module _ {k : ℕ} {p : P} (room : HasRoom mp bytes k p) where
    -- A read that lies in an allocated page returns its bytes and changes nothing.
    pub read_at_raw_lem :
        (page offset n : ℕ)
        → page < mp.pages p
        → offset + n ≤ mp.page_size
        → ((read_at_raw mp page offset (replicate n 0) p).0
            ≡ ok (n, slice (page * mp.page_size + offset) n (bytes p)))
          × (bytes (read_at_raw mp page offset (replicate n 0) p).1 ≡ bytes p)
    unfolding read_at_raw
    read_at_raw_lem page offset n h fits =
        let start = page * mp.page_size + offset in
        let (le, lt) = range_end L room page offset n h fits in
        let got = L.read_in start n p le lt in
        rw
          (
            allocated L room page h,
            absolute_offset_lem L room page offset h (omega (arith, fits)),
            full_read mp.page_size offset n fits,
            got,
            drop_all n (replicate {A = ℕ} n 0) (omega (arith, length-replicate {A = ℕ} n 0)),
            append-nil,
          )
          (refl, L.bytes-read start n p)

  pub one_more_page : (n d : ℕ) → 0 < d → n % d ≡ 0 → ((n + d) / d ≡ n / d + 1) × (n / d * d ≡ n)
  one_more_page n d pos whole = (add-div_right n pos, omega (arith, div-add-mod' n d, whole))

  -- The last page, after growing by one.
  last_page_grown : (p : P) (n : ℕ) → mp.pages p ≡ n + 1 → n < u32_mod → last_page mp p ≡ some n
  unfolding last_page
  last_page_grown p n e h = rw e (ground arith)

  module _ {k : ℕ} {p : P} (room : HasRoom mp bytes (suc k) p) where
    open room use {length_le, page_size_lt, whole_pages}

    page_start : mp.pages p * mp.page_size ≡ length (bytes p)
    page_start =
        rw L.pages_lem (one_more_page (length (bytes p)) mp.page_size L.page_size_pos whole_pages).1

    length_le' : length (bytes p) + mp.page_size ≤ u32_mod * mp.page_size
    length_le' = grind (arith, room.length_le)

    page_fits : mp.pages p < u32_mod
    page_fits =
        let e : (length (bytes p) + mp.page_size) / mp.page_size ≤ u32_mod =
          div_le _ u32_mod mp.page_size L.page_size_pos length_le' in
        rw L.pages_lem (
          omega
            (arith, e, one_more_page (length (bytes p)) mp.page_size L.page_size_pos whole_pages))

    offset_fits :
        mp.pages p * mp.page_size + 0 + length (replicate {A = ℕ} mp.page_size 0) < u64_mod
    offset_fits =
        omega (arith, page_start, length_le', page_size_lt, length-replicate {A = ℕ} mp.page_size 0)

    start_offset : absolute_offset mp (mp.pages p) 0 ≡ ok (mp.pages p * mp.page_size + 0)
    unfolding absolute_offset
    start_offset = ground (arith, offset_fits)

    grown_length :
        (b : List ℕ)
        → b ≡ bytes p ++ replicate (1 * mp.page_size) 0
        → length b ≡ length (bytes p) + mp.page_size
    grown_length b e =
        rw (e, length-append) (omega (arith, length-replicate {A = ℕ} (1 * mp.page_size) 0))

    grown_pages :
        (q : P) → bytes q ≡ bytes p ++ replicate (1 * mp.page_size) 0 → mp.pages q ≡ mp.pages p + 1
    grown_pages q e =
        L.pages_lem q
        ∙ (rw (grown_length (bytes q) e, L.pages_lem)
            (one_more_page (length (bytes p)) mp.page_size L.page_size_pos whole_pages).0)

    in_bounds :
        {q : P}
        → bytes q ≡ bytes p ++ replicate (1 * mp.page_size) 0
        → mp.pages p * mp.page_size + 0 + length (replicate {A = ℕ} mp.page_size 0)
          ≤ length (bytes q)
    in_bounds {q} e =
        omega (arith, page_start, grown_length (bytes q) e, length-replicate {A = ℕ} mp.page_size 0)

    zeroed :
        {b : List ℕ}
        → b ≡ bytes p ++ replicate (1 * mp.page_size) 0
        → splice (mp.pages p * mp.page_size + 0) (replicate mp.page_size 0) b
          ≡ bytes p ++ replicate mp.page_size 0
    zeroed e =
        let start : mp.pages p * mp.page_size + 0 ≡ length (bytes p) = omega (arith, page_start) in
        rw (e, start)
          (splice_end (bytes p) _ _ (
            omega (
              arith,
              length-replicate {A = ℕ} mp.page_size 0,
              length-replicate {A = ℕ} (1 * mp.page_size) 0,
            )))

    one_page : replicate {A = ℕ} (1 * mp.page_size) 0 ≡ replicate mp.page_size 0
    one_page = ap (λ n. replicate n 0) (omega arith)

    -- Growing by a page fails and changes nothing, or adds one page of zeros behind the others and
    -- returns its number.
    pub grow_one_page_lem :
        (((e : MemoryError) × ((grow_one_page mp p).0 ≡ err e))
          × (bytes (grow_one_page mp p).1 ≡ bytes p))
        ⊎ (((grow_one_page mp p).0 ≡ ok (mp.pages p))
            × (bytes (grow_one_page mp p).1 ≡ bytes p ++ replicate mp.page_size 0))
    unfolding grow_one_page
    grow_one_page_lem = elim (L.grow_cases 1 p) [
      | inl ((e, failed), same) ↦ rw failed (inl ((e, refl), same))
      | inr (done, more) ↦
          let (wrote, after) =
            L.write_in (mp.pages p * mp.page_size + 0) (replicate mp.page_size 0) (mp.grow 1 p).1
              (in_bounds more) offset_fits in
          rw
            (
              done,
              last_page_grown (mp.grow 1 p).1 (mp.pages p) (grown_pages _ more) page_fits,
              start_offset,
              wrote,
              last_page_grown _ (mp.pages p)
                  (grown_pages _ (after ∙ zeroed more ∙ ap (λ t. bytes p ++ t) (sym one_page)))
                  page_fits,
            )
            (inr (refl, after ∙ zeroed more))
    ]
