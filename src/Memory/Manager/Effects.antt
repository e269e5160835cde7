-- ===== src/Memory/Manager/Effects.antt =====
-- What the manager's reads and writes do to the bytes of memory.
use mathlib.Core.List.{append-nil}
use wasm_dbms.Prelude.{zero, suc, ap, ◌∙◌}
use wasm_dbms.Prelude.{ℕ, ◌+◌, ◌-◌, ◌*◌, ◌/◌, ◌%◌, ◌≤◌, ◌<◌, ◌≡◌, refl, arith, Bool-cases}
use wasm_dbms.Prelude.{List, ◌++◌, length, replicate, ◌⊎◌, inl, inr, false}
use wasm_dbms.Prelude.{length-replicate, length-append, ltb, ltb→le, lt→ltb, le→ltb}
use wasm_dbms.Prelude.Slices.{splice, length-splice, splice-splice}
use native.Mathlib.Nat.{div-add-mod, mod-lt}
use wasm_dbms.Encode.{Page, PageOffset, MemoryError, MemoryResult, u32_mod, u64_mod}
use wasm_dbms.Memory.Provider.{MemoryProvider, IsProvider}
use wasm_dbms.Encode.{Encode}
use wasm_dbms.Memory.Manager
use wasm_dbms.Memory.Manager.{align_up, round_up, check_alignment, write_padding, grow_one_page}
use wasm_dbms.Memory.Manager.{is_unallocated, absolute_offset, write_within}
use wasm_dbms.Memory.Manager.{write_at_raw, zero_raw, zero_page, write_at, read_at_raw}
use wasm_dbms.Prelude.Result.{ok, err}
use wasm_dbms.Memory.Exec.{◌>>◌}

pub page_end_le : (page n d : ℕ) → page < n / d → (page + 1) * d ≤ n
page_end_le page n d h = grind (arith, div-add-mod n d)

pub div_le : (n k d : ℕ) → 0 < d → n ≤ k * d → n / d ≤ k
div_le n k d h p = grind (arith, div-add-mod n d)

pub le-round_up : (a n : ℕ) → 0 < a → n ≤ round_up a n
le-round_up a n h = grind (arith, div-add-mod (n + a - 1) a, mod-lt (n + a - 1) h)

pub align_up_lem : (a n : ℕ) → 0 < a → align_up a n ≡ ok (round_up a n)
unfolding align_up
align_up_lem a n h = ground arith

pub check_alignment-cases :
    {D : Type 0} (e : Encode D) (offset : ℕ)
    → (check_alignment e offset ≡ ok tt) ⊎ ((x : MemoryError) × (check_alignment e offset ≡ err x))
unfolding check_alignment
check_alignment-cases e offset = ground arith

module _ {P : Type 0} (mp : MemoryProvider P) (bytes : P → List ℕ) where
  -- Whole pages, and room for `k` more: page numbers are a u32 and offsets in memory a u64.
  pub record HasRoom (k : ℕ) (p : P) : Type 0 where
    pub page_size_lt : mp.page_size < u32_mod
    pub whole_pages : length (bytes p) % mp.page_size ≡ 0
    pub length_le : length (bytes p) + k * mp.page_size ≤ u32_mod * mp.page_size

  -- A write of `buf` from `offset` of `page` on lies in an allocated page and is the only change.
  abbrev pub Written : Page → PageOffset → List ℕ → P → MemoryResult (Unit {0}) × P → Type 0
  Written page offset buf p r =
      (page < mp.pages p)
      × (offset + length buf ≤ mp.page_size)
      × (r.0 ≡ ok tt)
      × (bytes r.1 ≡ splice (page * mp.page_size + offset) buf (bytes p))

  -- A write has been refused and nothing has changed, or it has been done.
  abbrev pub Writes : Page → PageOffset → List ℕ → P → MemoryResult (Unit {0}) × P → Type 0
  Writes page offset buf p r =
      (((e : MemoryError) × (r.0 ≡ err e)) × (bytes r.1 ≡ bytes p)) ⊎ Written page offset buf p r

write_padding-suc :
    {P : Type 0} (mp : MemoryProvider P) (start n : ℕ)
    → write_padding mp start (suc n) ≡ mp.write start (replicate (suc n) 0)
unfolding write_padding
write_padding-suc mp start n = rw (lt→ltb 0 (suc n) (omega arith))

module _ {P : Type 0} {mp : MemoryProvider P} {bytes : P → List ℕ} (L : IsProvider mp bytes) where
  pub allocated_lt : (p : P) (page : Page) → is_unallocated mp p page ≡ false → page < mp.pages p
  unfolding is_unallocated
  allocated_lt p page h = ground arith

  lt_allocated :
      (p : P) (page : Page)
      → mp.pages p ≤ u32_mod
      → page < mp.pages p
      → is_unallocated mp p page ≡ false
  unfolding is_unallocated
  lt_allocated p page fits h = ground arith

  module _ {k : ℕ} {p : P} (room : HasRoom mp bytes k p) where
    pages_le : mp.pages p ≤ u32_mod
    pages_le = rw L.pages_lem (
        div_le (length (bytes p)) u32_mod mp.page_size L.page_size_pos
          (omega (arith, room.length_le)))

    pub range_end :
        (page offset n : ℕ)
        → page < mp.pages p
        → offset + n ≤ mp.page_size
        → (page * mp.page_size + offset + n ≤ length (bytes p))
          × (page * mp.page_size + offset + n < u64_mod)
    range_end page offset n h fits =
        let e : (page + 1) * mp.page_size ≤ length (bytes p) =
          page_end_le page (length (bytes p)) mp.page_size (rw L.pages_lem at h) in
        (omega (arith, e), omega (arith, e, room.length_le, room.page_size_lt))

    pub allocated : (page : Page) → page < mp.pages p → is_unallocated mp p page ≡ false
    allocated page h = lt_allocated p page pages_le h

    pub absolute_offset_lem :
        (page offset : ℕ)
        → page < mp.pages p
        → offset ≤ mp.page_size
        → absolute_offset mp page offset ≡ ok (page * mp.page_size + offset)
    unfolding absolute_offset
    absolute_offset_lem page offset h fits = ground (arith, range_end page offset 0 h (omega arith))

    Writes-write :
        (page offset : ℕ) (buf : List ℕ)
        → page < mp.pages p
        → offset + length buf ≤ mp.page_size
        → Writes mp bytes page offset buf p (mp.write (page * mp.page_size + offset) buf p)
    Writes-write page offset buf h fits =
        let (le, lt) = range_end page offset (length buf) h fits in
        let (done, after) = L.write_in (page * mp.page_size + offset) buf p le lt in
        inr (h, fits, done, after)

    Writes-write_within :
        (page offset n : ℕ) (e : MemoryError) (buf : List ℕ)
        → page < mp.pages p
        → length buf ≡ n
        → Writes mp bytes page offset buf p (write_within mp page offset n e buf p)
    Writes-write_within page offset n e buf h len =
        elim (Bool-cases (ltb mp.page_size (offset + n))) [
          | inl big ↦ rw big (inl ((_, refl), refl))
          | inr small ↦
              let fits : offset + length buf ≤ mp.page_size = omega (arith, ltb→le _ _ small) in
              rw (small, absolute_offset_lem page offset h (omega (arith, fits)))
                (Writes-write page offset buf h fits)
        ]

    pub Writes-write_at_raw :
        (page offset : ℕ) (buf : List ℕ)
        → Writes mp bytes page offset buf p (write_at_raw mp page offset buf p)
    unfolding write_at_raw
    Writes-write_at_raw page offset buf = elim (Bool-cases (is_unallocated mp p page)) [
      | inl u ↦ rw u (inl ((_, refl), refl))
      | inr u ↦ rw u (Writes-write_within page offset _ _ buf (allocated_lt p page u) refl)
    ]

    pub Writes-zero_raw :
        (page offset len : ℕ)
        → Writes mp bytes page offset (replicate len 0) p (zero_raw mp page offset len p)
    unfolding zero_raw
    Writes-zero_raw page offset len = elim (Bool-cases (is_unallocated mp p page)) [
      | inl u ↦ rw u (inl ((_, refl), refl))
      | inr u ↦
          rw u (
            Writes-write_within page offset len _ _ (allocated_lt p page u)
              (length-replicate len 0))
    ]

    pub Writes-zero_page :
        (page : ℕ) → Writes mp bytes page 0 (replicate mp.page_size 0) p (zero_page mp page p)
    unfolding zero_page
    Writes-zero_page page = elim (Bool-cases (is_unallocated mp p page)) [
      | inl u ↦ rw u (inl ((_, refl), refl))
      | inr u ↦
          let h : page < mp.pages p = allocated_lt p page u in
          rw (u, absolute_offset_lem page 0 h (omega arith))
            (Writes-write page 0 _ h (omega (arith, length-replicate {A = ℕ} mp.page_size 0)))
    ]

    -- Two writes, of the encoding and then of zeros, are one of the padded encoding.
    Written-write_padding :
        (page offset n : ℕ) (buf : List ℕ)
        → page < mp.pages p
        → offset + (length buf + n) ≤ mp.page_size
        → Written mp bytes page offset (buf ++ replicate n 0) p (
            (mp.write (page * mp.page_size + offset) buf
                >> write_padding mp (page * mp.page_size + offset + length buf) n)
              p)
    unfolding write_padding
    Written-write_padding page offset zero buf h fits =
        let (le, lt) = range_end page offset (length buf) h (omega arith) in
        let (done, after) = L.write_in (page * mp.page_size + offset) buf p le lt in
        rw (append-nil, done) (h, omega arith, refl, after)
    Written-write_padding page offset (suc n) buf h fits =
        let start = page * mp.page_size + offset in
        let zeros : List ℕ = replicate (suc n) 0 in
        let len : length zeros ≡ suc n = length-replicate (suc n) 0 in
        let (le, lt) = range_end page offset (length buf + suc n) h fits in
        let (done, after) = L.write_in start buf p (omega (arith, le)) (omega (arith, lt)) in
        let p1 = (mp.write start buf p).1 in
        let same : length (bytes p1) ≡ length (bytes p) =
          ap length after ∙ length-splice start buf (bytes p) in
        let (done2, after2) =
          L.write_in (start + length buf) zeros p1 (omega (arith, le, len, same))
            (omega (arith, lt, len)) in
        rw (done, write_padding-suc mp (start + length buf) n)
          (
            h,
            rw length-append (omega (arith, fits, len)),
            done2,
            after2
                ∙ ap (splice (start + length buf) zeros) after
                ∙ splice-splice start buf zeros (bytes p),
          )

    pub Writes-write_at :
        (D : Type 0) (e : Encode D) (page offset : ℕ) (a : D)
        → 0 < e.alignment
        → Writes mp bytes page offset
            (e.encode a
              ++ replicate (round_up e.alignment (length (e.encode a)) - length (e.encode a)) 0)
            p
            (write_at mp D e page offset a p)
    unfolding write_at
    Writes-write_at D e page offset a pos = elim (Bool-cases (is_unallocated mp p page)) [
      | inl u ↦ rw u (inl ((_, refl), refl))
      | inr u ↦ elim (check_alignment-cases e offset) [
        | inr (x, off) ↦ rw (u, off) (inl ((_, refl), refl))
        | inl on ↦
            let n = length (e.encode a) in
            elim (Bool-cases (ltb mp.page_size (offset + round_up e.alignment n))) [
              | inl big ↦ rw (u, on, align_up_lem e.alignment n pos, big) (inl ((_, refl), refl))
              | inr small ↦
                  let fits : offset + (n + (round_up e.alignment n - n)) ≤ mp.page_size =
                    omega (arith, ltb→le _ _ small, le-round_up e.alignment n pos) in
                  let h : page < mp.pages p = allocated_lt p page u in
                  rw
                    (
                      u,
                      on,
                      align_up_lem e.alignment n pos,
                      small,
                      absolute_offset_lem page offset h (omega (arith, fits)),
                    )
                    (inr (Written-write_padding page offset _ (e.encode a) h fits))
            ]
      ]
    ]

    -- An aligned write that stays with its padding in an allocated page is done.
    pub write_at_lem :
        (D : Type 0) (e : Encode D) (page offset : ℕ) (a : D)
        → 0 < e.alignment
        → check_alignment e offset ≡ ok tt
        → page < mp.pages p
        → offset + round_up e.alignment (length (e.encode a)) ≤ mp.page_size
        → Written mp bytes page offset
            (e.encode a
              ++ replicate (round_up e.alignment (length (e.encode a)) - length (e.encode a)) 0)
            p
            (write_at mp D e page offset a p)
    unfolding write_at
    write_at_lem D e page offset a pos on h inside =
        let n = length (e.encode a) in
        let fits : offset + (n + (round_up e.alignment n - n)) ≤ mp.page_size =
          omega (arith, le-round_up e.alignment n pos) in
        rw
          (
            allocated page h,
            on,
            align_up_lem e.alignment n pos,
            le→ltb mp.page_size _ inside,
            absolute_offset_lem page offset h (omega (arith, fits)),
          )
          (Written-write_padding page offset _ (e.encode a) h fits)

    pub Writes-zero :
        (D : Type 0) (e : Encode D) (page offset : ℕ) (a : D)
        → 0 < e.alignment
        → Writes mp bytes page offset
            (replicate (round_up e.alignment (e.size a)) 0)
            p
            (Manager.zero mp D e page offset a p)
    unfolding Manager.zero
    Writes-zero D e page offset a pos = elim (Bool-cases (is_unallocated mp p page)) [
      | inl u ↦ rw u (inl ((_, refl), refl))
      | inr u ↦ elim (check_alignment-cases e offset) [
        | inr (x, off) ↦ rw (u, off) (inl ((_, refl), refl))
        | inl on ↦
            rw (u, on, align_up_lem e.alignment (e.size a) pos)
              (Writes-write_within page offset _ _ _ (allocated_lt p page u) (length-replicate _ 0))
      ]
    ]

    -- A write in an allocated page is done.
    pub write_at_raw_lem :
        (page offset : ℕ) (buf : List ℕ)
        → page < mp.pages p
        → offset + length buf ≤ mp.page_size
        → ((write_at_raw mp page offset buf p).0 ≡ ok tt)
          × (bytes (write_at_raw mp page offset buf p).1
              ≡ splice (page * mp.page_size + offset) buf (bytes p))
    unfolding write_at_raw
    write_at_raw_lem page offset buf h fits =
        let (le, lt) = range_end page offset (length buf) h fits in
        rw
          (
            allocated page h,
            le→ltb mp.page_size _ fits,
            absolute_offset_lem page offset h (omega (arith, fits)),
          )
          (L.write_in (page * mp.page_size + offset) buf p le lt)

    -- What keeps the length of memory keeps its pages and its room.
    pub HasRoom-same :
        (q : P)
        → length (bytes q) ≡ length (bytes p)
        → HasRoom mp bytes k q × (mp.pages q ≡ mp.pages p)
    HasRoom-same q e = (
      record {
        page_size_lt = room.page_size_lt;
        whole_pages = rw e room.whole_pages;
        length_le = rw e room.length_le;
      },
      rw (L.pages_lem, L.pages_lem, e),
    )
