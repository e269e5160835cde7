-- ===== src/Registry/Sized.antt =====
-- table_registry/sized_read.rs: reading a value at the start of a page with the bytes that it spans.
use wasm_dbms.Prelude.{
  ℕ, zero, suc, ◌+◌, ◌-◌, ◌*◌, ◌≤◌, ◌<◌, ◌≡◌, ◌⊎◌, refl, ap, ◌∙◌, arith, List, [], ◌∷◌, ◌++◌, true,
  false, Option, none, some,
}
use wasm_dbms.Prelude.{
  ltb, leb, if◌then◌else◌, length, take, replicate, min, length-take, length-append,
  length-replicate, ltb→le, ltb→lt, take_all, Bool-cases, inl, inr,
}
use wasm_dbms.Prelude.Result.{ok, err, panic}
use wasm_dbms.Encode.{Page, Encode, decode_error, too_short, MemoryResult}
use wasm_dbms.Memory.Exec.{Exec, lift, ◌>>=◌}
use wasm_dbms.Memory.Access.{MemoryAccess}

abbrev pub initial_read_size : ℕ
initial_read_size = 1024

-- `Vec::resize(n, 0)`
abbrev pub resize : ℕ → List ℕ → List ℕ
resize n buf = take n buf ++ replicate (n - length buf) 0

-- What the loop does after a read: it ends with an answer, or reads into a longer buffer.
pub data Next (D : Type 0) : Type 0 where
  done : MemoryResult D → Next D
  again : List ℕ → Next D

module _ {S : Type 0} (mm : MemoryAccess S) where
  unfoldable pub next_read : {D : Type 0} → Encode D → (List ℕ → Option ℕ) → List ℕ → Next D
  next_read e encoded_len buf = elim (encoded_len buf) [
    | some len ↦
        if leb len (length buf)
        then done (e.decode (take len buf))
        else if leb len mm.page_size
        then again (resize len buf)
        else done (err (decode_error too_short))
    | none ↦
        if ltb (length buf) mm.page_size
        then again (resize (min (length buf * 4) mm.page_size) buf)
        else done (err (decode_error too_short))
  ]

  -- The loop; the buffer grows with each turn, so `fuel` above the page's size is enough.
  unfoldable pub read_loop :
      {D : Type 0} → ℕ → Encode D → Page → (List ℕ → Option ℕ) → List ℕ → Exec S D
  unfolding next_read
  read_loop zero e page encoded_len buf = lift panic
  read_loop (suc fuel) e page encoded_len buf = do
    (_, bytes) ← mm.read_at_raw page 0 buf
    elim (next_read e encoded_len bytes) [
      | done answer ↦ lift answer
      | again larger ↦ read_loop fuel e page encoded_len larger
    ]

  unfoldable pub read_sized : {D : Type 0} → Encode D → Page → (List ℕ → Option ℕ) → Exec S D
  unfolding read_loop
  read_sized e page encoded_len =
      read_loop (mm.page_size + 1) e page encoded_len
        (replicate (min initial_read_size mm.page_size) 0)

length-resize : (n : ℕ) (buf : List ℕ) → length (resize n buf) ≡ n
length-resize n buf = omega (
  arith,
  length-append (take n buf) (replicate (n - length buf) 0),
  length-take n buf,
  length-replicate {A = ℕ} (n - length buf) 0,
)

take-take {ℓ} : {A : Type ℓ} (n k : ℕ) (xs : List A) → n ≤ k → take n (take k xs) ≡ take n xs
take-take zero k xs h = refl
take-take (suc n) zero xs h = absurd (omega arith)
take-take (suc n) (suc k) [] h = refl
take-take (suc n) (suc k) (x ∷ xs) h = ap (◌∷◌ x) (take-take n k xs (omega arith))

leb→le : (a b : ℕ) → leb a b ≡ true → a ≤ b
leb→le a b h = ground arith

leb→lt : (a b : ℕ) → leb a b ≡ false → b < a
leb→lt a b h = ground arith

le→leb : (a b : ℕ) → a ≤ b → leb a b ≡ true
le→leb a b h = ground arith

-- Of the bytes of a page, the length of the value is `len`, and no prefix says otherwise.
pub record Tells (encoded_len : List ℕ → Option ℕ) (content : List ℕ) (len : ℕ) : Type 0 where
  pub prefixes :
      (k : ℕ) → (encoded_len (take k content) ≡ none) ⊎ (encoded_len (take k content) ≡ some len)
  pub whole : encoded_len content ≡ some len

module _ {S : Type 0} (mm : MemoryAccess S) where
  -- In state `s`, the page's bytes are `content`.
  pub record Reads (page : Page) (content : List ℕ) (s : S) : Type 0 where
    pub length_lem : length content ≡ mm.page_size
    pub read_lem :
        (buf : List ℕ)
        → length buf ≤ mm.page_size
        → mm.read_at_raw page 0 buf s ≡ (ok (length buf, take (length buf) content), s)

  module _ {page : Page} {content : List ℕ} {s : S} (reads : Reads page content s) where
    turn :
        {D : Type 0} (fuel : ℕ) (e : Encode D) (encoded_len : List ℕ → Option ℕ) (buf : List ℕ)
        → length buf ≤ mm.page_size
        → read_loop mm (suc fuel) e page encoded_len buf s
          ≡ (elim (next_read mm e encoded_len (take (length buf) content)) as (λ _. Exec S D) [
            | done answer ↦ lift answer
            | again larger ↦ read_loop mm fuel e page encoded_len larger
          ])
              s
    unfolding read_loop
    turn fuel e encoded_len buf within = rw (reads.read_lem buf within, read_loop) refl

    read_loop_lem :
        {D : Type 0} (fuel : ℕ) (e : Encode D) (encoded_len : List ℕ → Option ℕ) (len : ℕ)
        (buf : List ℕ)
        → Tells encoded_len content len
        → len ≤ mm.page_size
        → 0 < length buf
        → length buf ≤ mm.page_size
        → mm.page_size < fuel + length buf
        → read_loop mm fuel e page encoded_len buf s ≡ (e.decode (take len content), s)
    unfolding read_loop next_read
    read_loop_lem zero e encoded_len len buf tells fits pos within enough = absurd (omega arith)
    read_loop_lem (suc fuel) e encoded_len len buf tells fits pos within enough =
        let k = length buf in
        let got : length (take k content) ≡ k =
          omega (arith, length-take k content, reads.length_lem) in
        elim (tells.prefixes k) [
          | inl short ↦ elim (Bool-cases (ltb k mm.page_size)) [
            | inl more ↦
                let larger =
                  take (min (k * 4) mm.page_size) (take k content)
                  ++ replicate {A = ℕ} ((min (k * 4) mm.page_size) - k) 0 in
                let n : length larger ≡ min (k * 4) mm.page_size =
                  rw got at (length-resize (min (k * 4) mm.page_size) (take k content)) in
                let lt = ltb→lt k mm.page_size more in
                turn fuel e encoded_len buf within
                ∙ rw (short, got, more, next_read)
                    (read_loop_lem fuel e encoded_len len larger tells fits (omega (arith, n))
                      (omega (arith, n)) (omega (arith, n, lt)))
            | inr all ↦
                let all' : take k content ≡ content =
                  take_all k content (omega (arith, reads.length_lem, ltb→le k mm.page_size all)) in
                cc (short, all', tells.whole)
          ]
          | inr known ↦ elim (Bool-cases (leb len k)) [
            | inl here ↦
                turn fuel e encoded_len buf within
                ∙ rw (known, got, here, take-take len k content (leb→le len k here), next_read) refl
            | inr more ↦
                let larger = take len (take k content) ++ replicate {A = ℕ} (len - k) 0 in
                let n : length larger ≡ len = rw got at (length-resize len (take k content)) in
                let lt : k < len = leb→lt len k more in
                let fits' : leb len mm.page_size ≡ true = le→leb len mm.page_size fits in
                turn fuel e encoded_len buf within
                ∙ rw (known, got, more, fits', next_read)
                    (read_loop_lem fuel e encoded_len len larger tells fits (omega (arith, n))
                      (omega (arith, n)) (omega (arith, n, lt)))
          ]
        ]

    -- A value at the start of a page that is not empty is read from exactly the bytes that it spans,
    -- within the fuel, when its length is told by each prefix that is long enough and fits the page.
    pub read_sized_lem :
        {D : Type 0} (e : Encode D) (encoded_len : List ℕ → Option ℕ) (len : ℕ)
        → Tells encoded_len content len
        → len ≤ mm.page_size
        → 0 < mm.page_size
        → read_sized mm e page encoded_len s ≡ (e.decode (take len content), s)
    unfolding read_sized
    read_sized_lem e encoded_len len tells fits pos =
        let start = replicate {A = ℕ} (min initial_read_size mm.page_size) 0 in
        let n = length-replicate {A = ℕ} (min initial_read_size mm.page_size) 0 in
        read_loop_lem (mm.page_size + 1) e encoded_len len start tells fits (omega (arith, n))
          (omega (arith, n)) (omega (arith, n))
