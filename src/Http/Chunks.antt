-- ===== src/Http/Chunks.antt =====
-- The chunks of SendChunked (sources/gsdm/src/protocols/httpprotocol.cpp) against the coding of
-- RFC 7230, section 4.1, which is written out here as a reader.
use native.Mathlib.Nat.{pow-suc}
use gsdm.Base.{
  ℕ, zero, suc, ◌+◌, ◌-◌, ◌*◌, ◌/◌, ◌%◌, ◌^◌, ◌<◌, ◌≡◌, refl, ap, ◌∙◌, true, false, Option, none,
  some, List, [], ◌∷◌, ◌++◌, append_assoc, arith, ◌>>=◌, inl, inr, Bool-cases, if◌then◌else◌, ◌==◌,
  ltb, ltb→lt, lt→ltb, le→ltb, length, length-append, take, drop,
}
use gsdm.Base.Slices.{take-append_le, take_all}
use gsdm.Text.Cut.{cut_at, Without, cut_at-append, drop_front}
use gsdm.Headers.{crlf}
use gsdm.Http.Writing.{hex_char, hex_onto, hex_text, send_chunked}

-- The value of an upper-case digit, and of digits behind a number.
abbrev pub hex_digit : ℕ → ℕ
hex_digit c = if ltb c 0x3a then c - 0x30 else c - 0x37

pub hex_value : ℕ → List ℕ → ℕ
hex_value acc [] = acc
hex_value acc (c ∷ cs) = hex_value (acc * 16 + hex_digit c) cs

-- A line end behind a chunk.
pub line_end : List ℕ → List ℕ → Option (List ℕ × List ℕ)
line_end chunk [] = none
line_end chunk (c ∷ []) = none
line_end chunk (c ∷ d ∷ rest) =
    if c == 13 then (if d == 10 then some (chunk, rest) else none) else none

-- A chunk: its size, a line end, so many bytes, and a line end.
pub read_chunk : List ℕ → Option (List ℕ × List ℕ)
read_chunk text = cut_at crlf text >>= λ (size, rest).
    (if ltb (length rest) (hex_value 0 size)
      then none
      else line_end (take (hex_value 0 size) rest) (drop (hex_value 0 size) rest))

-- Chunks up to the empty one, put together.
pub after_chunk :
    (next : List ℕ → Option (List ℕ × List ℕ)) → Option (List ℕ × List ℕ) → Option (List ℕ × List ℕ)
after_chunk next none = none
after_chunk next (some ([], rest)) = some ([], rest)
after_chunk next (some (c ∷ cs, rest)) =
    next rest >>= λ (more, behind). some ((c ∷ cs) ++ more, behind)

pub read_chunks : ℕ → List ℕ → Option (List ℕ × List ℕ)
read_chunks zero text = none
read_chunks (suc fuel) text = after_chunk (read_chunks fuel) (read_chunk text)

abbrev pub concat : List (List ℕ) → List ℕ
concat [] = []
concat (b ∷ bs) = b ++ concat bs

-- The bytes that are sent for a chunk when every call succeeds.
abbrev pub chunk_bytes : List ℕ → List ℕ
chunk_bytes chunk = concat (send_chunked (λ _. true) chunk).0

hex_digit-hex_char : (d : ℕ) → d < 16 → hex_digit (hex_char d) ≡ d
hex_digit-hex_char d h = ground arith

hex_value_small : (n : ℕ) (acc : List ℕ) → n < 16 → hex_value 0 (hex_char n ∷ acc) ≡ hex_value n acc
unfolding hex_value
hex_value_small n acc h =
    let e : 0 * 16 + hex_digit (hex_char n) ≡ n = omega (arith, hex_digit-hex_char n h) in
    ap (λ k. hex_value k acc) e

hex_value_step :
    (n : ℕ) (acc : List ℕ) → hex_value (n / 16) (hex_char (n % 16) ∷ acc) ≡ hex_value n acc
unfolding hex_value
hex_value_step n acc =
    let e : n / 16 * 16 + hex_digit (hex_char (n % 16)) ≡ n =
      omega (arith, hex_digit-hex_char (n % 16) (omega arith)) in
    ap (λ k. hex_value k acc) e

hex_value-hex_onto :
    (fuel n : ℕ) (acc : List ℕ)
    → n < 16 ^ fuel
    → 0 < fuel
    → hex_value 0 (hex_onto fuel n acc) ≡ hex_value n acc
unfolding hex_onto
hex_value-hex_onto zero n acc h pos = absurd (omega arith)
hex_value-hex_onto (suc zero) n acc h pos =
    let small : n < 16 = omega arith in rw (lt→ltb n 16 small) (hex_value_small n acc small)
hex_value-hex_onto (suc (suc fuel)) n acc h pos = elim (Bool-cases (ltb n 16)) [
  | inl small ↦ rw small (hex_value_small n acc (ltb→lt _ _ small))
  | inr big ↦
      let less : n / 16 < 16 ^ suc fuel = omega (arith, pow-suc 16 (suc fuel)) in
      rw big (
        hex_value-hex_onto (suc fuel) (n / 16) (hex_char (n % 16) ∷ acc) less (omega arith)
        ∙ hex_value_step n acc)
]

hex_char-Without : (d : ℕ) → (13 == hex_char d) ≡ false
hex_char-Without d = ground arith

hex_onto-Without : (fuel n : ℕ) (acc : List ℕ) → Without 13 acc → Without 13 (hex_onto fuel n acc)
unfolding hex_onto
hex_onto-Without zero n acc h = h
hex_onto-Without (suc fuel) n acc h = elim (Bool-cases (ltb n 16)) [
  | inl small ↦ rw small (hex_char-Without n, h)
  | inr big ↦
      rw big
        (hex_onto-Without fuel (n / 16) (hex_char (n % 16) ∷ acc) (hex_char-Without (n % 16), h))
]

hex_text_lem : (n : ℕ) → n < 2 ^ 32 → hex_value 0 (hex_text n) ≡ n
unfolding hex_text hex_value
hex_text_lem n h = hex_value-hex_onto 8 n [] h (omega arith)

hex_text-Without : (n : ℕ) → Without 13 (hex_text n)
unfolding hex_text
hex_text-Without n = hex_onto-Without 8 n [] tt

chunk_bytes_lem :
    (chunk : List ℕ) → chunk_bytes chunk ≡ hex_text (length chunk) ++ (crlf ++ (chunk ++ crlf))
unfolding send_chunked
chunk_bytes_lem [] = simp append_assoc
chunk_bytes_lem (c ∷ cs) =
    let some_bytes : (length (c ∷ cs) == 0) ≡ false = ground arith in
    simp (some_bytes, append_assoc)

-- What SendChunked sends is read as its chunk, whatever follows.
read_chunk-chunk_bytes :
    (chunk rest : List ℕ)
    → length chunk < 2 ^ 32
    → read_chunk (chunk_bytes chunk ++ rest) ≡ some (chunk, rest)
unfolding read_chunk line_end
read_chunk-chunk_bytes chunk rest h =
    let n = length chunk in
    let body : List ℕ = chunk ++ (crlf ++ rest) in
    let whole : chunk_bytes chunk ++ rest ≡ hex_text n ++ (crlf ++ body) =
      ap (λ t. t ++ rest) (chunk_bytes_lem chunk) ∙ simp append_assoc in
    let room : ltb (length body) n ≡ false =
      le→ltb _ _ (omega (arith, length-append {0} chunk (crlf ++ rest))) in
    let front : take n body ≡ chunk =
      take-append_le n chunk (crlf ++ rest) (omega arith) ∙ take_all n chunk (omega arith) in
    let back : drop n body ≡ crlf ++ rest = drop_front chunk (crlf ++ rest) in
    rw
      (
        whole,
        cut_at-append 13 (10 ∷ []) (hex_text n) body (hex_text-Without n),
        hex_text_lem n h,
        room,
        front,
        back,
      )
      refl

abbrev pub AllChunks : List (List ℕ) → Type 0
AllChunks [] = Unit {0}
AllChunks (b ∷ bs) = ((0 < length b) × (length b < 2 ^ 32)) × AllChunks bs

-- The bytes of a body: its chunks, and an empty one.
abbrev pub body_bytes : List (List ℕ) → List ℕ
body_bytes [] = chunk_bytes []
body_bytes (b ∷ bs) = chunk_bytes b ++ body_bytes bs

-- What calls of SendChunked send, with chunks that are not empty and an empty one at the end, is
-- read by a reader of the chunked coding as the bytes of the chunks, in order, whatever follows,
-- if all calls of SendHTTPData succeed and the chunks have fewer than 2 ^ 32 bytes each.
pub read_chunks-body_bytes :
    (fuel : ℕ) (chunks : List (List ℕ)) (rest : List ℕ)
    → AllChunks chunks
    → length chunks < fuel
    → read_chunks fuel (body_bytes chunks ++ rest) ≡ some (concat chunks, rest)
unfolding read_chunks after_chunk
read_chunks-body_bytes zero chunks rest all room = absurd (omega arith)
read_chunks-body_bytes (suc fuel) [] rest all room =
    rw (read_chunk-chunk_bytes [] rest (omega arith)) refl
read_chunks-body_bytes (suc fuel) ([] ∷ bs) rest ((pos, small), all) room = absurd (omega arith)
read_chunks-body_bytes (suc fuel) ((c ∷ cs) ∷ bs) rest ((pos, small), all) room =
    rw
      (
        append_assoc (chunk_bytes (c ∷ cs)) (body_bytes bs) rest,
        read_chunk-chunk_bytes (c ∷ cs) (body_bytes bs ++ rest) small,
        read_chunks-body_bytes fuel bs rest all (omega arith),
      )
      refl
