-- ===== src/Ws/Reading.antt =====
-- HandlerProtocol reads a header as SendWS wrote it (sources/gsdm/src/protocols/wsprotocol.cpp).
use gsdm.Base.{
  ℕ, suc, ◌+◌, ◌^◌, ◌≤◌, ◌<◌, ◌≡◌, refl, ap, ◌∙◌, Bool, true, false, List, [], ◌∷◌, ◌++◌,
  append_assoc, arith, inl, inr, Bool-cases, ltb, leb, ◌==◌, leb→le, le→ltb, if◌then◌else◌, u16,
  length, take, drop, length-append,
}
use gsdm.Base.Slices.{take-append_le, take_all}
use gsdm.Ws.{
  Frame, big_endian, short_length, extended_length, header, scanned, scan_key, scan_length,
  scan_header,
}
use gsdm.Ws.Header.{
  length-big_endian, from_big_endian-big_endian, first_byte_fields, second_byte_fields,
}

abbrev key_of : Bool → List ℕ → List ℕ
key_of masked key = if masked then key else []

scan_key_lem :
    (f : Frame) (m : Bool) (bytes : List ℕ) (pos : ℕ) (key rest : List ℕ)
    → drop pos bytes ≡ key_of m key ++ rest
    → length key ≡ 4
    → scan_key (record f { masked = m }) bytes pos
      ≡ scanned
          (record f { masked = m; masking_key = if m then key else f.masking_key })
          (pos + length (key_of m key))
unfolding scan_key
scan_key_lem f false bytes pos key rest at len =
    let e : pos ≡ pos + 0 = omega arith in ap (scanned (record f { masked = false })) e
scan_key_lem f true bytes pos key rest at len =
    let enough : ltb (length (key ++ rest)) 4 ≡ false =
      le→ltb _ _ (omega (arith, length-append {0} key rest)) in
    let got : take 4 (key ++ rest) ≡ key =
      take-append_le 4 key rest (omega arith) ∙ take_all 4 key (omega arith) in
    rw (at, enough, got, len)

take_block : (n len : ℕ) (tail : List ℕ) → take n (big_endian n len ++ tail) ≡ big_endian n len
take_block n len tail =
    let size = length-big_endian n len in
    take-append_le n (big_endian n len) tail (omega arith)
    ∙ take_all n (big_endian n len) (omega arith)

-- The three forms of the length.
module _ (f : Frame) (a b len : ℕ) (tail : List ℕ) where
  abbrev whole : List ℕ → List ℕ
  whole ext = a ∷ b ∷ (ext ++ tail)

  scan_length_short :
      len ≤ 125
      → scan_length f len (whole []) ≡ scan_key (record f { payload_length = len }) (whole []) 2
  unfolding scan_length
  scan_length_short h =
      let e1 : (len == 0x7e) ≡ false = ground arith in
      let e2 : (len == 0x7f) ≡ false = ground arith in rw (e1, e2)

  scan_length_two :
      len < 256 ^ 2
      → scan_length f 0x7e (whole (big_endian 2 len))
        ≡ scan_key (record f { payload_length = len }) (whole (big_endian 2 len)) 4
  unfolding scan_length
  scan_length_two h =
      let size = length-append {0} (big_endian 2 len) tail in
      let enough : ltb (length (whole (big_endian 2 len))) 4 ≡ false =
        le→ltb _ _ (omega (arith, size, length-big_endian 2 len)) in
      rw (enough, take_block 2 len tail, from_big_endian-big_endian 2 len h)

  scan_length_eight :
      len < 256 ^ 8
      → scan_length f 0x7f (whole (big_endian 8 len))
        ≡ scan_key (record f { payload_length = len }) (whole (big_endian 8 len)) 10
  unfolding scan_length
  scan_length_eight h =
      let size = length-append {0} (big_endian 8 len) tail in
      let enough : ltb (length (whole (big_endian 8 len))) 10 ≡ false =
        le→ltb _ _ (omega (arith, size, length-big_endian 8 len)) in
      rw (enough, take_block 8 len tail, from_big_endian-big_endian 8 len h)

  scan_length_lem :
      len < 2 ^ 32
      → scan_length f (short_length len) (whole (extended_length len))
        ≡ scan_key
            (record f { payload_length = len })
            (whole (extended_length len))
            (2 + length (extended_length len))
  unfolding short_length extended_length big_endian
  scan_length_lem h = elim (Bool-cases (leb len 0x7d)) [
    | inl short ↦ rw short (scan_length_short (leb→le _ _ short))
    | inr more ↦ elim (Bool-cases (leb len 0xffff)) [
      | inl two ↦
          let word : u16 len ≡ len = omega (arith, leb→le _ _ two) in
          rw (more, two, word) (scan_length_two (omega (arith, leb→le _ _ two)))
      | inr eight ↦ rw (more, eight) (scan_length_eight (omega arith))
    ]
  ]

pub drop-append_length : {A : Type 0} (xs ys : List A) → drop (length xs) (xs ++ ys) ≡ ys
drop-append_length [] ys = refl
drop-append_length (x ∷ xs) ys = drop-append_length xs ys

drop_behind : (a b : ℕ) (ext tail : List ℕ) → drop (2 + length ext) (a ∷ b ∷ (ext ++ tail)) ≡ tail
drop_behind a b ext tail =
    let front : 2 + length ext ≡ suc (suc (length ext)) = omega arith in
    ap (λ n. drop n (a ∷ b ∷ (ext ++ tail))) front ∙ drop-append_length ext tail

-- The frame that is read: the flags, the key and the length of the frame that was written.
unfoldable pub read_back : Frame → Frame → ℕ → Frame
read_back g f len = record g {
  fin = f.fin;
  rsv1 = f.rsv1;
  rsv2 = f.rsv2;
  rsv3 = f.rsv3;
  opcode = f.opcode;
  masked = f.masked;
  masking_key = if f.masked then f.masking_key else g.masking_key;
  payload_length = len;
}

short_length-lt : (len : ℕ) → short_length len < 128
unfolding short_length
short_length-lt len = ground arith

-- The header that SendWS writes for a frame and a payload length is read as that frame and
-- length, whatever follows it and whatever frame was read before, and its own length is found.
pub scan_header-header :
    (g f : Frame) (len : ℕ) (rest : List ℕ)
    → f.opcode < 16
    → length f.masking_key ≡ 4
    → len < 2 ^ 32
    → scan_header g (header f len ++ rest) ≡ scanned (read_back g f len) (length (header f len))
unfolding scan_header header read_back
scan_header-header g f len rest op key small =
    let one = first_byte_fields f.fin f.rsv1 f.rsv2 f.rsv3 f.opcode op in
    let two = second_byte_fields f.masked (short_length len) (short_length-lt len) in
    let ext = extended_length len in
    let k : take 4 f.masking_key ≡ f.masking_key = take_all 4 f.masking_key (omega arith) in
    let size : 2 + length ext + length (key_of f.masked f.masking_key)
        ≡ suc (suc (length (ext ++ key_of f.masked f.masking_key))) =
      omega (arith, length-append {0} ext (key_of f.masked f.masking_key)) in
    let tail : List ℕ = key_of f.masked f.masking_key ++ rest in
    rw (one.0, one.1, one.2, one.3, one.4, two.0, two.1, k, append_assoc)
      (scan_length_lem
          (record g {
            fin = f.fin;
            rsv1 = f.rsv1;
            rsv2 = f.rsv2;
            rsv3 = f.rsv3;
            opcode = f.opcode;
            masked = f.masked;
          })
          _ _ len tail small
        ∙ scan_key_lem
            (record g {
              fin = f.fin;
              rsv1 = f.rsv1;
              rsv2 = f.rsv2;
              rsv3 = f.rsv3;
              opcode = f.opcode;
              payload_length = len;
            })
            f.masked _ (2 + length ext) f.masking_key rest (drop_behind _ _ ext tail) key
        ∙ ap (scanned (read_back g f len)) size)
