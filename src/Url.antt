-- ===== src/Url.antt =====
-- The escapes of URIs (sources/gsdm/src/protocols/urlcode.cpp).  A character is its number as an
-- unsigned byte; char is signed, as on the platforms of the program.
pub mod Escapes
pub mod RoundTrip
pub mod Room
pub mod Percent
use gsdm.Base.{
  ℕ, zero, suc, ◌+◌, ◌-◌, ◌*◌, ◌/◌, ◌%◌, Bool, true, false, ◌&&◌, ◌||◌, Option, none, some, List,
  [], ◌∷◌, ◌++◌, ◌>>=◌, ltb, leb, ◌==◌, if◌then◌else◌, length,
}

abbrev pub percent : ℕ
percent = 0x25

-- The entries of `s_en_uri_char` that are not NULL.
pub is_escaped : ℕ → Bool
is_escaped c =
    (leb 0x20 c && leb c 0x24)
    || (leb 0x26 c && leb c 0x2c)
    || (c == 0x2f)
    || (c == 0x3a)
    || (c == 0x3b)
    || (c == 0x3d)
    || (c == 0x3f)
    || (c == 0x40)
    || (c == 0x5b)
    || (c == 0x5d)
    || (c == 0x7b)
    || (c == 0x7d)

pub digit_char : ℕ → ℕ
digit_char d = if ltb d 10 then 0x30 + d else 0x37 + d

-- The text of an entry.
pub escape : ℕ → List ℕ
escape c = percent ∷ digit_char (c / 16) ∷ digit_char (c % 16) ∷ []

-- What a char array holds as a string: the characters in front of the first 0.
pub until_zero : List ℕ → List ℕ
until_zero [] = []
until_zero (c ∷ cs) = let rest = until_zero cs in if c == 0 then [] else c ∷ rest

-- `return rs`: the array of 4096 was zero everywhere at first; full, it has no end.
pub terminated : List ℕ → Option (List ℕ)
terminated cs = if ltb (length cs) 4096 then some (until_zero cs) else none

-- The loop of encodeURIComponent from position `j` of the array on.  A character from 0x80 on is a
-- negative index into the table: `none`.
pub encode_from : ℕ → List ℕ → Option (List ℕ)
encode_from j [] = some []
encode_from j (c ∷ cs) =
    let wide = encode_from (j + 3) cs in
    let narrow = encode_from (j + 1) cs in
    if ltb j 4094
    then (if ltb c 0x80
        then (if is_escaped c
            then (wide >>= λ rest. some (escape c ++ rest))
            else (narrow >>= λ rest. some (c ∷ rest)))
        else none)
    else some []

pub encode_uri_component : List ℕ → Option (List ℕ)
encode_uri_component value = encode_from 0 value >>= terminated

-- The value of a hexadecimal digit.
pub digit : ℕ → Option ℕ
digit c =
    if leb 0x30 c && leb c 0x39
    then some (c - 0x30)
    else if leb 0x41 c && leb c 0x46
    then some (c - 0x37)
    else if leb 0x61 c && leb c 0x66
    then some (c - 0x57)
    else none

abbrev is_space : ℕ → Bool
is_space c = (c == 0x20) || (leb 9 c && leb c 13)

-- strtol of two characters with base 16, as a char, if it reads both: two digits, or a digit
-- behind a space or a sign.
pub read_pair : ℕ → ℕ → Option ℕ
read_pair a b = elim (digit b) [
  | none ↦ none
  | some low ↦ elim (digit a) [
    | some high ↦ some (high * 16 + low)
    | none ↦
        if is_space a || (a == 0x2b)
        then some low
        else if a == 0x2d
        then some ((256 - low) % 256)
        else none
  ]
]

-- An escape is a percent sign and two characters that strtol reads.
pub read_escape : ℕ → ℕ → ℕ → Option ℕ
read_escape c a b = if c == percent then read_pair a b else none

-- The loop of decodeURIComponent from position `j` on, in an array of `limit` characters.
pub decode_from : ℕ → ℕ → List ℕ → List ℕ
decode_from limit j [] = []
decode_from limit j (c ∷ []) = if ltb j limit then c ∷ [] else []
decode_from limit j (c ∷ a ∷ []) =
    let rest = decode_from limit (j + 1) (a ∷ []) in if ltb j limit then c ∷ rest else []
decode_from limit j (c ∷ a ∷ b ∷ cs) =
    if ltb j limit
    then elim (read_escape c a b) [
      | some v ↦ v ∷ decode_from limit (j + 1) cs
      | none ↦ c ∷ decode_from limit (j + 1) (a ∷ b ∷ cs)
    ]
    else []

pub decode_uri_component : List ℕ → Option (List ℕ)
decode_uri_component value = terminated (decode_from 4096 0 value)

-- The other decodeURIComponent, into an array of the caller.
pub decode_into : List ℕ → ℕ → List ℕ
decode_into value rs_len = decode_from rs_len 0 value
