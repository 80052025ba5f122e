-- ===== src/Url/RoundTrip.antt =====
-- encodeURIComponent and decodeURIComponent (sources/gsdm/src/protocols/urlcode.cpp) on a string.
use gsdm.Base.{
  ℕ, suc, ◌+◌, ◌*◌, ◌/◌, ◌%◌, ◌≤◌, ◌<◌, ◌≡◌, refl, ap, ◌∙◌, Bool, true, false, some, List, [], ◌∷◌,
  ◌++◌, arith, inl, inr, Bool-cases, ◌==◌, lt→ltb, if◌then◌else◌, length,
}
use gsdm.Url.{
  percent, is_escaped, digit_char, escape, until_zero, terminated, encode_from,
  encode_uri_component, decode_from, decode_uri_component,
}
use gsdm.Url.Escapes.{read_escape-escape, read_escape-plain}

-- A character that survives: not 0, in ASCII, and no percent sign, which is not escaped.
abbrev pub Plain : ℕ → Type 0
Plain c = (0 < c) × ((c < 128) × ((c == percent) ≡ false))

abbrev pub AllPlain : List ℕ → Type 0
AllPlain [] = Unit {0}
AllPlain (c ∷ cs) = Plain c × AllPlain cs

-- The text with its escapes, whatever the room.
abbrev pub expanded : List ℕ → List ℕ
expanded [] = []
expanded (c ∷ cs) = let rest = expanded cs in if is_escaped c then escape c ++ rest else c ∷ rest

abbrev pub NonZero : List ℕ → Type 0
NonZero [] = Unit {0}
NonZero (c ∷ cs) = ((c == 0) ≡ false) × NonZero cs

-- The test for it, which a literal passes by evaluation.
abbrev pub is_nonzero : List ℕ → Bool
is_nonzero [] = true
is_nonzero (c ∷ cs) = let rest = is_nonzero cs in if c == 0 then false else rest

nonzero_parts : (b r : Bool) → (if b then false else r) ≡ true → (b ≡ false) × (r ≡ true)
nonzero_parts true r h = cc
nonzero_parts false r h = (refl, h)

pub NonZero-of : (cs : List ℕ) → is_nonzero cs ≡ true → NonZero cs
NonZero-of [] h = tt
NonZero-of (c ∷ cs) h =
    let (other, rest) = nonzero_parts (c == 0) (is_nonzero cs) h in (other, NonZero-of cs rest)

pub until_zero-NonZero : (cs : List ℕ) → NonZero cs → until_zero cs ≡ cs
unfolding until_zero
until_zero-NonZero [] h = refl
until_zero-NonZero (c ∷ cs) (h, hs) = rw h (ap (λ r. c ∷ r) (until_zero-NonZero cs hs))

plain-NonZero : (cs : List ℕ) → AllPlain cs → NonZero cs
plain-NonZero [] h = tt
plain-NonZero (c ∷ cs) ((pos, h), hs) = (ground arith, plain-NonZero cs hs)

digit_char-pos : (d : ℕ) → (digit_char d == 0) ≡ false
unfolding digit_char
digit_char-pos d = ground arith

expanded-NonZero : (cs : List ℕ) → AllPlain cs → NonZero (expanded cs)
unfolding escape
expanded-NonZero [] h = tt
expanded-NonZero (c ∷ cs) ((pos, h), hs) = elim (Bool-cases (is_escaped c)) [
  | inl e ↦
      rw e (refl, (digit_char-pos (c / 16), (digit_char-pos (c % 16), expanded-NonZero cs hs)))
  | inr e ↦ rw e (ground arith, expanded-NonZero cs hs)
]

length-expanded_wide :
    (c : ℕ) (cs : List ℕ)
    → is_escaped c ≡ true
    → length (expanded (c ∷ cs)) ≡ suc (suc (suc (length (expanded cs))))
unfolding escape
length-expanded_wide c cs e = rw e refl

length-expanded_narrow :
    (c : ℕ) (cs : List ℕ)
    → is_escaped c ≡ false
    → length (expanded (c ∷ cs)) ≡ suc (length (expanded cs))
length-expanded_narrow c cs e = rw e refl

encode_from-expanded :
    (j : ℕ) (cs : List ℕ)
    → AllPlain cs
    → j + length (expanded cs) < 4095
    → encode_from j cs ≡ some (expanded cs)
unfolding encode_from escape
encode_from-expanded j [] h room = refl
encode_from-expanded j (c ∷ cs) ((pos, (ascii, h)), hs) room = elim (Bool-cases (is_escaped c)) [
  | inl e ↦
      let size = length-expanded_wide c cs e in
      rw
        (
          lt→ltb j 4094 (omega arith),
          lt→ltb c 0x80 ascii,
          e,
          encode_from-expanded (j + 3) cs hs (omega arith),
        )
        refl
  | inr e ↦
      let size = length-expanded_narrow c cs e in
      rw
        (
          lt→ltb j 4094 (omega arith),
          lt→ltb c 0x80 ascii,
          e,
          encode_from-expanded (j + 1) cs hs (omega arith),
        )
        refl
]

decode_from-plain :
    (limit j c : ℕ) (cs : List ℕ)
    → (c == percent) ≡ false
    → j < limit
    → decode_from limit j (c ∷ cs) ≡ c ∷ decode_from limit (j + 1) cs
unfolding decode_from
decode_from-plain limit j c [] h room = rw (lt→ltb _ _ room) refl
decode_from-plain limit j c (a ∷ []) h room = rw (lt→ltb _ _ room) refl
decode_from-plain limit j c (a ∷ b ∷ cs) h room =
    rw (lt→ltb _ _ room, read_escape-plain c a b h) refl

pub decode_from-escape :
    (limit j c : ℕ) (cs : List ℕ)
    → c < 128
    → j < limit
    → decode_from limit j (escape c ++ cs) ≡ c ∷ decode_from limit (j + 1) cs
unfolding decode_from escape
decode_from-escape limit j c cs h room = rw (lt→ltb _ _ room, read_escape-escape c h) refl

decode_from-expanded :
    (limit j : ℕ) (cs : List ℕ)
    → AllPlain cs
    → j + length cs ≤ limit
    → decode_from limit j (expanded cs) ≡ cs
unfolding decode_from
decode_from-expanded limit j [] h room = refl
decode_from-expanded limit j (c ∷ cs) ((pos, (ascii, h)), hs) room =
    let rest = decode_from-expanded limit (j + 1) cs hs (omega arith) in
    elim (Bool-cases (is_escaped c)) [
      | inl e ↦
          rw e
            (decode_from-escape limit j c (expanded cs) ascii (omega arith) ∙ ap (λ r. c ∷ r) rest)
      | inr e ↦
          rw e (decode_from-plain limit j c (expanded cs) h (omega arith) ∙ ap (λ r. c ∷ r) rest)
    ]

length-le : (cs : List ℕ) → length cs ≤ length (expanded cs)
length-le [] = omega arith
length-le (c ∷ cs) = elim (Bool-cases (is_escaped c)) [
  | inl e ↦ omega (arith, length-expanded_wide c cs e, length-le cs)
  | inr e ↦ omega (arith, length-expanded_narrow c cs e, length-le cs)
]

-- An escape has three characters.
pub length-expanded_le : (cs : List ℕ) → length (expanded cs) ≤ 3 * length cs
length-expanded_le [] = omega arith
length-expanded_le (c ∷ cs) = elim (Bool-cases (is_escaped c)) [
  | inl e ↦ omega (arith, length-expanded_wide c cs e, length-expanded_le cs)
  | inr e ↦ omega (arith, length-expanded_narrow c cs e, length-expanded_le cs)
]

pub terminated_lem : (cs : List ℕ) → NonZero cs → length cs < 4096 → terminated cs ≡ some cs
unfolding terminated
terminated_lem cs h room = rw (lt→ltb (length cs) 4096 room) (ap some (until_zero-NonZero cs h))

-- What encodeURIComponent makes of a text is read back by decodeURIComponent as that text, if its
-- characters are ASCII, none is 0 and none is a percent sign, and the escaped text is shorter
-- than 4095 characters; it is the text with each character of the table escaped.
pub decode_uri_component-encode_uri_component :
    (value : List ℕ)
    → AllPlain value
    → length (expanded value) < 4095
    → (encode_uri_component value ≡ some (expanded value))
      × (decode_uri_component (expanded value) ≡ some value)
unfolding encode_uri_component decode_uri_component
decode_uri_component-encode_uri_component value plain room =
    let short = length-le value in
    (
      rw (encode_from-expanded 0 value plain (omega arith))
          (terminated_lem (expanded value) (expanded-NonZero value plain) (omega arith)),
      rw (decode_from-expanded 4096 0 value plain (omega arith))
          (terminated_lem value (plain-NonZero value plain) (omega arith)),
    )
