-- ===== src/Url/Room.antt =====
-- The arrays that urlcode.cpp writes into (sources/gsdm/src/protocols/urlcode.cpp).
use gsdm.Base.{
  ℕ, ◌+◌, ◌-◌, ◌≤◌, ◌<◌, Option, none, some, List, [], ◌∷◌, ◌++◌, ◌>>=◌, arith, inl, inr,
  Bool-cases, Option-cases, ltb, ltb→lt, length,
}
use gsdm.Url.{is_escaped, escape, encode_from, read_escape, decode_from, decode_into}

decode_from-room : (limit j : ℕ) (cs : List ℕ) → length (decode_from limit j cs) ≤ limit - j
unfolding decode_from
decode_from-room limit j [] = omega arith
decode_from-room limit j (c ∷ []) = elim (Bool-cases (ltb j limit)) [
  | inl in_room ↦ rw in_room (omega (arith, ltb→lt _ _ in_room))
  | inr full ↦ rw full (omega arith)
]
decode_from-room limit j (c ∷ a ∷ []) = elim (Bool-cases (ltb j limit)) [
  | inl in_room ↦
      rw in_room (omega (arith, ltb→lt _ _ in_room, decode_from-room limit (j + 1) (a ∷ [])))
  | inr full ↦ rw full (omega arith)
]
decode_from-room limit j (c ∷ a ∷ b ∷ cs) = elim (Bool-cases (ltb j limit)) [
  | inr full ↦ rw full (omega arith)
  | inl in_room ↦ elim (Option-cases (read_escape c a b)) [
    | inl plain ↦
        rw (in_room, plain)
          (omega (arith, ltb→lt _ _ in_room, decode_from-room limit (j + 1) (a ∷ b ∷ cs)))
    | inr (v, escaped) ↦
        rw (in_room, escaped) (omega (arith, ltb→lt _ _ in_room, decode_from-room limit (j + 1) cs))
  ]
]

-- The decodeURIComponent of the caller's array writes at most as many characters as the array
-- has.
pub decode_into-room : (value : List ℕ) (rs_len : ℕ) → length (decode_into value rs_len) ≤ rs_len
unfolding decode_into
decode_into-room value rs_len = omega (arith, decode_from-room rs_len 0 value)

-- What the rest of a run of encodeURIComponent may be.
abbrev pub Within : ℕ → Option (List ℕ) → Type 0
Within j none = Unit {0}
Within j (some rest) = length rest ≤ 4096 - j

encode_wide :
    (j c : ℕ) (o : Option (List ℕ))
    → j < 4094
    → Within (j + 3) o
    → Within j (o >>= λ rest. some (escape c ++ rest))
unfolding escape
encode_wide j c none h w = tt
encode_wide j c (some rest) h w = omega arith

encode_narrow :
    (j c : ℕ) (o : Option (List ℕ))
    → j < 4094
    → Within (j + 1) o
    → Within j (o >>= λ rest. some (c ∷ rest))
encode_narrow j c none h w = tt
encode_narrow j c (some rest) h w = omega arith

-- The loop of encodeURIComponent stays within the 4096 characters of its array, from any
-- position on.
pub encode_from-Within : (j : ℕ) (cs : List ℕ) → Within j (encode_from j cs)
unfolding encode_from
encode_from-Within j [] = omega arith
encode_from-Within j (c ∷ cs) = elim (Bool-cases (ltb j 4094)) [
  | inr full ↦ rw full (omega arith)
  | inl in_room ↦ elim (Bool-cases (ltb c 0x80)) [
    | inr negative ↦ rw (in_room, negative) tt
    | inl ascii ↦ elim (Bool-cases (is_escaped c)) [
      | inl e ↦
          rw (in_room, ascii, e)
            (encode_wide j c _ (ltb→lt _ _ in_room) (encode_from-Within (j + 3) cs))
      | inr e ↦
          rw (in_room, ascii, e)
            (encode_narrow j c _ (ltb→lt _ _ in_room) (encode_from-Within (j + 1) cs))
    ]
  ]
]
