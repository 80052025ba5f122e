-- ===== src/Url/Percent.antt =====
-- The percent sign in encodeURIComponent (sources/gsdm/src/protocols/urlcode.cpp).
use gsdm.Base.{
  ℕ, ◌/◌, ◌%◌, ◌<◌, ◌≡◌, refl, sym, ap, ◌∙◌, append-nil, length, Bool, true, false, not, ◌&&◌, some,
  [], ◌∷◌, arith, ◌==◌, ltb,
}
use gsdm.Base.Bytes.{holds_from, holds_at}
use gsdm.Url.{
  is_escaped, digit_char, escape, encode_from, encode_uri_component, decode_from,
  decode_uri_component,
}
use gsdm.Url.RoundTrip.{NonZero, terminated_lem, decode_from-escape}

digit_stays : ℕ → Bool
digit_stays d =
    ltb (digit_char d) 0x80 && not (is_escaped (digit_char d)) && not (digit_char d == 0)

digit_table : holds_from 0 16 digit_stays ≡ true
unfolding holds_from digit_stays is_escaped digit_char
digit_table = refl

three_parts :
    (a b c : Bool) → (a && not b && not c) ≡ true → (a ≡ true) × ((b ≡ false) × (c ≡ false))
three_parts true false false h = (refl, (refl, refl))
three_parts true true c h = cc
three_parts true false true h = cc
three_parts false b c h = cc

digit_char-stays :
    (d : ℕ)
    → d < 16
    → (ltb (digit_char d) 0x80 ≡ true)
      × ((is_escaped (digit_char d) ≡ false) × ((digit_char d == 0) ≡ false))
unfolding digit_stays
digit_char-stays d h = three_parts _ _ _ (holds_at 16 digit_stays d digit_table h)

encode_from-escape : (c : ℕ) → c < 128 → encode_from 0 (escape c) ≡ some (escape c)
unfolding encode_from escape is_escaped
encode_from-escape c h =
    let high = digit_char-stays (c / 16) (omega arith) in
    let low = digit_char-stays (c % 16) (omega arith) in rw (high.0, low.0, high.1.0, low.1.0) refl

escape-NonZero : (c : ℕ) → c < 128 → NonZero (escape c)
unfolding escape
escape-NonZero c h = (
  refl,
  (
    (digit_char-stays (c / 16) (omega arith)).1.1,
    ((digit_char-stays (c % 16) (omega arith)).1.1, tt),
  ),
)

escape-short : (c : ℕ) → length (escape c) ≡ 3
unfolding escape
escape-short c = refl

decode_from-one : (c : ℕ) → c < 128 → decode_from 4096 0 (escape c) ≡ c ∷ []
unfolding decode_from
decode_from-one c h =
    ap (decode_from 4096 0) (sym (append-nil (escape c)))
    ∙ decode_from-escape 4096 0 c [] h (omega arith)

-- The escape of an ASCII character is left as it is by encodeURIComponent, as the percent sign is
-- not escaped, and decodeURIComponent reads it as the character: a text that has an escape in it
-- is not read back, and two texts may be encoded alike.
pub encode_uri_component-escape :
    (c : ℕ)
    → 0 < c
    → c < 128
    → (encode_uri_component (escape c) ≡ some (escape c))
      × (decode_uri_component (escape c) ≡ some (c ∷ []))
unfolding encode_uri_component decode_uri_component
encode_uri_component-escape c pos h = (
  rw (encode_from-escape c h)
      (terminated_lem (escape c) (escape-NonZero c h) (omega (arith, escape-short c))),
  rw (decode_from-one c h) (terminated_lem (c ∷ []) (ground arith, tt) (omega arith)),
)
