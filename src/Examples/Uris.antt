-- ===== src/Examples/Uris.antt =====
-- The theorems on the escapes of URIs (sources/gsdm/src/protocols/urlcode.cpp) at short texts.
use gsdm.Base.{ℕ, ◌<◌, ◌≡◌, refl, some, List, [], ◌∷◌, length, arith}
use gsdm.Url.{encode_uri_component, decode_uri_component, escape}
use gsdm.Url.RoundTrip.{
  AllPlain, expanded, length-expanded_le, decode_uri_component-encode_uri_component,
}
use gsdm.Url.Percent.{encode_uri_component-escape}

-- "a b/c"
abbrev text : List ℕ
text = 97 ∷ 32 ∷ 98 ∷ 47 ∷ 99 ∷ []

text-AllPlain : AllPlain text
text-AllPlain = (
  (omega arith, (omega arith, refl)),
  (
    (omega arith, (omega arith, refl)),
    (
      (omega arith, (omega arith, refl)),
      ((omega arith, (omega arith, refl)), ((omega arith, (omega arith, refl)), tt)),
    ),
  ),
)

text-short : length (expanded text) < 4095
text-short = omega (arith, length-expanded_le text)

decode_uri_component-encode_uri_component_example :
    (encode_uri_component text ≡ some (expanded text))
    × (decode_uri_component (expanded text) ≡ some text)
decode_uri_component-encode_uri_component_example =
    decode_uri_component-encode_uri_component text text-AllPlain text-short

encode_uri_component-escape_example :
    (encode_uri_component (escape 65) ≡ some (escape 65))
    × (decode_uri_component (escape 65) ≡ some (65 ∷ []))
encode_uri_component-escape_example = encode_uri_component-escape 65 (omega arith) (omega arith)
