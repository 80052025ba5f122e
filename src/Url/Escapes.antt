-- ===== src/Url/Escapes.antt =====
-- Single escapes (sources/gsdm/src/protocols/urlcode.cpp): what encodeURIComponent writes for a
-- character, decodeURIComponent reads as it.
use gsdm.Base.{ℕ, ◌/◌, ◌%◌, ◌<◌, ◌≡◌, refl, ap, Bool, true, false, Option, none, some, ◌==◌, ==_iff}
use gsdm.Base.Bytes.{holds_from, holds_at}
use gsdm.Url.{percent, digit_char, digit, read_pair, read_escape}

abbrev is_value : Option ℕ → ℕ → Bool
is_value none c = false
is_value (some v) c = v == c

is_value_eq : (v : Option ℕ) (c : ℕ) → is_value v c ≡ true → v ≡ some c
is_value_eq none c h = cc
is_value_eq (some v) c h = ap some ((==_iff v c).0 h)

reads : ℕ → Bool
reads c = is_value (read_pair (digit_char (c / 16)) (digit_char (c % 16))) c

reads_table : holds_from 0 128 reads ≡ true
unfolding holds_from reads read_pair digit_char digit
reads_table = refl

pub read_escape-escape :
    (c : ℕ) → c < 128 → read_escape percent (digit_char (c / 16)) (digit_char (c % 16)) ≡ some c
unfolding read_escape reads
read_escape-escape c h = is_value_eq _ c (holds_at 128 reads c reads_table h)

pub read_escape-plain : (c a b : ℕ) → (c == percent) ≡ false → read_escape c a b ≡ none
unfolding read_escape
read_escape-plain c a b h = rw h refl
