-- ===== src/Config.antt =====
-- GsdmConfig (sources/gsdm/src/utils/gsdmconfig.cpp): the file of settings, with ReadLine of GSDMFile
-- (sources/gsdm/src/utils/file.cpp) and lowerCase (sources/gsdm/src/platform/linuxplatform.cpp).
-- A file is the list of its bytes; the loop has a unit of fuel for each byte and one more.
pub mod Lines
pub mod Values
use gsdm.Base.{
  ℕ, ◌+◌, zero, suc, Bool, true, false, ◌&&◌, ◌||◌, Option, none, some, List, [], ◌∷◌, ◌==◌,
  if◌then◌else◌, ◌>>=◌, leb, length,
}
use gsdm.Base.Int.{ℤ}
use gsdm.Text.{trim}
use gsdm.Text.Cut.{cut_at, codes}
use gsdm.Url.{until_zero}
use gsdm.Headers.Maps.{Dict, set, get, same_text}
use gsdm.Http.Receiving.{atoi}

abbrev pub equals : List ℕ
equals = 61 ∷ []

abbrev pub quote : List ℕ
quote = 34 ∷ []

abbrev pub hash : List ℕ
hash = 35 ∷ []

-- std::istream::getline into an array that holds `room` characters and the 0: the line and what is
-- behind its end, or nothing if the line is longer.
pub take_line : ℕ → List ℕ → Option (List ℕ × List ℕ)
take_line room [] = some ([], [])
take_line zero (c ∷ cs) = if c == 10 then some ([], cs) else none
take_line (suc room) (c ∷ cs) =
    let more = take_line room cs >>= λ (line, rest). some (c ∷ line, rest) in
    if c == 10 then some ([], cs) else more

-- ReadLine fails at the end of the file too.
abbrev pub read_line : ℕ → List ℕ → Option (List ℕ × List ℕ)
read_line room [] = none
read_line room (c ∷ cs) = take_line room (c ∷ cs)

-- The line is skipped.
abbrev pub is_skipped : List ℕ → Bool
is_skipped [] = true
is_skipped (c ∷ cs) = (c == 35) || (c == 10) || (c == 13)

-- A value without quotes ends at the first hash.
abbrev pub plain_value : List ℕ → Option (List ℕ × List ℕ) → List ℕ
plain_value text none = trim text
plain_value text (some (value, remark)) = trim value

-- What is behind the first quote ends at the next one.
abbrev pub set_quoted : List ℕ → Dict → Option (List ℕ × List ℕ) → Dict
set_quoted key d none = d
set_quoted key d (some (value, rest)) = set key value d

abbrev pub set_value : List ℕ → List ℕ → Dict → Option (List ℕ × List ℕ) → Dict
set_value key text d none = set key (plain_value text (cut_at hash text)) d
set_value key text d (some (front, behind)) = set_quoted key d (cut_at quote behind)

abbrev pub set_entry : Dict → Option (List ℕ × List ℕ) → Dict
set_entry d none = d
set_entry d (some (key, text)) =
    if is_skipped (trim key) then d else set_value (trim key) text d (cut_at quote text)

-- A round of the loop of Initialize
pub set_line : List ℕ → Dict → Dict
set_line line d = set_entry d (cut_at equals (until_zero line))

abbrev pub after_read :
    (List ℕ → Dict → Option Dict) → Dict → Option (List ℕ × List ℕ) → Option Dict
after_read next d none = some d
after_read next d (some (line, rest)) = next rest (set_line line d)

pub read_lines : ℕ → List ℕ → Dict → Option Dict
read_lines zero text d = none
read_lines (suc fuel) text d = after_read (read_lines fuel) d (read_line 4095 text)

-- The path is empty, or the file cannot be opened, or it holds these bytes.
pub data Source : Type 0 where
  no_path : Source
  unopened : Source
  holding : List ℕ → Source

-- Initialize, on the settings of an earlier call
pub initialize : Source → Dict → Option (Dict × Bool)
initialize no_path old = some ([], true)
initialize unopened old = some ([], false)
initialize (holding text) old = do d ← read_lines (suc (length text)) text []; some (d, true)

pub get_string : List ℕ → List ℕ → Dict → List ℕ
get_string key default d = elim (get key d) [ none ↦ default | some v ↦ v ]

-- GetInt
pub get_int : List ℕ → ℤ → Dict → ℤ
get_int key default d = elim (get key d) [ none ↦ default | some v ↦ atoi v ]

abbrev pub to_lower : ℕ → ℕ
to_lower c = if leb 0x41 c && leb c 0x5a then c + 0x20 else c

pub lower_case : List ℕ → List ℕ
lower_case [] = []
lower_case (c ∷ cs) = to_lower c ∷ lower_case cs

pub get_bool : List ℕ → Bool → Dict → Bool
get_bool key default d = elim (get key d) [
  | none ↦ default
  | some v ↦ same_text (codes "true") (lower_case v)
]
