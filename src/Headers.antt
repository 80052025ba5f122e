-- ===== src/Headers.antt =====
-- What the parsers of headers of HTTPProtocol and WSProtocol share
-- (sources/gsdm/src/protocols/httpprotocol.cpp and wsprotocol.cpp): the maps of strings, the
-- arguments of a request, and the lines of a header.  `none` is a read behind the bytes that are
-- given, or a loop without fuel.
pub mod Maps
pub mod Lines
use gsdm.Base.{
  ℕ, zero, suc, ◌+◌, Bool, true, false, Option, none, some, List, [], ◌∷◌, ◌++◌, ◌>>=◌,
  if◌then◌else◌, ◌==◌, length, take, drop,
}
use gsdm.Url.{until_zero}
use gsdm.Text.Cut.{cut_at, codes}
use gsdm.Headers.Maps.{Dict, set}

abbrev pub crlf : List ℕ
crlf = 13 ∷ 10 ∷ []

abbrev pub colon : List ℕ
colon = 58 ∷ []

abbrev pub ampersand : List ℕ
ampersand = 38 ∷ []

abbrev pub equals : List ℕ
equals = 61 ∷ []

-- An argument: its value is empty if there is no equals sign.
pub set_arg : List ℕ → Dict → Dict
set_arg arg args = elim (cut_at equals arg) [
  | none ↦ set arg [] args
  | some (key, value) ↦ set key value args
]

-- A round of the loop on what is behind the last ampersand; `next` is the rest of the loop.
pub after_ampersand :
    (next : List ℕ → Dict → Option Dict) → List ℕ → Dict → Option (List ℕ × List ℕ) → Option Dict
after_ampersand next text args none = some (set_arg text args)
after_ampersand next text args (some (arg, rest)) = next rest (set_arg arg args)

pub parse_args : ℕ → List ℕ → Dict → Option Dict
parse_args zero text args = none
parse_args (suc fuel) text args =
    after_ampersand (parse_args fuel) text args (cut_at ampersand text)

-- The C string at a place in memory; `none` if it has no end in the bytes that are given.
pub c_string : List ℕ → Option (List ℕ)
c_string [] = none
c_string (c ∷ cs) =
    let rest = c_string cs in if c == 0 then some [] else (rest >>= λ s. some (c ∷ s))

-- The bytes of the input with the 0 that the callers of the parsers put at the end of the header, and the C
-- string that begins behind the first 0.
abbrev pub zeroed : ℕ → List ℕ → List ℕ
zeroed i input = take i input ++ 0 ∷ drop (i + 1) input

pub behind_header : ℕ → List ℕ → Option (List ℕ)
behind_header i input = c_string (drop (length (until_zero (take i input)) + 1) (zeroed i input))

-- `header[key] = tmp1 + 2`: the value begins two characters behind the start of the colon. If nothing
-- follows the colon this is one behind the 0 that ends the line, where `beyond` stands.
pub set_field : (beyond : Option (List ℕ)) → Option (List ℕ × List ℕ) → Dict → Option (Dict × Bool)
set_field beyond none fields = some (fields, false)
set_field beyond (some (key, [])) fields = beyond >>= λ value. some (set key value fields, true)
set_field beyond (some (key, c ∷ value)) fields = some (set key value fields, true)

-- A round of the loop over the lines: the loop goes on behind a line with a colon, and ends with
-- false at one without.  The last line has no end; without a colon, it is the caller's matter.  Behind the
-- 0 of a line there is its line feed and the next lines, behind that of the last one `beyond`.
pub after_line :
    (next : List ℕ → Dict → Option (Dict × Bool))
    → Bool
    → (beyond : Option (List ℕ)) → List ℕ
    → Dict
    → Option (List ℕ × List ℕ)
    → Option (Dict × Bool)
after_line next lenient beyond text fields none =
    set_field beyond (cut_at colon text) fields >>= λ (fields', good).
    some (fields', if good then true else lenient)
after_line next lenient beyond text fields (some (line, rest)) =
    set_field (some (10 ∷ rest)) (cut_at colon line) fields >>= λ (fields', good).
    (if good then next rest fields' else some (fields', false))

pub parse_lines : ℕ → Bool → (beyond : Option (List ℕ)) → List ℕ → Dict → Option (Dict × Bool)
parse_lines zero lenient beyond text fields = none
parse_lines (suc fuel) lenient beyond text fields =
    after_line (parse_lines fuel lenient beyond) lenient beyond text fields (cut_at crlf text)
