-- ===== src/Config/Values.antt =====
-- What GetString of GsdmConfig (sources/gsdm/src/utils/gsdmconfig.cpp) yields of a file that was read.
use gsdm.Base.{ℕ, Option, none, some, List, [], ◌∷◌, if◌then◌else◌}
use gsdm.Text.{trim}
use gsdm.Headers.Maps.{same_text}
use gsdm.Config.Lines.{Line, remark, quoted, plain, bare}

abbrev pub first_of : Option (List ℕ) → Option (List ℕ) → Option (List ℕ)
first_of none o = o
first_of (some v) o = some v

abbrev pub value_or : List ℕ → Option (List ℕ) → List ℕ
value_or default none = default
value_or default (some v) = v

-- What a line says of a key, and what a file does: its last line that says something.
abbrev pub says : List ℕ → Line → Option (List ℕ)
says key (remark text) = none
says key (quoted k before value behind) = if same_text key (trim k) then some value else none
says key (plain k value behind) = if same_text key (trim k) then some (trim value) else none
says key (bare k value) = if same_text key (trim k) then some (trim value) else none

abbrev pub said : List ℕ → List Line → Option (List ℕ)
said key [] = none
said key (l ∷ ls) = first_of (said key ls) (says key l)
