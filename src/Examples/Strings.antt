-- ===== src/Examples/Strings.antt =====
-- The theorems on strings (sources/gsdm/src/platform/linuxplatform.cpp) at a short text.
use gsdm.Base.{ℕ, List, [], ◌∷◌, arith}
use gsdm.Text.{split, trim}
use gsdm.Text.Split.{Splits, split-Splits}
use gsdm.Text.Trim.{Trimmed, trim-Trimmed}

-- "a,b,,c"
abbrev commas : List ℕ
commas = 97 ∷ 44 ∷ 98 ∷ 44 ∷ 44 ∷ 99 ∷ []

split-Splits_example : Splits (44 ∷ []) commas (split commas (44 ∷ []))
split-Splits_example = split-Splits 44 [] (omega arith) commas

-- " a b "
abbrev padded : List ℕ
padded = 32 ∷ 97 ∷ 32 ∷ 98 ∷ 32 ∷ []

trim-Trimmed_example : Trimmed padded (trim padded)
trim-Trimmed_example = trim-Trimmed padded (omega arith)
