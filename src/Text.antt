-- ===== src/Text.antt =====
-- Functions on strings of sources/gsdm/src/platform/linuxplatform.cpp: split, mapping and the
-- trims.  A string is the list of its characters' numbers.
pub mod Search
pub mod Split
pub mod Trim
pub mod Cut
pub mod Backwards
use gsdm.Base.Int.{ℤ, pos, negsuc, int32}
use gsdm.Base.{
  ℕ, zero, suc, ◌+◌, Bool, true, false, not, ◌&&◌, ◌||◌, Option, none, some, List, [], ◌∷◌, ◌++◌,
  ◌>>=◌, ◌==◌, if◌then◌else◌, length, take, drop, u32,
}

-- The text begins with the needle.
pub starts_with : List ℕ → List ℕ → Bool
starts_with [] text = true
starts_with (n ∷ ns) [] = false
starts_with (n ∷ ns) (c ∷ cs) = let rest = starts_with ns cs in if n == c then rest else false

-- std::string::find: the first position of the needle.
pub find : List ℕ → List ℕ → Option ℕ
find needle [] = if starts_with needle [] then some 0 else none
find needle (c ∷ cs) =
    let later = find needle cs in
    if starts_with needle (c ∷ cs) then some 0 else (later >>= λ i. some (suc i))

-- A round of split on what is behind `lastPosition`; `next` is the rest of the loop.  The length of the
-- separator is a `uint32_t`.
pub after_find :
    (next : List ℕ → Option (List (List ℕ))) → List ℕ → List ℕ → Option ℕ → Option (List (List ℕ))
after_find next separator rest none = some (rest ∷ [])
after_find next separator rest (some i) =
    next (drop (i + u32 (length separator)) rest) >>= λ parts. some (take i rest ∷ parts)

-- The loop of split; `none` if the fuel does not suffice.
pub split_from : ℕ → List ℕ → List ℕ → Option (List (List ℕ))
split_from zero separator rest = none
split_from (suc fuel) separator rest =
    after_find (split_from fuel separator) separator rest (find separator rest)

pub split : List ℕ → List ℕ → Option (List (List ℕ))
split text separator = split_from (suc (length text)) separator text

unfoldable pub is_blank : ℕ → Bool
is_blank c = (c == 0x20) || (c == 0x09) || (c == 0x0a) || (c == 0x0d)

-- lTrim drops the blanks in front.
unfoldable pub l_trim : List ℕ → List ℕ
l_trim [] = []
l_trim (c ∷ cs) = let rest = l_trim cs in if is_blank c then rest else c ∷ cs

-- What is in front of the last characters that are blank.
unfoldable pub shown_front : List ℕ → List ℕ
shown_front [] = []
shown_front (c ∷ cs) =
    let rest = shown_front cs in if is_blank c && (length rest == 0) then [] else c ∷ rest

-- rTrim starts its search at the length as an `int32_t`; a negative one keeps the whole value (that of
-- 2 ^ 31 characters, of which it takes 1 away, too).
abbrev pub r_trim_at : List ℕ → ℤ → List ℕ
r_trim_at value (pos n) = shown_front (take n value)
r_trim_at value (negsuc n) = value

unfoldable pub r_trim : List ℕ → List ℕ
r_trim value = r_trim_at value (int32 (length value))

unfoldable pub trim : List ℕ → List ℕ
trim value = r_trim (l_trim value)

-- An entry of the map that mapping makes from a part that is not empty.
pub entry : List ℕ → Bool → List ℕ → List ℕ × List ℕ
entry separator trim_strings part = elim (find separator part) [
  | some i ↦
      if trim_strings
      then (trim (take i part), trim (drop (i + 1) part))
      else (take i part, drop (i + 1) part)
  | none ↦ if trim_strings then (trim part, []) else (part, [])
]

-- The assignments `result[key] = value` of mapping, in order.
pub assignments : List ℕ → Bool → List (List ℕ) → List (List ℕ × List ℕ)
assignments separator trim_strings [] = []
assignments separator trim_strings (part ∷ parts) =
    let rest = assignments separator trim_strings parts in
    if length part == 0 then rest else entry separator trim_strings part ∷ rest

pub mapping : List ℕ → (separator1 separator2 : List ℕ) → Bool → Option (List (List ℕ × List ℕ))
mapping text separator1 separator2 trim_strings =
    split text separator1 >>= λ pairs. some (assignments separator2 trim_strings pairs)
