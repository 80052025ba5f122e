-- ===== src/Config/Lines.antt =====
-- The lines of a file of settings, as they are written and as GsdmConfig
-- (sources/gsdm/src/utils/gsdmconfig.cpp) reads them.
use gsdm.Base.{
  ℕ, ◌<◌, ◌≤◌, ◌≡◌, zero, suc, refl, true, false, Option, none, some, List, [], ◌∷◌, ◌++◌, length,
  length-append, arith,
}
use gsdm.Text.{trim}
use gsdm.Text.Trim.{trim_clean, hash_shown}
use gsdm.Text.Cut.{cut_at, Without, cut_at-append, cut_at-Without, FrontIs, cut_at-FrontIs}
use gsdm.Base.Distinct.{==_sym}
use gsdm.Url.RoundTrip.{NonZero, until_zero-NonZero}
use gsdm.Headers.Maps.{Dict, set}
use gsdm.Config.{
  holding, equals, take_line, read_line, is_skipped, set_entry, set_line, read_lines, initialize,
}

-- A remark, a value in quotes, or a plain value, with a remark behind it or none.
pub data Line : Type 0 where
  remark : List ℕ → Line
  quoted : (key before value behind : List ℕ) → Line
  plain : (key value behind : List ℕ) → Line
  bare : (key value : List ℕ) → Line

abbrev pub line_text : Line → List ℕ
line_text (remark text) = 35 ∷ text
line_text (quoted key before value behind) =
    key ++ (61 ∷ (before ++ (34 ∷ (value ++ (34 ∷ behind)))))
line_text (plain key value behind) = key ++ (61 ∷ (value ++ (35 ∷ behind)))
line_text (bare key value) = key ++ (61 ∷ value)

abbrev pub file_text : List Line → List ℕ
file_text [] = []
file_text (l ∷ ls) = line_text l ++ (10 ∷ file_text ls)

-- What the line sets: the blanks around a key and a plain value go, those within quotes stay.
abbrev pub assigned : Line → Dict → Dict
assigned (remark text) d = d
assigned (quoted key before value behind) d = set (trim key) value d
assigned (plain key value behind) d = set (trim key) (trim value) d
assigned (bare key value) d = set (trim key) (trim value) d

abbrev pub all_assigned : List Line → Dict → Dict
all_assigned [] d = d
all_assigned (l ∷ ls) d = all_assigned ls (assigned l d)

-- The key is not empty, begins with no hash, and has no equals sign; quotes stand around a value only, and
-- a plain value has no hash.
abbrev pub IsClear : Line → Type 0
IsClear (remark text) = Unit {0}
IsClear (quoted key before value behind) =
    (is_skipped (trim key) ≡ false) × (Without 61 key × (Without 34 before × Without 34 value))
IsClear (plain key value behind) =
    (is_skipped (trim key) ≡ false)
    × (Without 61 key × (Without 34 (value ++ (35 ∷ behind)) × Without 35 value))
IsClear (bare key value) =
    (is_skipped (trim key) ≡ false) × (Without 61 key × (Without 34 value × Without 35 value))

-- The line is one line: no line end, no 0, and it fits the array.
abbrev pub IsLine : List ℕ → Type 0
IsLine text = Without 10 text × (NonZero text × (length text ≤ 4095))

abbrev pub Written : List Line → Type 0
Written [] = Unit {0}
Written (l ∷ ls) = (IsClear l × IsLine (line_text l)) × Written ls

take_line-Without :
    (room : ℕ) (text rest : List ℕ)
    → Without 10 text
    → length text ≤ room
    → take_line room (text ++ (10 ∷ rest)) ≡ some (text, rest)
unfolding take_line
take_line-Without zero [] rest w h = refl
take_line-Without (suc room) [] rest w h = refl
take_line-Without zero (c ∷ cs) rest w h = absurd (omega (arith, h))
take_line-Without (suc room) (c ∷ cs) rest (other, w) h =
    rw (==_sym 10 c other, take_line-Without room cs rest w (omega (arith, h))) refl

read_line-Without :
    (text rest : List ℕ) → IsLine text → read_line 4095 (text ++ (10 ∷ rest)) ≡ some (text, rest)
read_line-Without [] rest (w, (z, h)) = take_line-Without 4095 [] rest w h
read_line-Without (c ∷ cs) rest (w, (z, h)) = take_line-Without 4095 (c ∷ cs) rest w h

-- A text that begins with a hash still does when it is trimmed.
set_entry-remark :
    (d : Dict) (o : Option (List ℕ × List ℕ)) (n : ℕ)
    → n < 4095
    → FrontIs 35 n o
    → set_entry d o ≡ d
set_entry-remark d none n small h = refl
set_entry-remark d (some (key, text)) n small (more, (e, short)) =
    let (rest, trimmed) = trim_clean 35 more hash_shown (omega (arith, small, short)) in
    rw (e, trimmed) refl

set_line-assigned :
    (l : Line) (d : Dict)
    → IsClear l
    → IsLine (line_text l)
    → set_line (line_text l) d ≡ assigned l d
unfolding set_line
set_line-assigned (remark text) d c (w, (z, h)) = rw (until_zero-NonZero (35 ∷ text) z) (
    set_entry-remark d (cut_at equals (35 ∷ text)) (length text) (omega (arith, h))
      (cut_at-FrontIs 61 [] 35 text refl))
set_line-assigned (quoted key before value behind) d (shown, (k, (b, v))) (w, (z, h)) =
    rw
      (
        until_zero-NonZero (line_text (quoted key before value behind)) z,
        cut_at-append 61 [] key (before ++ (34 ∷ (value ++ (34 ∷ behind)))) k,
        shown,
        cut_at-append 34 [] before (value ++ (34 ∷ behind)) b,
        cut_at-append 34 [] value behind v,
      )
      refl
set_line-assigned (plain key value behind) d (shown, (k, (q, v))) (w, (z, h)) =
    rw
      (
        until_zero-NonZero (line_text (plain key value behind)) z,
        cut_at-append 61 [] key (value ++ (35 ∷ behind)) k,
        shown,
        cut_at-Without 34 [] (value ++ (35 ∷ behind)) q,
        cut_at-append 35 [] value behind v,
      )
      refl
set_line-assigned (bare key value) d (shown, (k, (q, v))) (w, (z, h)) =
    rw
      (
        until_zero-NonZero (line_text (bare key value)) z,
        cut_at-append 61 [] key value k,
        shown,
        cut_at-Without 34 [] value q,
        cut_at-Without 35 [] value v,
      )
      refl

read_lines-all_assigned :
    (fuel : ℕ) (ls : List Line) (d : Dict)
    → Written ls
    → length (file_text ls) < fuel
    → read_lines fuel (file_text ls) d ≡ some (all_assigned ls d)
unfolding read_lines
read_lines-all_assigned zero ls d w h = absurd (omega (arith, h))
read_lines-all_assigned (suc fuel) [] d w h = refl
read_lines-all_assigned (suc fuel) (l ∷ ls) d ((c, t), w) h =
    rw (read_line-Without (line_text l) (file_text ls) t, set_line-assigned l d c t)
      (read_lines-all_assigned fuel ls (assigned l d) w
        (omega (arith, h, length-append (line_text l) (10 ∷ file_text ls))))

-- A file of settings is read as it is written: each line sets what it says, later lines over earlier ones,
-- and remarks set nothing.
pub initialize-file_text :
    (ls : List Line) (old : Dict)
    → Written ls
    → initialize (holding (file_text ls)) old ≡ some (all_assigned ls [], true)
unfolding initialize
initialize-file_text ls old w =
    rw (read_lines-all_assigned (suc (length (file_text ls))) ls [] w (omega arith)) refl
