-- ===== src/Text/Trim.antt =====
-- trim (sources/gsdm/src/platform/linuxplatform.cpp) takes the blanks off both ends.
use gsdm.Base.{
  ℕ, ◌≡◌, refl, ap, ◌∙◌, true, false, ◌&&◌, List, [], ◌∷◌, ◌++◌, arith, inl, inr, Bool-cases, ◌==◌,
  if◌then◌else◌, length, length-append, ◌^◌, ◌<◌, ◌≤◌,
}
use gsdm.Base.Int.{int32_small}
use gsdm.Base.Slices.{take_all}
use gsdm.Text.{is_blank, l_trim, shown_front, r_trim, trim}

abbrev pub AllBlank : List ℕ → Type 0
AllBlank [] = Unit {0}
AllBlank (c ∷ cs) = (is_blank c ≡ true) × AllBlank cs

-- The first character is not blank.
abbrev pub StartsClean : List ℕ → Type 0
StartsClean [] = Unit {0}
StartsClean (c ∷ cs) = is_blank c ≡ false

-- The last character is not blank.
abbrev pub EndsClean : List ℕ → Type 0
EndsClean [] = Unit {0}
EndsClean (c ∷ []) = is_blank c ≡ false
EndsClean (c ∷ d ∷ cs) = EndsClean (d ∷ cs)

abbrev FrontOff : List ℕ → List ℕ → Type 0
FrontOff value kept = (front : List ℕ) × (AllBlank front × (front ++ kept ≡ value))

abbrev BackOff : List ℕ → List ℕ → Type 0
BackOff value kept = (back : List ℕ) × (AllBlank back × ((kept ++ back ≡ value) × EndsClean kept))

-- What is kept is the value less blanks at its ends, and has no blank at an end.
pub record Trimmed (value kept : List ℕ) : Type 0 where
  pub front : List ℕ
  pub back : List ℕ
  pub front_blank : AllBlank front
  pub back_blank : AllBlank back
  pub whole : front ++ (kept ++ back) ≡ value
  pub starts : StartsClean kept
  pub ends : EndsClean kept

l_trim-FrontOff : (value : List ℕ) → FrontOff value (l_trim value) × StartsClean (l_trim value)
unfolding l_trim
l_trim-FrontOff [] = (([], (tt, refl)), tt)
l_trim-FrontOff (c ∷ cs) = elim (Bool-cases (is_blank c)) [
  | inr clean ↦ rw clean (([], (tt, refl)), clean)
  | inl blank ↦
      let ((front, (blanks, e)), starts) = l_trim-FrontOff cs in
      rw blank ((c ∷ front, ((blank, blanks), ap (λ t. c ∷ t) e)), starts)
]

-- A character in front of what rTrim keeps of the rest.
abbrev put : ℕ → List ℕ → List ℕ
put c rest = if is_blank c && (length rest == 0) then [] else c ∷ rest

not_empty : (d : ℕ) (ds : List ℕ) → (length (d ∷ ds) == 0) ≡ false
not_empty d ds = ground arith

put-BackOff : (c : ℕ) (cs rest : List ℕ) → BackOff cs rest → BackOff (c ∷ cs) (put c rest)
put-BackOff c cs [] (back, (blanks, (e, ends))) = elim (Bool-cases (is_blank c)) [
  | inl blank ↦ rw blank (c ∷ back, ((blank, blanks), (ap (λ t. c ∷ t) e, tt)))
  | inr clean ↦ rw clean (back, (blanks, (ap (λ t. c ∷ t) e, clean)))
]
put-BackOff c cs (d ∷ ds) (back, (blanks, (e, ends))) = elim (Bool-cases (is_blank c)) [
  | inl blank ↦ rw (blank, not_empty d ds) (back, (blanks, (ap (λ t. c ∷ t) e, ends)))
  | inr clean ↦ rw clean (back, (blanks, (ap (λ t. c ∷ t) e, ends)))
]

shown_front-BackOff : (value : List ℕ) → BackOff value (shown_front value)
unfolding shown_front
shown_front-BackOff [] = ([], (tt, (refl, tt)))
shown_front-BackOff (c ∷ cs) = put-BackOff c cs (shown_front cs) (shown_front-BackOff cs)

shown_front-StartsClean : (value : List ℕ) → StartsClean value → StartsClean (shown_front value)
unfolding shown_front
shown_front-StartsClean [] h = tt
shown_front-StartsClean (c ∷ cs) h = rw h h

-- The length is an `int32_t`.
r_trim_small : (value : List ℕ) → length value < 2 ^ 31 → r_trim value ≡ shown_front value
unfolding r_trim
r_trim_small value small =
    rw (int32_small (length value) small)
      (ap shown_front (take_all (length value) value (omega arith)))

FrontOff-length : (value kept : List ℕ) → FrontOff value kept → length kept ≤ length value
FrontOff-length value kept (front, (blanks, e)) =
    omega (arith, ap length e, length-append {0} front kept)

-- trim of a value of fewer than 2 ^ 31 characters yields the value less the blanks at both ends: what it
-- takes off is blank, and what it keeps neither begins nor ends with a blank.
pub trim-Trimmed : (value : List ℕ) → length value < 2 ^ 31 → Trimmed value (trim value)
unfolding trim
trim-Trimmed value small =
    let (off, starts) = l_trim-FrontOff value in
    let (back, (back_blank, (e', ends))) = shown_front-BackOff (l_trim value) in
    let less = FrontOff-length value (l_trim value) off in
    rw (r_trim_small (l_trim value) (omega (arith, less, small))) (record {
      front = off.0;
      back = back;
      front_blank = off.1.0;
      back_blank = back_blank;
      whole = ap (λ t. off.0 ++ t) e' ∙ off.1.1;
      starts = shown_front-StartsClean (l_trim value) starts;
      ends = ends;
    })

-- A character in front that is not blank stays.
pub trim_clean :
    (c : ℕ) (cs : List ℕ)
    → is_blank c ≡ false
    → length (c ∷ cs) < 2 ^ 31
    → (rest : List ℕ) × (trim (c ∷ cs) ≡ c ∷ rest)
unfolding trim l_trim shown_front
trim_clean c cs clean small = (shown_front cs, rw (clean, r_trim_small (c ∷ cs) small, clean) refl)

pub hash_shown : is_blank 35 ≡ false
unfolding is_blank
hash_shown = refl
