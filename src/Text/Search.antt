-- ===== src/Text/Search.antt =====
-- std::string::find, as sources/gsdm/src/platform/linuxplatform.cpp uses it.
use gsdm.Base.{
  ℕ, zero, suc, ◌+◌, ◌≡◌, refl, sym, ap, ◌∙◌, Bool, true, false, Option, none, some, List, [], ◌∷◌,
  ◌++◌, ◌>>=◌, arith, inl, inr, Bool-cases, ◌==◌, ==_iff, if◌then◌else◌, length, take, drop,
}
use gsdm.Base.Bytes.{first_holds}
use gsdm.Text.{starts_with, find}

-- A text that begins with the needle is the needle and the rest.
pub starts_with_lem :
    (needle text : List ℕ)
    → starts_with needle text ≡ true
    → text ≡ needle ++ drop (length needle) text
unfolding starts_with
starts_with_lem [] text h = refl
starts_with_lem (n ∷ ns) [] h = cc
starts_with_lem (n ∷ ns) (c ∷ cs) h =
    let (same, rest) = first_holds (n == c) (starts_with ns cs) h in
    ap (λ x. x ∷ cs) (sym ((==_iff n c).0 same)) ∙ ap (λ r. n ∷ r) (starts_with_lem ns cs rest)

rest_fails : (b r : Bool) → (if b then r else false) ≡ false → b ≡ true → r ≡ false
rest_fails true r h e = h
rest_fails false r h e = cc

pub starts_with-take :
    (k : ℕ) (needle text : List ℕ)
    → starts_with needle text ≡ false
    → starts_with needle (take k text) ≡ false
unfolding starts_with
starts_with-take zero [] text h = h
starts_with-take (suc k) [] text h = h
starts_with-take zero (n ∷ ns) text h = refl
starts_with-take (suc k) (n ∷ ns) [] h = refl
starts_with-take (suc k) (n ∷ ns) (c ∷ cs) h = elim (Bool-cases (n == c)) [
  | inr other ↦ rw other refl
  | inl same ↦ rw same (starts_with-take k ns cs (rest_fails (n == c) _ h same))
]

-- The needle stands at `i`, and not in what is in front of it.
pub record At (needle text : List ℕ) (i : ℕ) : Type 0 where
  pub parts : take i text ++ (needle ++ drop (i + length needle) text) ≡ text
  pub free : find needle (take i text) ≡ none

abbrev pub Found : List ℕ → List ℕ → Option ℕ → Type 0
Found needle text none = Unit {0}
Found needle text (some i) = At needle text i

module _ (n : ℕ) (ns : List ℕ) where
  abbrev needle : List ℕ
  needle = n ∷ ns

  needle_in_front : (text : List ℕ) → starts_with needle text ≡ true → At needle text 0
  unfolding find starts_with
  needle_in_front text h =
      let start : length needle ≡ 0 + length needle = omega arith in
      record {
        parts = ap (λ k. needle ++ drop k text) (sym start) ∙ sym (starts_with_lem needle text h);
        free = refl;
      }

  needle_behind :
      (c : ℕ) (cs : List ℕ) (k : ℕ)
      → starts_with needle (c ∷ cs) ≡ false
      → At needle cs k
      → At needle (c ∷ cs) (suc k)
  unfolding find
  needle_behind c cs k h at =
      let shift : suc k + length needle ≡ suc (k + length needle) = omega arith in
      record {
        parts =
            ap (λ j. c ∷ (take k cs ++ (needle ++ drop j (c ∷ cs)))) shift
            ∙ ap (λ t. c ∷ t) at.parts;
        free = rw (starts_with-take (suc k) needle (c ∷ cs) h, at.free) refl;
      }

  not_first :
      (c : ℕ) (cs : List ℕ) (o : Option ℕ)
      → starts_with needle (c ∷ cs) ≡ false
      → Found needle cs o
      → Found needle (c ∷ cs) (o >>= λ i. some (suc i))
  not_first c cs none h found = tt
  not_first c cs (some k) h found = needle_behind c cs k h found

  -- find yields a place of the needle, the first one.
  pub find-Found : (text : List ℕ) → Found needle text (find needle text)
  unfolding find starts_with
  find-Found [] = tt
  find-Found (c ∷ cs) = elim (Bool-cases (starts_with needle (c ∷ cs))) [
    | inl here ↦ rw here (needle_in_front (c ∷ cs) here)
    | inr not_here ↦ rw not_here (not_first c cs (find needle cs) not_here (find-Found cs))
  ]
