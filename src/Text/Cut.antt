-- ===== src/Text/Cut.antt =====
-- strstr on a C string, and the two strings that a 0 in the place found makes of it, as the
-- parsers of headers use them (sources/gsdm/src/protocols).
use Prim.Native.Char.{code}
use Prim.Native.String.{String}
use gsdm.Base.{
  ℕ, zero, suc, ◌+◌, ◌≤◌, arith, ◌≡◌, refl, sym, ap, ◌∙◌, Bool, true, false, Option, none, some,
  List, [], ◌∷◌, ◌++◌, ◌>>=◌, ◌==◌, ==_iff, if◌then◌else◌, length, take, drop, drop-drop,
}
use gsdm.Text.{starts_with, find}

-- The characters of a literal.
abbrev pub codes : String → List ℕ
codes String.[] = []
codes (String.◌∷◌ c s) = code c ∷ codes s

-- What stands in front of the first needle, and what behind it.
unfoldable pub cut_at : List ℕ → List ℕ → Option (List ℕ × List ℕ)
unfolding find
cut_at needle text = find needle text >>= λ i. some (take i text, drop (i + length needle) text)

-- The character does not occur.
abbrev pub Without : ℕ → List ℕ → Type 0
Without c [] = Unit {0}
Without c (x ∷ xs) = ((c == x) ≡ false) × Without c xs

starts_with_self : (needle rest : List ℕ) → starts_with needle (needle ++ rest) ≡ true
unfolding starts_with
starts_with_self [] rest = refl
starts_with_self (n ∷ ns) rest = rw ((==_iff n n).1 refl) (starts_with_self ns rest)

take_front : (a b : List ℕ) → take (length a) (a ++ b) ≡ a
take_front [] b = refl
take_front (x ∷ xs) b = ap (λ r. x ∷ r) (take_front xs b)

pub drop_front : (a b : List ℕ) → drop (length a) (a ++ b) ≡ b
drop_front [] b = refl
drop_front (x ∷ xs) b = drop_front xs b

drop_both : (a b rest : List ℕ) → drop (length a + length b) (a ++ (b ++ rest)) ≡ rest
drop_both a b rest =
    sym (drop-drop (length b) (length a) (a ++ (b ++ rest)))
    ∙ ap (drop (length b)) (drop_front a (b ++ rest))
    ∙ drop_front b rest

length-take_le : (n : ℕ) (xs : List ℕ) → length (take n xs) ≤ length xs
length-take_le zero xs = omega arith
length-take_le (suc n) [] = omega arith
length-take_le (suc n) (x ∷ xs) = omega (arith, length-take_le n xs)

pair : {a a' b b' : List ℕ} → a ≡ a' → b ≡ b' → ◌≡◌ {A = List ℕ × List ℕ} (a, b) (a', b')
pair p q = cc

-- What stands in front of the needle, if it was found, begins with this character, with no more than `n`
-- behind it.
abbrev pub FrontIs : ℕ → ℕ → Option (List ℕ × List ℕ) → Type 0
FrontIs x n none = Unit {0}
FrontIs x n (some (front, rest)) = (more : List ℕ) × ((front ≡ x ∷ more) × (length more ≤ n))

module _ (c : ℕ) (cs : List ℕ) where
  abbrev needle : List ℕ
  needle = c ∷ cs

  find-behind :
      (a rest : List ℕ) → Without c a → find needle (a ++ (needle ++ rest)) ≡ some (length a)
  unfolding find starts_with
  find-behind [] rest h = rw (starts_with_self needle rest) refl
  find-behind (x ∷ xs) rest (other, h) = rw (other, find-behind xs rest h) refl

  pub find-Without : (a : List ℕ) → Without c a → find needle a ≡ none
  unfolding find starts_with
  find-Without [] h = refl
  find-Without (x ∷ xs) (other, h) = rw (other, find-Without xs h) refl

  -- A text is cut at the first needle, if what stands in front has not even its first character.
  pub cut_at-append :
      (a rest : List ℕ) → Without c a → cut_at needle (a ++ (needle ++ rest)) ≡ some (a, rest)
  unfolding cut_at
  cut_at-append a rest h =
      rw (find-behind a rest h)
        (ap some (pair (take_front a (needle ++ rest)) (drop_both a needle rest)))

  pub cut_at-Without : (a : List ℕ) → Without c a → cut_at needle a ≡ none
  unfolding cut_at
  cut_at-Without a h = rw (find-Without a h) refl

  -- A character in front that does not begin the needle stays in front.
  pub cut_at-FrontIs :
      (x : ℕ) (xs : List ℕ) → (c == x) ≡ false → FrontIs x (length xs) (cut_at needle (x ∷ xs))
  unfolding cut_at find starts_with
  cut_at-FrontIs x xs other = rw other (front (find needle xs))
    where
      front :
          (o : Option ℕ)
          → FrontIs x (length xs) (
              ◌>>=◌ {B = List ℕ × List ℕ}
                (o >>= λ i. some (suc i))
                (λ i. some (take i (x ∷ xs), drop (i + length needle) (x ∷ xs))))
      front none = tt
      front (some i) = (take i xs, (refl, length-take_le i xs))

pub Without-append : (c : ℕ) (xs ys : List ℕ) → Without c xs → Without c ys → Without c (xs ++ ys)
Without-append c [] ys hx hy = hy
Without-append c (x ∷ xs) ys (h, hx) hy = (h, Without-append c xs ys hx hy)

-- The test for it, which a literal passes by evaluation.
abbrev pub is_without : ℕ → List ℕ → Bool
is_without c [] = true
is_without c (x ∷ xs) = let rest = is_without c xs in if c == x then false else rest

split_test : (b r : Bool) → (if b then false else r) ≡ true → (b ≡ false) × (r ≡ true)
split_test true r h = cc
split_test false r h = (refl, h)

pub Without-of : (c : ℕ) (xs : List ℕ) → is_without c xs ≡ true → Without c xs
Without-of c [] h = tt
Without-of c (x ∷ xs) h =
    let (other, rest) = split_test (c == x) (is_without c xs) h in (other, Without-of c xs rest)
