-- ===== src/Headers/Maps.antt =====
-- The maps of strings (std::unordered_map) that the protocols keep: a value for each key, the
-- order of the entries is any.
use gsdm.Base.{
  ℕ, ◌≡◌, refl, ap, ◌∙◌, Bool, true, false, Option, none, some, List, [], ◌∷◌, inl, inr, Bool-cases,
  ◌==◌, ==_iff, if◌then◌else◌,
}
use gsdm.Base.Bytes.{first_holds}

unfoldable pub same_text : List ℕ → List ℕ → Bool
same_text [] [] = true
same_text [] (y ∷ ys) = false
same_text (x ∷ xs) [] = false
same_text (x ∷ xs) (y ∷ ys) = let rest = same_text xs ys in if x == y then rest else false

abbrev pub Dict : Type 0
Dict = List (List ℕ × List ℕ)

-- `map[key] = value`
unfoldable pub set : List ℕ → List ℕ → Dict → Dict
set key value [] = (key, value) ∷ []
set key value ((k, v) ∷ d) =
    let rest = set key value d in if same_text key k then (key, value) ∷ d else (k, v) ∷ rest

unfoldable pub get : List ℕ → Dict → Option (List ℕ)
get key [] = none
get key ((k, v) ∷ d) = let rest = get key d in if same_text key k then some v else rest

-- What `map[key]` yields as a value: a key that is not there gets the empty string.
pub get_or_empty : List ℕ → Dict → List ℕ
get_or_empty key d = elim (get key d) [ none ↦ [] | some v ↦ v ]

pub same_text_self : (xs : List ℕ) → same_text xs xs ≡ true
unfolding same_text
same_text_self [] = refl
same_text_self (x ∷ xs) = rw ((==_iff x x).1 refl) (same_text_self xs)

pub same_text_eq : (xs ys : List ℕ) → same_text xs ys ≡ true → xs ≡ ys
unfolding same_text
same_text_eq [] [] h = refl
same_text_eq [] (y ∷ ys) h = cc
same_text_eq (x ∷ xs) [] h = cc
same_text_eq (x ∷ xs) (y ∷ ys) h =
    let (same, rest) = first_holds (x == y) (same_text xs ys) h in
    ap (λ a. a ∷ xs) ((==_iff x y).0 same) ∙ ap (λ r. y ∷ r) (same_text_eq xs ys rest)

overwritten :
    {A : Type 0} (x y z : A) (b : Bool)
    → (if b then x else z) ≡ (if b then x else if b then y else z)
overwritten x y z true = refl
overwritten x y z false = refl

-- Reading behind an assignment.
pub get-set :
    (key k v : List ℕ) (d : Dict)
    → get key (set k v d) ≡ (if same_text key k then some v else get key d)
unfolding set get
get-set key k v [] = refl
get-set key k v ((j, w) ∷ d) = elim (Bool-cases (same_text k j)) [
  | inl same ↦ rw (same_text_eq k j same, same_text_self j) (overwritten _ _ _ (same_text key j))
  | inr other ↦
      rw (other, get-set key k v d)
        (elim (Bool-cases (same_text key k)) [
          | inr apart ↦ rw apart refl
          | inl here ↦
              let away : same_text key j ≡ false = rw (same_text_eq key k here) other in
              rw (here, away) refl
        ])
]

-- The entries are assigned in order.
abbrev pub set_all : Dict → Dict → Dict
set_all [] d = d
set_all ((k, v) ∷ es) d = set_all es (set k v d)
