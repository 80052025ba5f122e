-- ===== src/Base/Order.antt =====
-- Neighbours in a list of numbers without repetition.
use mathlib.Core.Bool.{true≢false}
use gsdm.Base.{
  ℕ, ◌≡◌, refl, sym, ◌∙◌, Bool, true, false, Option, none, some, List, [], ◌∷◌, ◌++◌, inl, inr,
  Bool-cases, subst, ◌==◌, ==_iff, if◌then◌else◌,
}

abbrev pub mem : ℕ → List ℕ → Bool
mem a [] = false
mem a (x ∷ xs) = let rest = mem a xs in if x == a then true else rest

abbrev pub Distinct : List ℕ → Type 0
Distinct [] = Unit {0}
Distinct (x ∷ xs) = (mem x xs ≡ false) × Distinct xs

-- The first and the last number, or `e` if there is none.
abbrev pub first_or : Option ℕ → List ℕ → Option ℕ
first_or e [] = e
first_or e (x ∷ xs) = some x

abbrev pub last_or : Option ℕ → List ℕ → Option ℕ
last_or p [] = p
last_or p (x ∷ xs) = last_or (some x) xs

-- What stands behind and in front of a number; `e` and `p` stand at the ends.
abbrev pub behind : Option ℕ → List ℕ → ℕ → Option ℕ
behind e [] a = none
behind e (x ∷ xs) a = let rest = behind e xs a in if x == a then first_or e xs else rest

abbrev pub ahead : Option ℕ → List ℕ → ℕ → Option ℕ
ahead p [] a = none
ahead p (x ∷ xs) a = let rest = ahead (some x) xs a in if x == a then p else rest

pub mem-append : (a : ℕ) (xs ys : List ℕ) → mem a (xs ++ ys) ≡ (if mem a xs then true else mem a ys)
mem-append a [] ys = refl
mem-append a (x ∷ xs) ys = elim (Bool-cases (x == a)) [
  | inl same ↦ rw same refl
  | inr other ↦ rw other (mem-append a xs ys)
]

pub first_or-append :
    (e : Option ℕ) (xs ys : List ℕ) → first_or e (xs ++ ys) ≡ first_or (first_or e ys) xs
first_or-append e [] ys = refl
first_or-append e (x ∷ xs) ys = refl

pub last_or-append :
    (p : Option ℕ) (xs ys : List ℕ) → last_or p (xs ++ ys) ≡ last_or (last_or p xs) ys
last_or-append p [] ys = refl
last_or-append p (x ∷ xs) ys = last_or-append (some x) xs ys

pub behind-append :
    (e : Option ℕ) (xs ys : List ℕ) (a : ℕ)
    → behind e (xs ++ ys) a ≡ (if mem a xs then behind (first_or e ys) xs a else behind e ys a)
behind-append e [] ys a = refl
behind-append e (x ∷ xs) ys a = elim (Bool-cases (x == a)) [
  | inl same ↦ rw same (first_or-append e xs ys)
  | inr other ↦ rw other (behind-append e xs ys a)
]

pub ahead-append :
    (p : Option ℕ) (xs ys : List ℕ) (a : ℕ)
    → ahead p (xs ++ ys) a ≡ (if mem a xs then ahead p xs a else ahead (last_or p xs) ys a)
ahead-append p [] ys a = refl
ahead-append p (x ∷ xs) ys a = elim (Bool-cases (x == a)) [
  | inl same ↦ rw same refl
  | inr other ↦ rw other (ahead-append (some x) xs ys a)
]

-- A test does not both hold and fail.
pub clash {ℓ} : {A : Type ℓ} {b : Bool} → b ≡ true → b ≡ false → A
clash h k = absurd (true≢false (sym h ∙ k))

pub rest_true : (b r : Bool) → b ≡ false → (if b then true else r) ≡ true → r ≡ true
rest_true true r k h = clash refl k
rest_true false r k h = h

pub split_test : (b r : Bool) → (if b then true else r) ≡ false → (b ≡ false) × (r ≡ false)
split_test true r h = clash refl h
split_test false r h = (refl, h)

-- The head of a list and its rest, where a number is not in the list.
pub mem_tail :
    (x a : ℕ) (xs : List ℕ) → mem a (x ∷ xs) ≡ false → (x == a ≡ false) × (mem a xs ≡ false)
mem_tail x a xs = split_test (x == a) (mem a xs)

pub behind_out : (e : Option ℕ) (xs : List ℕ) (a : ℕ) → mem a xs ≡ false → behind e xs a ≡ none
behind_out e [] a h = refl
behind_out e (x ∷ xs) a h =
    let parts = mem_tail x a xs h in rw (parts.0) (behind_out e xs a (parts.1))

pub ahead_out : (p : Option ℕ) (xs : List ℕ) (a : ℕ) → mem a xs ≡ false → ahead p xs a ≡ none
ahead_out p [] a h = refl
ahead_out p (x ∷ xs) a h =
    let parts = mem_tail x a xs h in rw (parts.0) (ahead_out (some x) xs a (parts.1))

-- Whether an optional number is this one.
abbrev pub is : Option ℕ → ℕ → Bool
is none b = false
is (some a) b = a == b

pub last_out :
    (p : Option ℕ) (xs : List ℕ) (b : ℕ)
    → is p b ≡ false
    → mem b xs ≡ false
    → is (last_or p xs) b ≡ false
last_out p [] b other h = other
last_out p (x ∷ xs) b other h =
    let parts = mem_tail x b xs h in last_out (some x) xs b (parts.0) (parts.1)

first_end :
    (e f : Option ℕ) (x : ℕ) (xs : List ℕ) (b : ℕ)
    → x == b ≡ true
    → mem b xs ≡ false
    → first_or e xs ≡ (if is (last_or (some x) xs) b then e else first_or f xs)
first_end e f x [] b same h = rw same refl
first_end e f x (y ∷ ys) b same h =
    let parts = mem_tail y b ys h in rw (last_out (some y) ys b (parts.0) (parts.1)) refl

-- Only what stands behind the last number depends on the end.
pub behind_end :
    (e f p : Option ℕ) (xs : List ℕ) (b : ℕ)
    → is p b ≡ false
    → Distinct xs
    → behind e xs b ≡ (if is (last_or p xs) b then e else behind f xs b)
behind_end e f p [] b other d = rw other refl
behind_end e f p (x ∷ xs) b other d = elim (Bool-cases (x == b)) [
  | inl same ↦
      rw same
        (first_end e f x xs b same (subst (λ z. mem z xs ≡ false) ((==_iff x b).0 same) (d.0)))
  | inr apart ↦ rw apart (behind_end e f (some x) xs b apart (d.1))
]

-- Only what stands in front of the first number depends on the start.
pub ahead_start :
    (p q : Option ℕ) (xs : List ℕ) (b : ℕ)
    → ahead p xs b ≡ (if is (first_or none xs) b then p else ahead q xs b)
ahead_start p q [] b = refl
ahead_start p q (x ∷ xs) b = elim (Bool-cases (x == b)) [
  | inl same ↦ rw same refl
  | inr apart ↦ rw apart refl
]
