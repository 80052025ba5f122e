-- ===== src/Base/Distinct.antt =====
-- Lists of numbers without repetition, split and joined.
use gsdm.Base.{
  ℕ, ◌≡◌, refl, sym, ◌∙◌, true, false, none, List, [], ◌∷◌, ◌++◌, inl, inr, Bool-cases, subst, ◌==◌,
  ==_iff,
}
use gsdm.Base.Order.{
  mem, Distinct, mem-append, split_test, rest_true, clash, mem_tail, is, first_or,
}

pub mem_split :
    (a : ℕ) (ys zs : List ℕ) → mem a (ys ++ zs) ≡ false → (mem a ys ≡ false) × (mem a zs ≡ false)
mem_split a ys zs h = split_test (mem a ys) (mem a zs) (sym (mem-append a ys zs) ∙ h)

pub mem_join :
    (a : ℕ) (ys zs : List ℕ) → mem a ys ≡ false → mem a zs ≡ false → mem a (ys ++ zs) ≡ false
mem_join a ys zs h k = mem-append a ys zs ∙ rw h k

pub ==_sym : (a b : ℕ) → a == b ≡ false → b == a ≡ false
==_sym a b h = elim (Bool-cases (b == a)) [
  | inl same ↦ clash ((==_iff a b).1 (sym ((==_iff b a).0 same))) h
  | inr apart ↦ apart
]

pub Distinct-last : (xs : List ℕ) (a : ℕ) → Distinct xs → mem a xs ≡ false → Distinct (xs ++ a ∷ [])
Distinct-last [] a d h = (refl, d)
Distinct-last (x ∷ xs) a d h =
    let parts = mem_tail x a xs h in
    (
      mem_join x xs (a ∷ []) (d.0) (rw (==_sym x a (parts.0)) refl),
      Distinct-last xs a (d.1) (parts.1),
    )

pub Distinct-front : (ys zs : List ℕ) → Distinct (ys ++ zs) → Distinct ys
Distinct-front [] zs d = tt
Distinct-front (y ∷ ys) zs d = ((mem_split y ys zs (d.0)).0, Distinct-front ys zs (d.1))

-- Without the number in the middle.
pub Distinct-without :
    (ys : List ℕ) (a : ℕ) (zs : List ℕ) → Distinct (ys ++ a ∷ zs) → Distinct (ys ++ zs)
Distinct-without [] a zs d = d.1
Distinct-without (y ∷ ys) a zs d =
    let parts = mem_split y ys (a ∷ zs) (d.0) in
    (mem_join y ys zs (parts.0) ((mem_tail a y zs (parts.1)).1), Distinct-without ys a zs (d.1))

-- The number in the middle is on neither side.
pub middle_front : (ys : List ℕ) (a : ℕ) (zs : List ℕ) → Distinct (ys ++ a ∷ zs) → mem a ys ≡ false
middle_front [] a zs d = refl
middle_front (y ∷ ys) a zs d =
    let parts = mem_split y ys (a ∷ zs) (d.0) in
    rw (==_sym a y ((mem_tail a y zs (parts.1)).0)) (middle_front ys a zs (d.1))

pub middle_back : (ys : List ℕ) (a : ℕ) (zs : List ℕ) → Distinct (ys ++ a ∷ zs) → mem a zs ≡ false
middle_back [] a zs d = d.0
middle_back (y ∷ ys) a zs d = middle_back ys a zs (d.1)

-- A number on one side is not on the other.
pub sides_apart :
    (ys : List ℕ) (a : ℕ) (zs : List ℕ) (b : ℕ)
    → Distinct (ys ++ a ∷ zs)
    → mem b ys ≡ true
    → mem b zs ≡ false
sides_apart [] a zs b d h = clash h refl
sides_apart (y ∷ ys) a zs b d h = elim (Bool-cases (y == b)) [
  | inl same ↦
      let parts = mem_split y ys (a ∷ zs) (d.0) in
      subst (λ c. mem c zs ≡ false) ((==_iff y b).0 same) ((mem_tail a y zs (parts.1)).1)
  | inr apart ↦ sides_apart ys a zs b (d.1) (rest_true (y == b) (mem b ys) apart h)
]

pub first_out : (zs : List ℕ) (b : ℕ) → mem b zs ≡ false → is (first_or none zs) b ≡ false
first_out [] b h = refl
first_out (z ∷ zs) b h = (mem_tail z b zs h).0
