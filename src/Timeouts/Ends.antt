-- ===== src/Timeouts/Ends.antt =====
-- Neighbours when a number joins a list at its end or leaves it.
use gsdm.Base.{
  ℕ, ◌≡◌, refl, sym, ap, ◌∙◌, Bool, true, false, Option, none, some, List, [], ◌∷◌, ◌++◌, inl, inr,
  Bool-cases, subst, ◌==◌, ==_iff, if◌then◌else◌,
}
use gsdm.Base.Order.{
  mem, Distinct, first_or, last_or, behind, ahead, is, mem-append, behind-append, ahead-append,
  behind_out, ahead_out, behind_end, ahead_start, last_out, clash,
}
use gsdm.Base.Distinct.{Distinct-front, middle_front, middle_back, sides_apart, first_out, mem_join}

pub either {ℓ} : {A : Type ℓ} (b : Bool) (v : A) → (if b then v else v) ≡ v
either true v = refl
either false v = refl

mem_or : (a b : Bool) → (if a then true else b) ≡ (if b then true else a)
mem_or true true = refl
mem_or true false = refl
mem_or false true = refl
mem_or false false = refl

-- A number that is not in a list differs from one that is.
apart_of : (a b : ℕ) (xs : List ℕ) → mem a xs ≡ false → mem b xs ≡ true → a == b ≡ false
apart_of a b xs out h = elim (Bool-cases (a == b)) [
  | inl same ↦ clash h (subst (λ c. mem c xs ≡ false) ((==_iff a b).0 same) out)
  | inr apart ↦ apart
]

pub behind_added :
    (x : ℕ) (xs : List ℕ) (a b : ℕ)
    → Distinct (x ∷ xs)
    → (if is (last_or none (x ∷ xs)) b then some a else behind none (x ∷ xs) b)
      ≡ behind none (x ∷ xs ++ a ∷ []) b
behind_added x xs a b d = elim (Bool-cases (mem b (x ∷ xs))) [
  | inl h ↦ sym (
      behind-append none (x ∷ xs) (a ∷ []) b
      ∙ rw h (behind_end (some a) none none (x ∷ xs) b refl d))
  | inr out ↦ sym (
      behind-append none (x ∷ xs) (a ∷ []) b
      ∙ rw (out, last_out none (x ∷ xs) b refl out, behind_out none (x ∷ xs) b out)
          (either (a == b) none))
]

pub ahead_added :
    (p : Option ℕ) (x : ℕ) (xs : List ℕ) (a b : ℕ)
    → mem a (x ∷ xs) ≡ false
    → (if a == b then last_or p (x ∷ xs) else ahead p (x ∷ xs) b) ≡ ahead p (x ∷ xs ++ a ∷ []) b
ahead_added p x xs a b out = elim (Bool-cases (mem b (x ∷ xs))) [
  | inl h ↦ rw (apart_of a b (x ∷ xs) out h) (sym (ahead-append p (x ∷ xs) (a ∷ []) b ∙ rw h refl))
  | inr free ↦
      rw (ahead_out p (x ∷ xs) b free) (sym (ahead-append p (x ∷ xs) (a ∷ []) b ∙ rw free refl))
]

pub mem_added : (xs : List ℕ) (a b : ℕ) → (if a == b then true else mem b xs) ≡ mem b (xs ++ a ∷ [])
mem_added xs a b =
    mem_or (a == b) (mem b xs)
    ∙ sym (mem-append b xs (a ∷ []) ∙ ap (λ c. if mem b xs then true else c) (tail_of (a == b)))
  where
    tail_of : (c : Bool) → (if c then true else false) ≡ c
    tail_of true = refl
    tail_of false = refl

module _ (ys : List ℕ) (a : ℕ) (zs : List ℕ) (d : Distinct (ys ++ a ∷ zs)) where
  gone : (b : ℕ) → a == b ≡ true → mem b (ys ++ zs) ≡ false
  gone b same =
      subst (λ c. mem c (ys ++ zs) ≡ false) ((==_iff a b).0 same)
        (mem_join a ys zs (middle_front ys a zs d) (middle_back ys a zs d))

  pub behind_removed :
      (b : ℕ)
      → (if a == b
          then none
          else if is (last_or none ys) b
          then first_or none zs
          else behind none (ys ++ a ∷ zs) b)
        ≡ behind none (ys ++ zs) b
  behind_removed b = elim (Bool-cases (a == b)) [
    | inl same ↦ rw same (sym (behind_out none (ys ++ zs) b (gone b same)))
    | inr apart ↦
        rw (apart, behind-append none ys (a ∷ zs) b, behind-append none ys zs b)
          (elim (Bool-cases (mem b ys)) [
            | inl h ↦
                rw
                  (
                    h,
                    behind_end (some a) (first_or none zs) none ys b refl
                        (Distinct-front ys (a ∷ zs) d),
                  )
                  (ends b)
            | inr out ↦ rw (out, last_out none ys b refl out, apart) refl
          ])
  ]
    where
      ends :
          (b : ℕ)
          → (if is (last_or none ys) b
              then first_or none zs
              else if is (last_or none ys) b
              then some a
              else behind (first_or none zs) ys b)
            ≡ behind (first_or none zs) ys b
      ends b = elim (Bool-cases (is (last_or none ys) b)) [
        | inl last ↦ rw last (
            sym (
              behind_end (first_or none zs) none none ys b refl (Distinct-front ys (a ∷ zs) d)
              ∙ rw last refl))
        | inr before ↦ rw before refl
      ]

  pub ahead_removed :
      (b : ℕ)
      → (if a == b
          then none
          else if is (first_or none zs) b
          then last_or none ys
          else ahead none (ys ++ a ∷ zs) b)
        ≡ ahead none (ys ++ zs) b
  ahead_removed b = elim (Bool-cases (a == b)) [
    | inl same ↦ rw same (sym (ahead_out none (ys ++ zs) b (gone b same)))
    | inr apart ↦
        rw (apart, ahead-append none ys (a ∷ zs) b, ahead-append none ys zs b)
          (elim (Bool-cases (mem b ys)) [
            | inl h ↦ rw (h, first_out zs b (sides_apart ys a zs b d h)) refl
            | inr out ↦ rw (out, apart) (sym (ahead_start (last_or none ys) (some a) zs b))
          ])
  ]

  pub mem_removed : (b : ℕ) → (if a == b then false else mem b (ys ++ a ∷ zs)) ≡ mem b (ys ++ zs)
  mem_removed b = elim (Bool-cases (a == b)) [
    | inl same ↦ rw same (sym (gone b same))
    | inr apart ↦ rw (apart, mem-append b ys (a ∷ zs), mem-append b ys zs, apart) refl
  ]
