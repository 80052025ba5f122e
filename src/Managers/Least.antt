-- ===== src/Managers/Least.antt =====
-- The loop of AddWorker (sources/gsdm/src/eventdrive/manager.cpp) for the processor with fewest workers.
use gsdm.Base.{
  ℕ, suc, ◌+◌, ◌<◌, ◌≤◌, ◌≡◌, refl, sym, ap, ◌∙◌, true, false, some, List, [], ◌∷◌, ◌++◌, ◌==◌,
  ==_iff, ltb, lt→ltb, ltb→lt, inl, inr, ◌⊎◌, Bool-cases, length, arith,
}
use gsdm.Base.Order.{mem, clash}
use gsdm.Managers.{int_max, least, increment}

-- A processor that is detached, or has one worker more than the least
abbrev pub High : ℕ → ℕ → Type 0
High low c = (c ≡ int_max) ⊎ (c ≡ suc low)

abbrev pub AllHigh : ℕ → List ℕ → Type 0
AllHigh low [] = Unit {0}
AllHigh low (c ∷ cs) = High low c × AllHigh low cs

abbrev pub AllNear : ℕ → List ℕ → Type 0
AllNear low [] = Unit {0}
AllNear low (c ∷ cs) = ((c ≡ low) ⊎ ((c ≡ int_max) ⊎ (c ≡ suc low))) × AllNear low cs

-- The first processor with `low` workers.
pub record Split (low : ℕ) (cs : List ℕ) : Type 0 where
  pub front : List ℕ
  pub back : List ℕ
  pub parts : cs ≡ front ++ low ∷ back
  pub high : AllHigh low front
  pub near : AllNear low back

High-other : (low c : ℕ) → High low c → low < int_max → c == low ≡ false
High-other low c (inl top) h = elim (Bool-cases (c == low)) [
  | inl here ↦ absurd (omega (arith, top, (==_iff c low).0 here, h))
  | inr other ↦ other
]
High-other low c (inr next) h = elim (Bool-cases (c == low)) [
  | inl here ↦ absurd (omega (arith, next, (==_iff c low).0 here))
  | inr other ↦ other
]

pub first_low :
    (low : ℕ) (cs : List ℕ) → low < int_max → AllNear low cs → mem low cs ≡ true → Split low cs
first_low low [] h near found = clash found refl
first_low low (c ∷ cs) h (inl here, near) found = record {
  front = [];
  back = cs;
  parts = ap (λ d. d ∷ cs) here;
  high = tt;
  near = near;
}
first_low low (c ∷ cs) h (inr high, near) found =
    let later = first_low low cs h near (sym (rw (High-other low c high h) refl) ∙ found) in
    record {
      front = c ∷ later.front;
      back = later.back;
      parts = ap (λ ds. c ∷ ds) later.parts;
      high = (high, later.high);
      near = later.near;
    }

least-back :
    (low : ℕ) (back : List ℕ) (i index : ℕ)
    → low < int_max
    → AllNear low back
    → least back low i index ≡ index
unfolding least
least-back low [] i index h near = refl
least-back low (c ∷ cs) i index h (n, near) = elim (Bool-cases (ltb c low)) [
  | inl less ↦ absurd (omega (arith, ltb→lt c low less, not_below n))
  | inr as_much ↦ rw as_much (least-back low cs (suc i) index h near)
]
  where
    not_below : (c ≡ low) ⊎ ((c ≡ int_max) ⊎ (c ≡ suc low)) → low ≤ c
    not_below (inl e) = omega (arith, e)
    not_below (inr (inl e)) = omega (arith, e, h)
    not_below (inr (inr e)) = omega (arith, e)

pub least-front :
    (low : ℕ) (front back : List ℕ) (min i index : ℕ)
    → low < int_max
    → low < min
    → AllHigh low front
    → AllNear low back
    → least (front ++ low ∷ back) min i index ≡ i + length front
unfolding least
least-front low [] back min i index h less high near =
    rw (least, lt→ltb low min less) (least-back low back (suc i) i h near ∙ zero_more i)
  where
    zero_more : (i : ℕ) → i ≡ i + 0
    zero_more i = omega arith
least-front low (c ∷ front) back min i index h less (first, high) near =
    elim (Bool-cases (ltb c min)) [
      | inl lower ↦
          rw (least, lower)
            (least-front low front back c (suc i) i h (above first) high near ∙ one_more)
      | inr not_lower ↦
          rw (least, not_lower)
            (least-front low front back min (suc i) index h less high near ∙ one_more)
    ]
  where
    above : High low c → low < c
    above (inl e) = omega (arith, e, h)
    above (inr e) = omega (arith, e)

    one_more : suc i + length front ≡ i + length (c ∷ front)
    one_more = omega arith

pub increment-front :
    (low : ℕ) (front back : List ℕ)
    → low < int_max
    → increment (front ++ low ∷ back) (length front) ≡ some (front ++ suc low ∷ back)
unfolding increment
increment-front low [] back h = rw (lt→ltb low int_max h) refl
increment-front low (c ∷ front) back h = rw (increment-front low front back h) refl
