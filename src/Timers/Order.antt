-- ===== src/Timers/Order.antt =====
-- The order of the slots (sources/gsdm/src/utils/timersmanager.cpp).
use gsdm.Base.{ℕ, ◌≤◌, List, [], ◌∷◌, arith, inl, inr, ltb, ltb→lt, ltb→le, Bool-cases}
use gsdm.Timers.{Slot, insert}

-- No slot is due before `k`.
abbrev pub AllFrom : ℕ → List Slot → Type 0
AllFrom k [] = Unit {0}
AllFrom k (s ∷ ss) = (k ≤ s.due) × AllFrom k ss

abbrev pub Sorted : List Slot → Type 0
Sorted [] = Unit {0}
Sorted (s ∷ ss) = AllFrom s.due ss × Sorted ss

pub AllFrom-mono : {j k : ℕ} (ss : List Slot) → j ≤ k → AllFrom k ss → AllFrom j ss
AllFrom-mono [] h a = tt
AllFrom-mono (s ∷ ss) h (le, a) = (omega arith, AllFrom-mono ss h a)

pub insert-AllFrom :
    {k : ℕ} (x : Slot) (ss : List Slot) → k ≤ x.due → AllFrom k ss → AllFrom k (insert x ss)
unfolding insert
insert-AllFrom x [] h a = (h, tt)
insert-AllFrom x (s ∷ ss) h (le, a) = elim (Bool-cases (ltb x.due s.due)) [
  | inl before ↦ rw before (h, (le, a))
  | inr behind ↦ rw behind (le, insert-AllFrom x ss h a)
]

pub insert-Sorted : (x : Slot) (ss : List Slot) → Sorted ss → Sorted (insert x ss)
unfolding insert
insert-Sorted x [] h = (tt, tt)
insert-Sorted x (s ∷ ss) (a, h) = elim (Bool-cases (ltb x.due s.due)) [
  | inl before ↦
      let le : x.due ≤ s.due = omega (arith, ltb→lt _ _ before) in
      rw before ((le, AllFrom-mono ss le a), (a, h))
  | inr behind ↦ rw behind (insert-AllFrom x ss (ltb→le _ _ behind) a, insert-Sorted x ss h)
]
