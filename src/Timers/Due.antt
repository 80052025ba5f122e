-- ===== src/Timers/Due.antt =====
-- Which slots are due (sources/gsdm/src/utils/timersmanager.cpp).
use gsdm.Base.{
  ℕ, ◌-◌, ◌^◌, ◌<◌, ◌≡◌, refl, ap, false, List, [], ◌∷◌, arith, inl, inr, ltb, leb, leb→le, leb→lt,
  lt→leb, le→ltb, if◌then◌else◌, Bool-cases, u32,
}
use gsdm.Timers.{Timer, Slot, insert}
use gsdm.Timers.Order.{AllFrom}

-- The slots that are due at the time `now`, and the others.
abbrev pub due : ℕ → List Slot → List Slot
due now [] = []
due now (s ∷ ss) = let rest = due now ss in if leb s.due now then s ∷ rest else rest

abbrev pub later : ℕ → List Slot → List Slot
later now [] = []
later now (s ∷ ss) = let rest = later now ss in if leb s.due now then rest else s ∷ rest

abbrev pub insert_all : List Slot → List Slot → List Slot
insert_all [] ss = ss
insert_all (x ∷ xs) ss = insert_all xs (insert x ss)

-- Milliseconds until the first slot is due, or 1000.
abbrev pub wait : ℕ → List Slot → ℕ
wait now [] = 1000
wait now (s ∷ ss) = u32 (s.due - now)

-- Each period is positive, and fits its uint32_t; each key fits the uint64_t.
abbrev pub Periodic : List Slot → Type 0
Periodic [] = Unit {0}
Periodic (s ∷ ss) =
    ((0 < s.timer.period) × ((s.timer.period < 2 ^ 32) × (s.due < 2 ^ 64))) × Periodic ss

abbrev pub timers : List Slot → List Timer
timers [] = []
timers (s ∷ ss) = s.timer ∷ timers ss

abbrev pub IsLater : ℕ → Slot → Type 0
IsLater now x = leb x.due now ≡ false

pub due-insert :
    (now : ℕ) (x : Slot) (ss : List Slot) → IsLater now x → due now (insert x ss) ≡ due now ss
unfolding insert
due-insert now x [] h = rw h refl
due-insert now x (s ∷ ss) h = elim (Bool-cases (ltb x.due s.due)) [
  | inl before ↦ rw (before, h) refl
  | inr behind ↦ rw (behind, due-insert now x ss h) refl
]

pub later-insert :
    (now : ℕ) (x : Slot) (ss : List Slot)
    → IsLater now x
    → later now (insert x ss) ≡ insert x (later now ss)
unfolding insert
later-insert now x [] h = rw h refl
later-insert now x (s ∷ ss) h = elim (Bool-cases (leb s.due now)) [
  | inl ready ↦
      let behind : ltb x.due s.due ≡ false =
        le→ltb _ _ (omega (arith, leb→le _ _ ready, leb→lt _ _ h)) in
      rw (behind, ready) (later-insert now x ss h)
  | inr not_ready ↦ elim (Bool-cases (ltb x.due s.due)) [
    | inl before ↦ simp (before, not_ready, h)
    | inr behind ↦ simp (behind, not_ready, later-insert now x ss h)
  ]
]

pub insert-Periodic :
    (x : Slot) (ss : List Slot)
    → (0 < x.timer.period) × ((x.timer.period < 2 ^ 32) × (x.due < 2 ^ 64))
    → Periodic ss
    → Periodic (insert x ss)
unfolding insert
insert-Periodic x [] h p = (h, tt)
insert-Periodic x (s ∷ ss) h (q, p) = elim (Bool-cases (ltb x.due s.due)) [
  | inl before ↦ rw before (h, (q, p))
  | inr behind ↦ rw behind (q, insert-Periodic x ss h p)
]

-- Sorted slots of which the first is not due have none that is.
pub none_due :
    (now k : ℕ) (ss : List Slot) → now < k → AllFrom k ss → (due now ss ≡ []) × (later now ss ≡ ss)
none_due now k [] h a = (refl, refl)
none_due now k (s ∷ ss) h (le, a) =
    let not_due : leb s.due now ≡ false = lt→leb _ _ (omega arith) in
    let rest = none_due now k ss h a in (rw not_due rest.0, rw not_due (ap (λ r. s ∷ r) rest.1))
