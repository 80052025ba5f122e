-- ===== src/Timers/Endless.antt =====
-- TimeElapsedProcess (sources/gsdm/src/utils/timersmanager.cpp) and a timer without a period.
use gsdm.Base.{
  ℕ, zero, suc, ◌^◌, ◌≤◌, ◌<◌, ◌≡◌, refl, List, [], ◌∷◌, arith, inl, inr, ltb, le→leb, Bool-cases,
  ◌⊎◌,
}
use gsdm.Timers.{Timer, Slot, insert, reschedule, out_of_fuel, time_elapsed_process}
use gsdm.Timers.Order.{AllFrom, Sorted, insert-Sorted}

-- A slot that is due, of a timer whose period is 0.
abbrev Stuck : ℕ → Slot → Type 0
Stuck now s = (s.due ≤ now) × (s.timer.period ≡ 0)

abbrev pub HasStuck : ℕ → List Slot → Type 0
HasStuck now [] = 1 ≤ 0
HasStuck now (s ∷ ss) = Stuck now s ⊎ HasStuck now ss

insert-Stuck : (now : ℕ) (x : Slot) (ss : List Slot) → Stuck now x → HasStuck now (insert x ss)
unfolding insert
insert-Stuck now x [] h = inl h
insert-Stuck now x (s ∷ ss) h = elim (Bool-cases (ltb x.due s.due)) [
  | inl before ↦ rw before (inl h)
  | inr behind ↦ rw behind (inr (insert-Stuck now x ss h))
]

insert-HasStuck :
    (now : ℕ) (x : Slot) (ss : List Slot) → HasStuck now ss → HasStuck now (insert x ss)
unfolding insert
insert-HasStuck now x [] h = inr h
insert-HasStuck now x (s ∷ ss) h = elim (Bool-cases (ltb x.due s.due)) [
  | inl before ↦ rw before (inr h)
  | inr behind ↦
      rw behind (elim h [ inl here ↦ inl here | inr there ↦ inr (insert-HasStuck now x ss there) ])
]

-- The first slot of sorted ones is due if any is.
first_due : (now k : ℕ) (ss : List Slot) → AllFrom k ss → HasStuck now ss → k ≤ now
first_due now k [] a h = absurd (omega arith)
first_due now k (s ∷ ss) (le, a) (inl here) = omega (arith, here.0)
first_due now k (s ∷ ss) (le, a) (inr there) = first_due now k ss a there

reschedule-Stuck : (now : ℕ) (s : Slot) → now < 2 ^ 64 → Stuck now s → Stuck now (reschedule now s)
unfolding reschedule
reschedule-Stuck now s word (le, none) = (omega arith, none)

-- On slots in order, one of which is due and has a timer with the period 0, the loop of
-- TimeElapsedProcess never ends: no fuel is enough.
pub time_elapsed_process-endless :
    (fuel now : ℕ) (fired : List Timer) (ss : List Slot)
    → now < 2 ^ 64
    → Sorted ss
    → HasStuck now ss
    → time_elapsed_process fuel now fired ss ≡ out_of_fuel
unfolding time_elapsed_process
time_elapsed_process-endless zero now fired ss word sorted h = refl
time_elapsed_process-endless (suc fuel) now fired [] word sorted h = absurd (omega arith)
time_elapsed_process-endless (suc fuel) now fired (s ∷ ss) word (a, sorted) (inl here) =
    rw (le→leb _ _ here.0) (
      time_elapsed_process-endless fuel now _ (insert (reschedule now s) ss) word
        (insert-Sorted (reschedule now s) ss sorted)
        (insert-Stuck now (reschedule now s) ss (reschedule-Stuck now s word here)))
time_elapsed_process-endless (suc fuel) now fired (s ∷ ss) word (a, sorted) (inr there) =
    rw (le→leb _ _ (first_due now s.due ss a there)) (
      time_elapsed_process-endless fuel now _ (insert (reschedule now s) ss) word
        (insert-Sorted (reschedule now s) ss sorted)
        (insert-HasStuck now (reschedule now s) ss there))
