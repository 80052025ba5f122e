-- ===== src/Timers/Kept.antt =====
-- The slots that TimeElapsedProcess leaves (sources/gsdm/src/utils/timersmanager.cpp).
use gsdm.Base.{ℕ, suc, ◌+◌, ◌^◌, ◌≤◌, List, [], ◌∷◌, map, arith, inl, inr, leb, leb→lt, Bool-cases}
use gsdm.Timers.{Slot, insert, reschedule}
use gsdm.Timers.Order.{AllFrom, Sorted, insert-AllFrom, insert-Sorted}
use gsdm.Timers.Due.{due, later, insert_all, Periodic}
use gsdm.Timers.Elapsed.{remaining, reschedule-IsLater}

later-AllFrom : (now k : ℕ) (ss : List Slot) → AllFrom k ss → AllFrom k (later now ss)
later-AllFrom now k [] a = tt
later-AllFrom now k (s ∷ ss) (le, a) = elim (Bool-cases (leb s.due now)) [
  | inl ready ↦ rw ready (later-AllFrom now k ss a)
  | inr not_ready ↦ rw not_ready (le, later-AllFrom now k ss a)
]

later-Waiting :
    (now : ℕ) (ss : List Slot)
    → Sorted ss
    → Sorted (later now ss) × AllFrom (suc now) (later now ss)
later-Waiting now [] h = (tt, tt)
later-Waiting now (s ∷ ss) (a, h) =
    let rest = later-Waiting now ss h in
    elim (Bool-cases (leb s.due now)) [
      | inl ready ↦ rw ready rest
      | inr not_ready ↦
          let le : suc now ≤ s.due = omega (arith, leb→lt _ _ not_ready) in
          rw not_ready ((later-AllFrom now s.due ss a, rest.0), (le, rest.1))
    ]

insert_all-Waiting :
    (k : ℕ) (xs ss : List Slot)
    → AllFrom k xs
    → Sorted ss × AllFrom k ss
    → Sorted (insert_all xs ss) × AllFrom k (insert_all xs ss)
insert_all-Waiting k [] ss h w = w
insert_all-Waiting k (x ∷ xs) ss (le, h) (sorted, a) =
    insert_all-Waiting k xs (insert x ss) h (insert-Sorted x ss sorted, insert-AllFrom x ss le a)

reschedule-Waiting :
    (now : ℕ) (ss : List Slot)
    → now + 2 ^ 32 ≤ 2 ^ 64
    → Periodic ss
    → AllFrom (suc now) (map (reschedule now) (due now ss))
reschedule-Waiting now [] word p = tt
reschedule-Waiting now (s ∷ ss) word (q, p) =
    let rest = reschedule-Waiting now ss word p in
    elim (Bool-cases (leb s.due now)) [
      | inl ready ↦ rw ready (omega (arith, leb→lt _ _ (reschedule-IsLater now s word q).0), rest)
      | inr not_ready ↦ rw not_ready rest
    ]

-- The slots that a run leaves are in order, and all are due later than now.
pub remaining-Waiting :
    (now : ℕ) (ss : List Slot)
    → now + 2 ^ 32 ≤ 2 ^ 64
    → Sorted ss
    → Periodic ss
    → Sorted (remaining now ss) × AllFrom (suc now) (remaining now ss)
remaining-Waiting now ss word sorted p =
    insert_all-Waiting (suc now) _ (later now ss) (reschedule-Waiting now ss word p)
      (later-Waiting now ss sorted)
