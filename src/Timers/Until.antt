-- ===== src/Timers/Until.antt =====
-- How long it takes until a slot is due (sources/gsdm/src/utils/timersmanager.cpp).
use gsdm.Base.{
  ℕ, suc, ◌+◌, ◌^◌, ◌<◌, ◌≤◌, List, [], ◌∷◌, map, inl, inr, Bool-cases, arith, leb, ltb,
}
use gsdm.Timers.{Slot, insert, reschedule}
use gsdm.Timers.Order.{Sorted, AllFrom}
use gsdm.Timers.Due.{due, later, insert_all, wait, Periodic}
use gsdm.Timers.Elapsed.{remaining}
use gsdm.Timers.Kept.{remaining-Waiting}

-- No slot is due at `bound` or later.
abbrev pub AllUntil : ℕ → List Slot → Type 0
AllUntil bound [] = Unit {0}
AllUntil bound (s ∷ ss) = (s.due < bound) × AllUntil bound ss

AllUntil-insert :
    (bound : ℕ) (x : Slot) (ss : List Slot)
    → x.due < bound
    → AllUntil bound ss
    → AllUntil bound (insert x ss)
unfolding insert
AllUntil-insert bound x [] h k = (h, tt)
AllUntil-insert bound x (s ∷ ss) h (first, k) = elim (Bool-cases (ltb x.due s.due)) [
  | inl before ↦ rw before (h, (first, k))
  | inr behind ↦ rw behind (first, AllUntil-insert bound x ss h k)
]

AllUntil-insert_all :
    (bound : ℕ) (xs ss : List Slot)
    → AllUntil bound xs
    → AllUntil bound ss
    → AllUntil bound (insert_all xs ss)
AllUntil-insert_all bound [] ss h k = k
AllUntil-insert_all bound (x ∷ xs) ss (first, h) k =
    AllUntil-insert_all bound xs (insert x ss) h (AllUntil-insert bound x ss first k)

AllUntil-later :
    (bound now : ℕ) (ss : List Slot) → AllUntil bound ss → AllUntil bound (later now ss)
AllUntil-later bound now [] h = tt
AllUntil-later bound now (s ∷ ss) (first, h) = elim (Bool-cases (leb s.due now)) [
  | inl ready ↦ rw ready (AllUntil-later bound now ss h)
  | inr not_ready ↦ rw not_ready (first, AllUntil-later bound now ss h)
]

AllUntil-reschedule :
    (now : ℕ) (ss : List Slot)
    → now + 2 ^ 32 ≤ 2 ^ 64
    → Periodic ss
    → AllUntil (now + 2 ^ 32) (map (reschedule now) (due now ss))
unfolding reschedule
AllUntil-reschedule now [] h p = tt
AllUntil-reschedule now (s ∷ ss) h ((pos, (small, word)), p) = elim (Bool-cases (leb s.due now)) [
  | inl ready ↦ rw ready (omega arith, AllUntil-reschedule now ss h p)
  | inr not_ready ↦ rw not_ready (AllUntil-reschedule now ss h p)
]

pub AllUntil-remaining :
    (now : ℕ) (ss : List Slot)
    → now + 2 ^ 32 ≤ 2 ^ 64
    → Periodic ss
    → AllUntil (now + 2 ^ 32) ss
    → AllUntil (now + 2 ^ 32) (remaining now ss)
AllUntil-remaining now ss h p k =
    AllUntil-insert_all (now + 2 ^ 32) _ (later now ss) (AllUntil-reschedule now ss h p)
      (AllUntil-later (now + 2 ^ 32) now ss k)

wait_positive :
    (now : ℕ) (ss : List Slot) → AllFrom (suc now) ss → AllUntil (now + 2 ^ 32) ss → 0 < wait now ss
wait_positive now [] h k = omega arith
wait_positive now (s ∷ ss) (first, h) (bound, k) = omega (arith, first, bound)

-- Some time passes until the first of the slots that are left is due.
pub wait-remaining :
    (now : ℕ) (ss : List Slot)
    → now + 2 ^ 32 ≤ 2 ^ 64
    → Sorted ss
    → Periodic ss
    → AllUntil (now + 2 ^ 32) ss
    → 0 < wait now (remaining now ss)
wait-remaining now ss h sorted p k =
    wait_positive now (remaining now ss) ((remaining-Waiting now ss h sorted p).1)
      (AllUntil-remaining now ss h p k)
