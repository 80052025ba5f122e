-- ===== src/Timers/Identity.antt =====
-- AddTimerEvent and RemoveTimerEvent (sources/gsdm/src/utils/timersmanager.cpp).
use gsdm.Base.{
  ℕ, ◌≡◌, refl, ap, false, List, [], ◌∷◌, inl, inr, ltb, ◌==◌, ==_iff, Bool-cases, add32,
}
use gsdm.Timers.{Timer, Slot, Manager, insert, erase, add_timer_event, remove_timer_event}
use gsdm.Timers.Order.{Sorted, insert-Sorted}

-- No slot has a timer with this identity.
abbrev pub Unused : ℕ → List Slot → Type 0
Unused id [] = Unit {0}
Unused id (s ∷ ss) = ((id == s.timer.id) ≡ false) × Unused id ss

erase-insert :
    (x : Slot) (ss : List Slot) → Unused x.timer.id ss → erase x.timer.id (insert x ss) ≡ ss
unfolding insert erase
erase-insert x [] h = rw ((==_iff x.timer.id x.timer.id).1 refl) refl
erase-insert x (s ∷ ss) (other, h) = elim (Bool-cases (ltb x.due s.due)) [
  | inl before ↦ rw (before, (==_iff x.timer.id x.timer.id).1 refl) refl
  | inr behind ↦ rw (behind, other) (ap (λ r. s ∷ r) (erase-insert x ss h))
]

-- The identity that the next timer gets.
abbrev pub next_id : Manager → ℕ
next_id m = add32 m.process_id 1

-- A timer that is added to slots in order, under an identity that none of them has, leaves them in
-- order, and removing it by that identity gives the slots back.
pub remove_timer_event-add_timer_event :
    (m : Manager) (now : ℕ) (timer : Timer)
    → Sorted m.slots
    → Unused (next_id m) m.slots
    → Sorted (add_timer_event m now timer).slots
      × (remove_timer_event (add_timer_event m now timer) (record timer { id = next_id m })
          ≡ record { process_id = next_id m; slots = m.slots })
unfolding add_timer_event remove_timer_event
remove_timer_event-add_timer_event m now timer sorted fresh =
    let x : Slot = record { due = now; timer = record timer { id = next_id m } } in
    (
      insert-Sorted x m.slots sorted,
      ap (λ ss. record { process_id = next_id m; slots = ss }) (erase-insert x m.slots fresh),
    )
