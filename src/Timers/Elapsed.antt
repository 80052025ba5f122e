-- ===== src/Timers/Elapsed.antt =====
-- TimeElapsedProcess (sources/gsdm/src/utils/timersmanager.cpp) on timers with a period.
use gsdm.Base.{
  ℕ, zero, suc, ◌+◌, ◌-◌, ◌^◌, ◌≤◌, ◌<◌, ◌≡◌, refl, sym, ap, ◌∙◌, true, false, List, [], ◌∷◌, ◌++◌,
  map, append-nil, append_assoc, arith, inl, inr, leb, leb→lt, lt→leb, Bool-cases, u32, sub64,
  length,
}
use gsdm.Timers.{Timer, Slot, insert, reschedule, Elapse, elapsed, time_elapsed_process}
use gsdm.Timers.Order.{AllFrom, Sorted, insert-Sorted}
use gsdm.Timers.Due.{
  due, later, insert_all, wait, timers, Periodic, IsLater, due-insert, later-insert,
  insert-Periodic, none_due,
}

-- The slots that a run leaves.
abbrev pub remaining : ℕ → List Slot → List Slot
remaining now ss = insert_all (map (reschedule now) (due now ss)) (later now ss)

-- A processed timer comes back later, and keeps what it has.
pub reschedule-IsLater :
    (now : ℕ) (s : Slot)
    → now + 2 ^ 32 ≤ 2 ^ 64
    → (0 < s.timer.period) × ((s.timer.period < 2 ^ 32) × (s.due < 2 ^ 64))
    → IsLater now (reschedule now s)
      × ((0 < (reschedule now s).timer.period)
          × (((reschedule now s).timer.period < 2 ^ 32) × ((reschedule now s).due < 2 ^ 64)))
unfolding reschedule
reschedule-IsLater now s h (pos, (small, word)) =
    (lt→leb _ _ (omega arith), (pos, (small, omega arith)))

-- What a run comes to, from `fired` on.
abbrev pub outcome : ℕ → List Timer → List Slot → Elapse
outcome now fired ss =
    elapsed (fired ++ timers (due now ss)) (remaining now ss) (wait now (remaining now ss))

outcome-ready :
    (now : ℕ) (fired : List Timer) (s : Slot) (ss : List Slot)
    → leb s.due now ≡ true
    → IsLater now (reschedule now s)
    → outcome now (fired ++ s.timer ∷ []) (insert (reschedule now s) ss)
      ≡ outcome now fired (s ∷ ss)
outcome-ready now fired s ss ready h =
    rw
      (
        due-insert now (reschedule now s) ss h,
        later-insert now (reschedule now s) ss h,
        ready,
        append_assoc fired (s.timer ∷ []) (timers (due now ss)),
      )
      refl

outcome-not_ready :
    (now : ℕ) (fired : List Timer) (s : Slot) (ss : List Slot)
    → leb s.due now ≡ false
    → s.due < 2 ^ 64
    → AllFrom s.due ss
    → elapsed fired (s ∷ ss) (u32 (sub64 s.due now)) ≡ outcome now fired (s ∷ ss)
outcome-not_ready now fired s ss later_than word a =
    let none = none_due now s.due ss (leb→lt _ _ later_than) a in
    let same : u32 (sub64 s.due now) ≡ u32 (s.due - now) =
      ap u32 (omega (arith, leb→lt _ _ later_than)) in
    rw (later_than, none.0, none.1, append-nil fired, same) refl

step_ready :
    (fuel now : ℕ) (fired : List Timer) (s : Slot) (ss : List Slot)
    → leb s.due now ≡ true
    → time_elapsed_process (suc fuel) now fired (s ∷ ss)
      ≡ time_elapsed_process fuel now (fired ++ s.timer ∷ []) (insert (reschedule now s) ss)
unfolding time_elapsed_process
step_ready fuel now fired s ss ready = rw ready refl

step_not_ready :
    (fuel now : ℕ) (fired : List Timer) (s : Slot) (ss : List Slot)
    → leb s.due now ≡ false
    → time_elapsed_process (suc fuel) now fired (s ∷ ss)
      ≡ elapsed fired (s ∷ ss) (u32 (sub64 s.due now))
unfolding time_elapsed_process
step_not_ready fuel now fired s ss not_ready = rw not_ready refl

due_cons :
    (now : ℕ) (s : Slot) (ss : List Slot)
    → leb s.due now ≡ true
    → length (due now (s ∷ ss)) ≡ suc (length (due now ss))
due_cons now s ss ready = rw ready refl

-- TimeElapsedProcess, on slots in order whose timers have positive periods, runs to its end with
-- more fuel than there are slots that are due.  It processes the timers of those slots, each
-- once and in order; each is put back at its period from now behind the slots of the same time;
-- the number returned is the time until the first slot that is left, or 1000 if there is none.
-- The clock stays 2 ^ 32 below the end of its uint64_t.
pub time_elapsed_process-remaining :
    (fuel now : ℕ) (fired : List Timer) (ss : List Slot)
    → now + 2 ^ 32 ≤ 2 ^ 64
    → Sorted ss
    → Periodic ss
    → length (due now ss) < fuel
    → time_elapsed_process fuel now fired ss
      ≡ elapsed (fired ++ timers (due now ss)) (remaining now ss) (wait now (remaining now ss))
unfolding time_elapsed_process
time_elapsed_process-remaining zero now fired ss word sorted periodic h = absurd (omega arith)
time_elapsed_process-remaining (suc fuel) now fired [] word sorted periodic h =
    ap (λ f. elapsed f [] 1000) (sym (append-nil fired))
time_elapsed_process-remaining (suc fuel) now fired (s ∷ ss) word (a, sorted) (p, periodic) h =
    elim (Bool-cases (leb s.due now)) [
      | inl ready ↦
          let (late, kept) = reschedule-IsLater now s word p in
          let fewer : length (due now (insert (reschedule now s) ss)) < fuel =
            rw (due-insert now (reschedule now s) ss late)
              (omega (arith, due_cons now s ss ready)) in
          step_ready fuel now fired s ss ready
          ∙ time_elapsed_process-remaining fuel now (fired ++ s.timer ∷ [])
              (insert (reschedule now s) ss) word (insert-Sorted (reschedule now s) ss sorted)
              (insert-Periodic (reschedule now s) ss kept periodic) fewer
          ∙ outcome-ready now fired s ss ready late
      | inr not_ready ↦
          step_not_ready fuel now fired s ss not_ready
          ∙ outcome-not_ready now fired s ss not_ready p.1.1 a
    ]
