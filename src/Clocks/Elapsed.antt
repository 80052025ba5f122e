-- ===== src/Clocks/Elapsed.antt =====
-- TimeElapsed (sources/gsdm/src/utils/timersmanager.cpp), with both kinds of timers, and how long the loop
-- of a worker then waits.
use gsdm.Base.{
  ℕ, ◌+◌, ◌^◌, ◌<◌, ◌≤◌, ◌≡◌, refl, Bool, true, Option, some, List, [], ◌∷◌, ◌++◌, inl, inr,
  Bool-cases, arith, ltb, ltb→le, ltb→lt, length,
}
use gsdm.Base.Order.{mem}
use gsdm.Timers.{Timer}
use gsdm.Timers.Order.{Sorted}
use gsdm.Timers.Due.{due, timers, wait, Periodic}
use gsdm.Timers.Elapsed.{remaining, time_elapsed_process-remaining}
use gsdm.Timers.Until.{AllUntil, wait-remaining}
use gsdm.Timeouts
use gsdm.Timeouts.{time_elapsed_timeout}
use gsdm.Timeouts.Moves.{Listed}
use gsdm.Timeouts.Expiry.{drop_while, survivors, overdue, time_elapsed_timeout-Listed}
use gsdm.Clocks.{Table, TimersManager, elapse_table, time_elapsed, served, next_pause}

-- A manager of timeouts whose list is in order, at the time that the clock shows to it
abbrev pub Ready : ℕ → ℕ → Timeouts.Manager → List ℕ → Type 0
Ready fuel now m xs =
    Listed m xs
    × (((b : ℕ) → mem b xs ≡ true → (m.store b).managed ≡ true)
        × ((now + m.timeout < 2 ^ 64) × (length xs < fuel)))

-- Each manager of the table with the events of its list
abbrev pub AllReady : ℕ → (ℕ → ℕ) → Table → List (List ℕ) → Type 0
AllReady fuel clock [] [] = Unit {0}
AllReady fuel clock [] (xs ∷ lists) = ⊥
AllReady fuel clock (entry ∷ t) [] = ⊥
AllReady fuel clock ((id, m) ∷ t) (xs ∷ lists) =
    Ready fuel (clock id) m xs × AllReady fuel clock t lists

-- The managers keep their places; the overdue events in front left each list, and those that are not freed
-- are at its end.
abbrev pub AllExpired : (ℕ → ℕ → Bool) → (ℕ → ℕ) → Table → List (List ℕ) → Table → Type 0
AllExpired do_timeout clock [] lists [] = Unit {0}
AllExpired do_timeout clock [] lists (e ∷ t) = ⊥
AllExpired do_timeout clock (e ∷ t) [] t' = ⊥
AllExpired do_timeout clock (e ∷ t) (xs ∷ lists) [] = ⊥
AllExpired do_timeout clock ((id, m) ∷ t) (xs ∷ lists) ((id', m') ∷ t') =
    (id' ≡ id)
    × (Listed m' (
          drop_while (overdue m (clock id)) xs
          ++ survivors (overdue m (clock id)) (do_timeout id) xs)
        × AllExpired do_timeout clock t lists t')

elapse_table-AllExpired :
    (do_timeout : ℕ → ℕ → Bool) (clock : ℕ → ℕ) (fuel : ℕ) (t : Table) (lists : List (List ℕ))
    → AllReady fuel clock t lists
    → (t' : Table) × ((elapse_table do_timeout clock fuel t ≡ some t')
        × AllExpired do_timeout clock t lists t')
unfolding elapse_table
elapse_table-AllExpired do_timeout clock fuel [] [] r = ([], (refl, tt))
elapse_table-AllExpired do_timeout clock fuel [] (xs ∷ lists) r = absurd r
elapse_table-AllExpired do_timeout clock fuel (e ∷ t) [] r = absurd r
elapse_table-AllExpired do_timeout clock fuel ((id, m) ∷ t) (xs ∷ lists)
      ((listed, (managed, (fits, enough))), r) =
    let (m', (did, now_listed)) =
      time_elapsed_timeout-Listed (do_timeout id) (clock id) m xs fuel listed managed fits enough in
    let (t', (rest, expired)) = elapse_table-AllExpired do_timeout clock fuel t lists r in
    ((id, m') ∷ t', (rw (did, rest) refl, (refl, (now_listed, expired))))

pause_bounds :
    (p : ℕ)
    → 0 < p
    → (0 < next_pause served p) × ((next_pause served p ≤ 1000) × (next_pause served p ≤ p))
unfolding next_pause
pause_bounds p more = elim (Bool-cases (ltb 1000 p)) [
  | inl long ↦ rw long (omega arith, (omega arith, omega (arith, ltb→lt 1000 p long)))
  | inr short ↦ rw short (more, (ltb→le 1000 p short, omega arith))
]

-- What a call of TimeElapsed leaves and answers.
pub record Elapsed (do_timeout : ℕ → ℕ → Bool) (clock : ℕ → ℕ) (now : ℕ) (c : TimersManager)
    (lists : List (List ℕ)) (o : Option (TimersManager × (List Timer × ℕ))) : Type 0 where
  pub after : TimersManager
  pub pause : ℕ
  pub did : o ≡ some (after, (timers (due now c.timers.slots), pause))
  pub slots : after.timers.slots ≡ remaining now c.timers.slots
  pub expired : AllExpired do_timeout clock c.table lists after.table
  pub goes_on : 0 < next_pause served pause
  pub soon : next_pause served pause ≤ 1000
  pub in_time : next_pause served pause ≤ wait now (remaining now c.timers.slots)

-- TimeElapsed ends: of every manager of timeouts the overdue events in front leave the list, the timers
-- that are due are processed in order and put back; and when epoll_wait brought its events, the answer of Pulse
-- is neither longer than a second nor beyond the next timer, and not 0, which would end the loop.
pub time_elapsed-Elapsed :
    (do_timeout : ℕ → ℕ → Bool) (clock : ℕ → ℕ) (now fuel : ℕ) (c : TimersManager)
    (lists : List (List ℕ))
    → AllReady fuel clock c.table lists
    → now + 2 ^ 32 ≤ 2 ^ 64
    → Sorted c.timers.slots
    → Periodic c.timers.slots
    → AllUntil (now + 2 ^ 32) c.timers.slots
    → length (due now c.timers.slots) < fuel
    → Elapsed do_timeout clock now c lists (time_elapsed do_timeout clock now fuel c)
unfolding time_elapsed
time_elapsed-Elapsed do_timeout clock now fuel c lists ready word sorted periodic until enough =
    let slots = c.timers.slots in
    let (t, (did, expired)) = elapse_table-AllExpired do_timeout clock fuel c.table lists ready in
    let processed = time_elapsed_process-remaining fuel now [] slots word sorted periodic enough in
    let some_time = wait-remaining now slots word sorted periodic until in
    let bounded = pause_bounds (wait now (remaining now slots)) some_time in
    record {
      after = record { timers = record c.timers { slots = remaining now slots }; table = t };
      pause = wait now (remaining now slots);
      did = rw (did, processed) refl;
      slots = refl;
      expired = expired;
      goes_on = bounded.0;
      soon = bounded.1.0;
      in_time = bounded.1.1;
    }
