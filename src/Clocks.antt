-- ===== src/Clocks.antt =====
-- TimersManager (sources/gsdm/src/utils/timersmanager.cpp) as a whole: the table of its timeout managers
-- beside its slots, and what Pulse of IOHandlerManager
-- (sources/gsdm/src/eventdrive/epoll/iohandlermanager.cpp) makes of its answer.
pub mod Elapsed
use gsdm.Base.{
  ℕ, ◌+◌, Bool, Option, none, some, List, [], ◌∷◌, ◌==◌, if◌then◌else◌, ◌>>=◌, ltb, add32, u64,
}
use gsdm.Timers.{Timer, Slot, Elapse, elapsed, out_of_fuel, time_elapsed_process}
use gsdm.Timers
use gsdm.Timeouts
use gsdm.Timeouts.{time_elapsed_timeout}

-- The hash of the timeout managers is the list of its entries; each manager has its events.
abbrev pub Table : Type 0
Table = List (ℕ × Timeouts.Manager)

pub record TimersManager : Type 0 where
  pub timers : Timers.Manager
  pub table : Table

abbrev pub put : Table → ℕ → Timeouts.Manager → Table
put [] id m = (id, m) ∷ []
put ((k, n) ∷ t) id m = let rest = put t id m in if k == id then (id, m) ∷ t else (k, n) ∷ rest

abbrev pub take_out : Table → ℕ → Table
take_out [] id = []
take_out ((k, n) ∷ t) id = let rest = take_out t id in if k == id then t else (k, n) ∷ rest

-- AddTimeoutManager, with the number that the manager gets
pub add_timeout_manager : TimersManager → Timeouts.Manager → TimersManager × ℕ
add_timeout_manager c m =
    let id = add32 c.timers.process_id 1 in
    (record { timers = record c.timers { process_id = id }; table = put c.table id m }, id)

-- RemoveTimeoutManager, of the manager with this number
pub remove_timeout_manager : TimersManager → ℕ → TimersManager
remove_timeout_manager c id = record c { table = take_out c.table id }

-- The managers and the timers are deleted.
pub close : TimersManager → TimersManager
close c = record { timers = record c.timers { slots = [] }; table = [] }

-- TimeElapsedTimeout: DoTimeout of an event answers `do_timeout`, and `clock` is what the clock shows to
-- each manager.
pub elapse_table : (ℕ → ℕ → Bool) → (ℕ → ℕ) → ℕ → Table → Option Table
elapse_table do_timeout clock fuel [] = some []
elapse_table do_timeout clock fuel ((id, m) ∷ t) = do
  m' ← time_elapsed_timeout (do_timeout id) (clock id) fuel m
  rest ← elapse_table do_timeout clock fuel t
  some ((id, m') ∷ rest)

abbrev pub after_slots : TimersManager → Table → Elapse → Option (TimersManager × (List Timer × ℕ))
after_slots c t (elapsed fired slots pause) =
    some (record { timers = record c.timers { slots = slots }; table = t }, (fired, pause))
after_slots c t out_of_fuel = none

-- TimeElapsed, with the timers that were processed and the answer
pub time_elapsed :
    (ℕ → ℕ → Bool) → (ℕ → ℕ) → ℕ → ℕ → TimersManager → Option (TimersManager × (List Timer × ℕ))
time_elapsed do_timeout clock now fuel c = do
  t ← elapse_table do_timeout clock fuel c.table
  after_slots c t (time_elapsed_process fuel now [] c.timers.slots)

-- What epoll_wait did: a signal ended it, with the time that the clock shows behind it; it failed; or it
-- brought its events.
pub data Polled : Type 0 where
  interrupted : ℕ → Polled
  failed : Polled
  served : Polled

-- The answer of Pulse, which the loop of NetWorker waits for next, and ends if it is 0; `pause` is what
-- TimeElapsed answers, which is not called when epoll_wait failed.
pub next_pause : Polled → ℕ → ℕ
next_pause (interrupted clock) pause = u64 (pause + clock)
next_pause failed pause = 0
next_pause served pause = if ltb 1000 pause then 1000 else pause
