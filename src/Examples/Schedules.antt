-- ===== src/Examples/Schedules.antt =====
-- The theorems on periodic timers (sources/gsdm/src/utils/timersmanager.cpp) at three slots.
use gsdm.Base.{ℕ, ◌≡◌, refl, inl, inr, List, [], ◌∷◌, arith}
use gsdm.Timers.{Timer, Slot, Manager, elapsed, out_of_fuel, time_elapsed_process}
use gsdm.Timers.Order.{Sorted}
use gsdm.Timers.Due.{due, timers, wait, Periodic}
use gsdm.Timers.Elapsed.{remaining, time_elapsed_process-remaining}
use gsdm.Timers.Endless.{HasStuck, time_elapsed_process-endless}

abbrev pub slot : ℕ → ℕ → ℕ → Slot
slot due id period = record { due = due; timer = record { id = id; period = period } }

abbrev pub three : List Slot
three = slot 100 1 50 ∷ slot 120 2 10 ∷ slot 500 3 1000 ∷ []

pub three-Sorted : Sorted three
three-Sorted = ((omega arith, (omega arith, tt)), ((omega arith, tt), (tt, tt)))

pub three-Periodic : Periodic three
three-Periodic = (
  (omega arith, (omega arith, omega arith)),
  ((omega arith, (omega arith, omega arith)), ((omega arith, (omega arith, omega arith)), tt)),
)

abbrev stuck : List Slot
stuck = slot 100 1 50 ∷ slot 120 2 0 ∷ []

stuck-Sorted : Sorted stuck
stuck-Sorted = ((omega arith, tt), (tt, tt))

stuck-HasStuck : HasStuck 130 stuck
stuck-HasStuck = inr (inl (omega arith, refl))

time_elapsed_process-remaining_example :
    time_elapsed_process 3 130 [] three
    ≡ elapsed (timers (due 130 three)) (remaining 130 three) (wait 130 (remaining 130 three))
time_elapsed_process-remaining_example =
    time_elapsed_process-remaining 3 130 [] three (omega arith) three-Sorted three-Periodic
      (omega arith)

time_elapsed_process-endless_example : time_elapsed_process 100 130 [] stuck ≡ out_of_fuel
time_elapsed_process-endless_example =
    time_elapsed_process-endless 100 130 [] stuck (omega arith) stuck-Sorted stuck-HasStuck

abbrev manager : Manager
manager = record { process_id = 3; slots = three }

abbrev ticker : Timer
ticker = record { id = 0; period = 20 }
