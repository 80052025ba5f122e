-- ===== src/Timers.antt =====
-- Periodic timers: TimersManager and TimerEvent (sources/gsdm/src/utils/timersmanager.cpp).  The
-- multimap of the slots is the list of its entries in order.
pub mod Order
pub mod Due
pub mod Elapsed
pub mod Kept
pub mod Until
pub mod Endless
pub mod Identity
use gsdm.Base.{
  ℕ, zero, suc, ◌+◌, Bool, true, false, List, [], ◌∷◌, ◌++◌, ltb, leb, ◌==◌, if◌then◌else◌, u32,
  add64, sub64, add32,
}

-- TimerEvent
pub record Timer : Type 0 where
  pub id : ℕ
  pub period : ℕ

-- An entry of the multimap.
pub record Slot : Type 0 where
  pub due : ℕ
  pub timer : Timer

pub record Manager : Type 0 where
  pub process_id : ℕ
  pub slots : List Slot

-- The multimap puts an entry behind those with the same key.
pub insert : Slot → List Slot → List Slot
insert x [] = x ∷ []
insert x (s ∷ ss) = let later = insert x ss in if ltb x.due s.due then x ∷ s ∷ ss else s ∷ later

-- AddTimerEvent at the time `now`; the timer gets its identity.
pub add_timer_event : Manager → ℕ → Timer → Manager
add_timer_event m now timer =
    let id = add32 m.process_id 1 in
    record {
      process_id = id;
      slots = insert (record { due = now; timer = record timer { id = id } }) m.slots;
    }

-- The first slot whose timer has the identity is erased.
pub erase : ℕ → List Slot → List Slot
erase id [] = []
erase id (s ∷ ss) = let rest = erase id ss in if id == s.timer.id then ss else s ∷ rest

pub remove_timer_event : Manager → Timer → Manager
remove_timer_event m timer = record m { slots = erase timer.id m.slots }

-- The slot of a timer that was processed at the time `now`.
pub reschedule : ℕ → Slot → Slot
reschedule now s = record { due = add64 now s.timer.period; timer = s.timer }

-- A run of the loop: the timers that were processed, in order, the slots, and the number
-- returned; or the fuel is used up.
pub data Elapse : Type 0 where
  elapsed : List Timer → List Slot → ℕ → Elapse
  out_of_fuel : Elapse

-- TimeElapsedProcess, for timers whose Process leaves the manager alone.  The slot at the
-- iterator is the first, since the ones in front of it are erased; `reschedule` comes behind it.
pub time_elapsed_process : ℕ → ℕ → List Timer → List Slot → Elapse
time_elapsed_process zero now fired slots = out_of_fuel
time_elapsed_process (suc fuel) now fired [] = elapsed fired [] 1000
time_elapsed_process (suc fuel) now fired (s ∷ ss) =
    let rest =
      time_elapsed_process fuel now (fired ++ s.timer ∷ []) (insert (reschedule now s) ss) in
    if leb s.due now then rest else elapsed fired (s ∷ ss) (u32 (sub64 s.due now))
