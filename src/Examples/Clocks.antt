-- ===== src/Examples/Clocks.antt =====
-- The theorem on TimeElapsed at three timers and two lists of timeouts.
use gsdm.Base.{false, [], ◌∷◌, refl, arith}
use gsdm.Timeouts.{add_timeout_event, link_last}
use gsdm.Clocks.{TimersManager, time_elapsed}
use gsdm.Clocks.Elapsed.{Elapsed, time_elapsed-Elapsed}
use gsdm.Examples.Timeouts.{nobody, nobody-Listed, pair, pair-Listed, pair_managed}
use gsdm.Examples.Schedules.{three, three-Sorted, three-Periodic}
use gsdm.Base.Order.{clash}

abbrev both_kinds : TimersManager
both_kinds = record {
  timers = record { process_id = 5; slots = three };
  table = (4, pair) ∷ (5, nobody) ∷ [];
}

time_elapsed-Elapsed_example :
    Elapsed
      (λ id b. false)
      (λ id. 130)
      130
      both_kinds
      ((1 ∷ 7 ∷ []) ∷ [] ∷ [])
      (time_elapsed (λ id b. false) (λ id. 130) 130 3 both_kinds)
unfolding add_timeout_event link_last
time_elapsed-Elapsed_example =
    time_elapsed-Elapsed (λ id b. false) (λ id. 130) 130 3 both_kinds ((1 ∷ 7 ∷ []) ∷ [] ∷ [])
      (
        (pair-Listed, (pair_managed, (omega arith, omega arith))),
        ((nobody-Listed, ((λ b h. clash h refl), (omega arith, omega arith))), tt),
      )
      (omega arith) three-Sorted three-Periodic (omega arith, (omega arith, (omega arith, tt)))
      (omega arith)
