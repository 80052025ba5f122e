-- ===== src/Examples/Endings.antt =====
-- The theorems on the end of a worker at one that runs, and that clears for two rounds in vain.
use gsdm.Base.{◌≡◌, refl, true, false, [], ◌∷◌, ◌++◌, arith}
use gsdm.Running.{stopped, closes, clears, started, round, ask_close}
use gsdm.Running.Orderly.{Reachable, Orderly, at_start, later, rounds, closed, Reachable-Orderly}
use gsdm.Running.Stopping.{tries, refusals, ask_close-stops}

ask_close-stops_example :
    round (tries (5 ∷ 7 ∷ []) (round (ask_close started) 1000 false)) 9 true ≡ record {
      status = stopped;
      ended = true;
      calls = [] ++ closes ∷ (refusals (5 ∷ 7 ∷ []) ++ clears true ∷ []);
    }
ask_close-stops_example =
    ask_close-stops started 1000 9 false (5 ∷ 7 ∷ []) refl (omega arith) (omega arith)
      (omega arith, (omega arith, tt))

closed_twice : Reachable (ask_close (round (ask_close started) 3 true))
closed_twice =
    later (later (later at_start (closed started)) (rounds (ask_close started) 3 true)) (closed _)

Reachable-Orderly_example : Orderly (ask_close (round (ask_close started) 3 true))
Reachable-Orderly_example = Reachable-Orderly closed_twice
