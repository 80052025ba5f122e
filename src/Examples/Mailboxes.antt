-- ===== src/Examples/Mailboxes.antt =====
-- The theorem on the commands that reach a worker at six calls: a queue is set up and filled, and another
-- is not set up.
use gsdm.Base.{ℕ, ◌≡◌, refl, false, some, List, [], ◌∷◌, arith}
use gsdm.Workers.{Info, NetWorker}
use gsdm.Workers.Entries.{from}
use gsdm.Workers.Acts.{Act, sets_up, sends, closes, pulses, accepted, Named}
use gsdm.Workers.Mailbox.{run, unused, run-Processed}
use gsdm.Examples.Cycles.{upward}

abbrev calls : List (Act ℕ)
calls = sets_up 1 9 ∷ sends 1 9 5 ∷ sends 2 9 7 ∷ pulses ∷ closes ∷ sends 1 9 6 ∷ []

calls-Named : Named calls
calls-Named = (refl, (refl, (refl, (refl, tt))))

calls_accepted : accepted 1 9 false calls ≡ 5 ∷ 6 ∷ []
calls_accepted = refl

run-Processed_example :
    (w : NetWorker ℕ) × ((out : List (Info × ℕ)) × ((run upward 0 9 calls unused ≡ some (w, out))
        × ((s t : ℕ) → from s t out ≡ accepted s t false calls)))
run-Processed_example = run-Processed upward 0 9 calls (omega arith) calls-Named
