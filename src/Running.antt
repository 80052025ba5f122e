-- ===== src/Running.antt =====
-- How a worker ends: the loop of NetWorker::Run and Close (sources/gsdm/src/eventdrive/networker.cpp).
-- Close may come from any thread, between two rounds of the loop.
pub mod Orderly
pub mod Stopping
use gsdm.Base.{ℕ, Bool, true, false, List, [], ◌∷◌, ◌++◌, ◌==◌, if◌then◌else◌}

-- WorkerStatus
pub data Status : Type 0 where
  running : Status
  closing : Status
  clearing : Status
  stopped : Status

-- Close of the class and of the timers, or Clear of the class with its answer
pub data Call : Type 0 where
  closes : Call
  clears : Bool → Call

-- The status, whether the loop was left, and the calls so far
pub record Loop : Type 0 where
  pub status : Status
  pub ended : Bool
  pub calls : List Call

abbrev pub started : Loop
started = record { status = running; ended = false; calls = [] }

abbrev pub call : Loop → Call → Loop
call l c = record l { calls = l.calls ++ c ∷ [] }

abbrev pub clear : Loop → Bool → Loop
clear l true = record (call l (clears true)) { status = stopped; ended = true }
clear l false = call l (clears false)

-- The body of the loop; `answer` is what Clear of the class answers if it is called.
abbrev pub body : Loop → Bool → Status → Loop
body l answer running = l
body l answer closing = record (call l closes) { status = clearing }
body l answer clearing = clear l answer
body l answer stopped = l

-- The condition of the loop, and a round of it; `pause` is what Pulse returned.
abbrev pub test : Loop → ℕ → Bool → Status → Loop
test l pause answer stopped = record l { ended = true }
test l pause answer running =
    if pause == 0 then record l { ended = true } else body l answer running
test l pause answer closing =
    if pause == 0 then record l { ended = true } else body l answer closing
test l pause answer clearing =
    if pause == 0 then record l { ended = true } else body l answer clearing

pub round : Loop → ℕ → Bool → Loop
round l pause answer = if l.ended then l else test l pause answer l.status

-- Close
pub ask_close : Loop → Loop
ask_close l = record l { status = closing }
