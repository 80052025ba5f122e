-- ===== src/Examples/Carriers.antt =====
-- The theorems on carriers at a process with two bytes that wait.
use gsdm.Base.{refl, true, false, some, [], ◌∷◌, arith}
use gsdm.Base.Returns.{Returns, returns}
use gsdm.Buffer.{Errno, received}
use gsdm.Buffer.Transfer.Append.{stored}
use gsdm.Buffer.Transfer.Consume.{accepted}
use gsdm.Carriers.{App, Events, tcp_on_event}
use gsdm.Carriers.Reading.{Sound, Keeps, Verdict}
use gsdm.Carriers.Verdict.{tcp_on_event-Verdict}
use gsdm.Carriers.Sending.{Takes}
use gsdm.Carriers.Drain.{Drained, drain, tcp_on_event-Drained}
use gsdm.Examples.Buffers.{zeros, sample-IsValid, takes_one}
use gsdm.Examples.Processes.{sender, takes_one-Bounded}

-- A class that leaves the bytes where they are.
abbrev pub idle : App
idle = record { process = λ q n. some (q, true); is_close_net = λ q. false }

idle-Keeps : Keeps idle
idle-Keeps q n s = returns s

sender-Sound : Sound sender
sender-Sound = record {
  output_valid = sample-IsValid;
  input_valid = sample-IsValid;
  up = refl;
  watch = refl;
}

abbrev both : Events
both = record { error = false; hangup = false; readable = true; writable = true }

tcp_on_event-Verdict_example :
    Returns Verdict
      (tcp_on_event zeros idle takes_one Errno.again (received (5 ∷ 6 ∷ [])) both sender)
unfolding stored
tcp_on_event-Verdict_example =
    tcp_on_event-Verdict zeros idle takes_one Errno.again (received (5 ∷ 6 ∷ [])) both sender
      idle-Keeps takes_one-Bounded sender-Sound (omega arith) (omega arith)

takes_one-Takes : Takes takes_one
unfolding accepted
takes_one-Takes [] h = h
takes_one-Takes (x ∷ xs) h = omega arith

tcp_on_event-Drained_example :
    Returns
      (Drained sender)
      (drain zeros idle Errno.again (received []) (takes_one ∷ takes_one ∷ takes_one ∷ []) sender)
tcp_on_event-Drained_example =
    tcp_on_event-Drained zeros idle Errno.again (received []) (λ q. refl)
      (takes_one ∷ takes_one ∷ takes_one ∷ []) sender
      (
        (takes_one-Bounded, takes_one-Takes),
        ((takes_one-Bounded, takes_one-Takes), ((takes_one-Bounded, takes_one-Takes), tt)),
      )
      sender-Sound (omega arith)
