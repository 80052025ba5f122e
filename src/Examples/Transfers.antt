-- ===== src/Examples/Transfers.antt =====
-- The theorems on a connection that moves at two processes with two bytes that wait in each, and at a
-- command that was processed with bytes.
use gsdm.Base.{◌≡◌, ◌>>=◌, refl, some, none, arith, inl}
use gsdm.Base.Int.{pos}
use gsdm.Base.Returns
use gsdm.Base.Returns.{Returns}
use gsdm.Buffer.Valid.{IsValid, content}
use gsdm.Process.{Process}
use gsdm.Transfer.{Command, new_command, tcp_transfer, Outcome, carried, process_transfer}
use gsdm.Transfer.Handover.{Called, on_net, process_transfer-tcp_transfer, process_transfer-stale}
use gsdm.Examples.Buffers.{zeros, sample, sample-IsValid}
use gsdm.Examples.Processes.{sender}
use gsdm.Examples.Carriers.{idle}

process_transfer-tcp_transfer_example :
    Returns
      (Called zeros idle (λ port. some sender) sender (content sample) (pos 7) 80)
      (tcp_transfer new_command (pos 7) 80 sender)
process_transfer-tcp_transfer_example =
    process_transfer-tcp_transfer zeros idle (λ port. some sender) new_command (pos 7) 80 sender
      sender refl sample-IsValid (omega arith) sample-IsValid (omega arith) (inl (refl, refl))

-- A process whose input buffer is empty.
abbrev drained : Process
drained = record sender { input_buffer = record sample { consumed = 5 } }

drained-IsValid : IsValid drained.input_buffer
drained-IsValid = omega arith

-- A command that TCPTransfer fills with the two bytes that wait.
abbrev first_move :
    (cmd : Command) × (tcp_transfer new_command (pos 7) 80 sender ≡ some cmd)
    × Called zeros idle (λ port. some sender) sender (content sample) (pos 7) 80 cmd
first_move = Returns.result (
    process_transfer-tcp_transfer zeros idle (λ port. some sender) new_command (pos 7) 80 sender
      sender refl sample-IsValid (omega arith) sample-IsValid (omega arith) (inl (refl, refl)))

abbrev filled : Command
filled = first_move.0

-- What Process leaves of it, and the process that has its bytes.
abbrev emptied : Command
emptied = record filled { block = none }

abbrev moved : Outcome
moved = carried (on_net sender first_move.2.input)

process_transfer-stale_example :
    (tcp_transfer emptied (pos 9) 80 drained >>= process_transfer zeros idle (λ port. some sender))
    ≡ none
process_transfer-stale_example =
    process_transfer-stale zeros idle idle (λ port. some sender) filled emptied moved (pos 9) 80
      drained sender first_move.2.call (omega (arith, first_move.2.size)) refl drained-IsValid refl
