-- ===== src/Examples/Processes.antt =====
-- SendMsg (sources/gsdm/src/eventdrive/baseprocess.cpp) at a process with two bytes that wait.
use gsdm.Base.{◌++◌, true, [], ◌∷◌, arith, refl}
use gsdm.Base.Returns.{Returns}
use gsdm.Buffer.Transfer.Consume.{accepted}
use gsdm.Process.{Process, HandlerType, NetStatus, send_msg}
use gsdm.Process.Stream.{waiting, Bounded}
use gsdm.Process.Send.{Outcome, wire, send_msg-Outcome}
use gsdm.Examples.Buffers.{zeros, sample, sample-IsValid, sample-Fits, takes_one}

abbrev pub sender : Process
sender = record {
  output_buffer = sample;
  input_buffer = sample;
  handler = HandlerType.tcp_carrier;
  net_status = NetStatus.connected;
  recv_buffer_size = 4096;
  send_buffer_size = 4096;
  is_write = true;
  epoll_out = true;
}

pub takes_one-Bounded : Bounded takes_one
unfolding accepted
takes_one-Bounded [] = omega arith
takes_one-Bounded (x ∷ xs) = omega arith

send_msg-Outcome_example :
    Returns
      (Outcome
        (wire takes_one takes_one sender (7 ∷ 8 ∷ 9 ∷ 10 ∷ []))
        (waiting sender ++ 7 ∷ 8 ∷ 9 ∷ 10 ∷ []))
      (send_msg zeros takes_one takes_one sender (7 ∷ 8 ∷ 9 ∷ 10 ∷ []))
send_msg-Outcome_example =
    send_msg-Outcome zeros takes_one takes_one sender (7 ∷ 8 ∷ 9 ∷ 10 ∷ [])
      (record { valid = sample-IsValid; fits = sample-Fits; watch = refl }) takes_one-Bounded refl
