-- ===== src/Carriers.antt =====
-- Carriers of streams: TCPCarrier::OnEvent and UNIXCarrier::OnEvent
-- (sources/gsdm/src/eventdrive/epoll/tcpcarrier.cpp and unixcarrier.cpp), and what
-- IOHandlerManager::Pulse (iohandlermanager.cpp beside them) does with the result.
-- The class of the process is an argument (its `Process` and `IsCloseNet`), and so are the answers of
-- the kernel: what recv stored, and what send takes of the bytes offered.
pub mod Reading
pub mod Verdict
pub mod Sending
pub mod Drain
use gsdm.Base.{ℕ, Bool, true, false, not, Option, some, List, ltb, if◌then◌else◌, ◌>>=◌, ◌==◌}
use gsdm.Base.Int.{ℤ, pos, negsuc}
use gsdm.Buffer.{Alloc, Errno, is_again, Received, received, recv_failed, Sent, available}
use gsdm.Buffer.Transfer.{read_from_tcp_fd, write_to_tcp_fd}
use gsdm.Process.{Process, NetStatus, is_connected}

-- The bits of `event.events` that are looked at.
pub record Events : Type 0 where
  pub error : Bool
  pub hangup : Bool
  pub readable : Bool
  pub writable : Bool

-- What the class of the process overrides.
pub record App : Type 0 where
  pub process : Process → ℤ → Option (Process × Bool)
  pub is_close_net : Process → Bool

-- SetNetStatus, and OnEvent returns false.
abbrev pub ends : Process → NetStatus → Option (Process × Bool)
ends p status = some (record p { net_status = status }, false)

-- DisableWriteData, and `is_write_` is reset, whatever it was.
abbrev pub stop_write : Process → Process
stop_write p = record p { epoll_out = false; is_write = false }

-- `errno` behind recv; it is what it was when recv succeeds.
abbrev pub errno_of : Errno → Received → Errno
errno_of before (received bs) = before
errno_of before (recv_failed e) = e

abbrev pub is_zero : ℤ → Bool
is_zero (pos n) = n == 0
is_zero (negsuc n) = false

pub process_data : App → Process → ℤ → Option (Process × Bool)
process_data app p amount = do
  (q, goes_on) ← app.process p amount
  if not goes_on then ends q NetStatus.disconnect else some (q, true)

-- The read of a TCP carrier: with EAGAIN there is nothing to process.
pub tcp_read : Alloc → App → Errno → Received → Process → Option (Process × Bool)
unfolding process_data
tcp_read alloc app before answer p = do
  (input, done, amount) ← read_from_tcp_fd alloc p.input_buffer p.recv_buffer_size answer
  let q = record p { input_buffer = input }
  if not done
      then if is_zero amount
        then ends q NetStatus.peer_reset
        else if not (is_again (errno_of before answer))
        then ends q NetStatus.sys_error
        else some (q, true)
      else process_data app q amount

-- The read of a UNIX carrier: with EAGAIN the process is called with the amount -1.
pub unix_read : Alloc → App → Errno → Received → Process → Option (Process × Bool)
unfolding process_data
unix_read alloc app before answer p = do
  (input, done, amount) ← read_from_tcp_fd alloc p.input_buffer p.recv_buffer_size answer
  let q = record p { input_buffer = input }
  if not done
      then if is_zero amount
        then ends q NetStatus.peer_reset
        else if not (is_again (errno_of before answer))
        then ends q NetStatus.sys_error
        else process_data app q amount
      else process_data app q amount

-- The write of both.
pub write_event : (List ℕ → Sent) → Process → Option (Process × Bool)
write_event kernel p = if available p.output_buffer == 0 then some (stop_write p, true) else (do
  (out, done, count) ← write_to_tcp_fd kernel p.output_buffer 8388608
  let q = record p { output_buffer = out }
  if not done
      then ends q NetStatus.sys_error
      else if available out == 0
      then some (stop_write q, true)
      else some (q, true))

pub write_stage : App → (List ℕ → Sent) → Events → Process → Option (Process × Bool)
unfolding write_event
write_stage app kernel ev p = do
  (q, goes_on) ← (if ev.writable then write_event kernel p else some (p, true))
  if not goes_on
      then some (q, false)
      else if app.is_close_net q
      then ends q NetStatus.disconnect
      else some (q, true)

-- OnEvent with the read of the carrier.
pub on_event :
    (Process → Option (Process × Bool))
    → App
    → (List ℕ → Sent)
    → Events
    → Process
    → Option (Process × Bool)
unfolding write_stage
on_event read app kernel ev p =
    if not (is_connected p.net_status)
    then some (p, false)
    else if ev.error
    then ends p (if ev.readable then NetStatus.peer_reset else NetStatus.sys_error)
    else if ev.hangup
    then ends p NetStatus.peer_reset
    else (do
      (q, goes_on) ← (if ev.readable then read p else some (p, true))
      if not goes_on then some (q, false) else write_stage app kernel ev q)

pub tcp_on_event :
    Alloc → App → (List ℕ → Sent) → Errno → Received → Events → Process → Option (Process × Bool)
unfolding tcp_read on_event
tcp_on_event alloc app kernel before answer = on_event (tcp_read alloc app before answer) app kernel

pub unix_on_event :
    Alloc → App → (List ℕ → Sent) → Errno → Received → Events → Process → Option (Process × Bool)
unfolding unix_read on_event
unix_on_event alloc app kernel before answer =
    on_event (unix_read alloc app before answer) app kernel
