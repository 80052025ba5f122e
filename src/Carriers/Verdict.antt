-- ===== src/Carriers/Verdict.antt =====
-- What OnEvent returns, and the state of the connection: TCPCarrier::OnEvent and UNIXCarrier::OnEvent
-- (sources/gsdm/src/eventdrive/epoll/tcpcarrier.cpp and unixcarrier.cpp).
use gsdm.Base.{
  ℕ, ◌≤◌, refl, Bool, true, false, not, Option, some, List, take, length, inl, inr, Bool-cases,
  ◌==◌, if◌then◌else◌, ◌>>=◌,
}
use gsdm.Base.Returns
use gsdm.Base.Returns.{Returns, returns}
use gsdm.Buffer.{Alloc, Buffer, Errno, Received, Sent, available}
use gsdm.Buffer.Valid.{IsValid, Fits, content}
use gsdm.Buffer.Transfer.Append.{stored}
use gsdm.Buffer.Transfer.Consume.{accepted, write_to_tcp_fd-Written}
use gsdm.Process.{Process, NetStatus}
use gsdm.Carriers.{
  App, Events, ends, tcp_read, unix_read, write_event, write_stage, on_event, tcp_on_event,
  unix_on_event, stop_write,
}
use gsdm.Carriers.Reading.{Sound, Keeps, Verdict, stop_or, tcp_read-Verdict, unix_read-Verdict}

-- A kernel that takes no more than it is offered.
abbrev pub Modest : (List ℕ → Sent) → Type 0
Modest kernel = (bs : List ℕ) → accepted (kernel bs) ≤ length bs

pub with_output :
    (p : Process) (b : Buffer) → Sound p → IsValid b → Sound (record p { output_buffer = b })
with_output p b s v = record {
  output_valid = v;
  input_valid = s.input_valid;
  up = s.up;
  watch = s.watch;
}

pub stopped : (p : Process) → Sound p → Sound (stop_write p)
stopped p s = record {
  output_valid = s.output_valid;
  input_valid = s.input_valid;
  up = s.up;
  watch = refl;
}

module _ (kernel : List ℕ → Sent) (modest : Modest kernel) where
  write_event-Verdict : (p : Process) → Sound p → Returns Verdict (write_event kernel p)
  unfolding write_event
  write_event-Verdict p s = elim (Bool-cases (available p.output_buffer == 0)) [
    | inl empty ↦ rw empty (returns (inl (refl, stopped p s)))
    | inr some_wait ↦ rw some_wait (
        Returns.bind
          (write_to_tcp_fd-Written kernel p.output_buffer 8388608 s.output_valid
            (modest (take 8388608 (content p.output_buffer))))
          λ (out, done, count) (w, r, c).
            settle (not done) (available out == 0) (record p { output_buffer = out })
              (with_output p out s w.valid))
  ]
    where
      settle :
          (failed empty : Bool) (q : Process)
          → Sound q
          → Returns Verdict (
              if failed
              then ends q NetStatus.sys_error
              else if empty
              then some (stop_write q, true)
              else some (q, true))
      settle true empty q t = returns (inr (refl, refl))
      settle false true q t = returns (inl (refl, stopped q t))
      settle false false q t = returns (inl (refl, t))

  module _ (app : App) where
    closes :
        (q : Process) (goes_on : Bool)
        → Verdict (q, goes_on)
        → Returns Verdict (
            if not goes_on
            then some (q, false)
            else if app.is_close_net q
            then ends q NetStatus.disconnect
            else some (q, true))
    closes q goes_on (inl (yes_on, s)) =
        rw yes_on (stop_or (app.is_close_net q) q NetStatus.disconnect refl s)
    closes q goes_on (inr (off, down)) = rw off (returns (inr (refl, down)))

    write_stage-Verdict :
        (ev : Events) (p : Process) → Sound p → Returns Verdict (write_stage app kernel ev p)
    unfolding write_stage
    write_stage-Verdict ev p s =
        Returns.bind (written ev.writable) λ (q, goes_on) v. closes q goes_on v
      where
        written : (b : Bool) → Returns Verdict (if b then write_event kernel p else some (p, true))
        written true = write_event-Verdict p s
        written false = returns (inl (refl, s))

    on_event-Verdict :
        (read : Process → Option (Process × Bool)) (ev : Events) (p : Process)
        → Sound p
        → Returns Verdict (read p)
        → Returns Verdict (on_event read app kernel ev p)
    unfolding on_event
    on_event-Verdict read ev p s r = rw s.up (first ev.error ev.hangup)
      where
        then_write :
            (q : Process) (goes_on : Bool)
            → Verdict (q, goes_on)
            → Returns Verdict (if not goes_on then some (q, false) else write_stage app kernel ev q)
        then_write q goes_on (inl (on, t)) = rw on (write_stage-Verdict ev q t)
        then_write q goes_on (inr (off, down)) = rw off (returns (inr (refl, down)))

        maybe_read : (b : Bool) → Returns Verdict (if b then read p else some (p, true))
        maybe_read true = r
        maybe_read false = returns (inl (refl, s))

        error_ends :
            (b : Bool)
            → Returns Verdict (ends p (if b then NetStatus.peer_reset else NetStatus.sys_error))
        error_ends true = returns (inr (refl, refl))
        error_ends false = returns (inr (refl, refl))

        first :
            (error hangup : Bool)
            → Returns Verdict (
                if error
                then ends p (if ev.readable then NetStatus.peer_reset else NetStatus.sys_error)
                else if hangup
                then ends p NetStatus.peer_reset
                else (do
                  (q, goes_on) ← (if ev.readable then read p else some (p, true))
                  if not goes_on then some (q, false) else write_stage app kernel ev q))
        first true hangup = error_ends ev.readable
        first false true = returns (inr (refl, refl))
        first false false =
            Returns.bind (maybe_read ev.readable) λ (q, goes_on) v. then_write q goes_on v

-- TCPCarrier::OnEvent of a connection that is up never faults; the handler stays exactly when the
-- connection is still up, whatever the events, the answers of the kernel and the class.
pub tcp_on_event-Verdict :
    (alloc : Alloc) (app : App) (kernel : List ℕ → Sent) (before : Errno) (answer : Received)
    (ev : Events) (p : Process)
    → Keeps app
    → Modest kernel
    → Sound p
    → Fits p.input_buffer p.recv_buffer_size
    → length (stored answer) ≤ p.recv_buffer_size
    → Returns Verdict (tcp_on_event alloc app kernel before answer ev p)
unfolding tcp_on_event
tcp_on_event-Verdict alloc app kernel before answer ev p keeps modest s f h =
    on_event-Verdict kernel modest app (tcp_read alloc app before answer) ev p s
      (tcp_read-Verdict app keeps alloc before p s f answer h)

-- UNIXCarrier::OnEvent does so too.
pub unix_on_event-Verdict :
    (alloc : Alloc) (app : App) (kernel : List ℕ → Sent) (before : Errno) (answer : Received)
    (ev : Events) (p : Process)
    → Keeps app
    → Modest kernel
    → Sound p
    → Fits p.input_buffer p.recv_buffer_size
    → length (stored answer) ≤ p.recv_buffer_size
    → Returns Verdict (unix_on_event alloc app kernel before answer ev p)
unfolding unix_on_event
unix_on_event-Verdict alloc app kernel before answer ev p keeps modest s f h =
    on_event-Verdict kernel modest app (unix_read alloc app before answer) ev p s
      (unix_read-Verdict app keeps alloc before p s f answer h)
