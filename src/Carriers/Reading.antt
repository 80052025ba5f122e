-- ===== src/Carriers/Reading.antt =====
-- The reads of TCPCarrier::OnEvent and UNIXCarrier::OnEvent
-- (sources/gsdm/src/eventdrive/epoll/tcpcarrier.cpp and unixcarrier.cpp).
use gsdm.Base.{
  ◌≤◌, ◌≡◌, refl, Bool, true, false, not, some, length, [], ◌∷◌, lt→ltb, arith, inl, inr, ◌⊎◌,
  if◌then◌else◌,
}
use gsdm.Base.Int.{ℤ, negsuc}
use gsdm.Base.Returns
use gsdm.Base.Returns.{Returns, returns}
use gsdm.Buffer.{Alloc, Buffer, Errno, received, recv_failed, is_again, Received}
use gsdm.Buffer.Valid.{IsValid, Fits}
use gsdm.Buffer.Transfer.Append.{stored, amount, read_from_tcp_fd-Read, got_some}
use gsdm.Process.{Process, NetStatus, is_connected}
use gsdm.Carriers.{App, ends, process_data, tcp_read, unix_read}

-- A connection that is up, with what it believes of the write events registered.
pub record Sound (p : Process) : Type 0 where
  pub output_valid : IsValid p.output_buffer
  pub input_valid : IsValid p.input_buffer
  pub up : is_connected p.net_status ≡ true
  pub watch : p.epoll_out ≡ p.is_write

-- The class may use bytes, add some or refuse, but leaves the connection up.
abbrev pub Keeps : App → Type 0
Keeps app = (q : Process) (n : ℤ) → Sound q → Returns (λ (r, goes_on). Sound r) (app.process q n)

-- The handler is kept with a connection that is up, or removed with one that is not.
abbrev pub Verdict : Process × Bool → Type 0
Verdict (q, result) =
    ((result ≡ true) × Sound q) ⊎ ((result ≡ false) × (is_connected q.net_status ≡ false))

pub stop_or :
    (b : Bool) (q : Process) (status : NetStatus)
    → is_connected status ≡ false
    → Sound q
    → Returns Verdict (if b then ends q status else some (q, true))
stop_or true q status down s = returns (inr (refl, down))
stop_or false q status down s = returns (inl (refl, s))

pub with_input :
    (p : Process) (b : Buffer) → Sound p → IsValid b → Sound (record p { input_buffer = b })
with_input p b s v = record {
  output_valid = s.output_valid;
  input_valid = v;
  up = s.up;
  watch = s.watch;
}

module _ (app : App) (keeps : Keeps app) where
  process_data-Verdict : (q : Process) (n : ℤ) → Sound q → Returns Verdict (process_data app q n)
  unfolding process_data
  process_data-Verdict q n s =
      Returns.bind (keeps q n s)
        λ (r, goes_on) t. stop_or (not goes_on) r NetStatus.disconnect refl t

  module _ (alloc : Alloc) (before : Errno) (p : Process) (s : Sound p)
      (f : Fits p.input_buffer p.recv_buffer_size) where
    pub tcp_read-Verdict :
        (answer : Received)
        → length (stored answer) ≤ p.recv_buffer_size
        → Returns Verdict (tcp_read alloc app before answer p)
    unfolding tcp_read got_some amount
    tcp_read-Verdict (recv_failed e) h =
        Returns.bind
          (read_from_tcp_fd-Read alloc p.input_buffer s.input_valid p.recv_buffer_size
            (recv_failed e) f h)
          λ (input, done, n) (kept, r, a).
            rw (r, a)
              (stop_or (not (is_again e)) (record p { input_buffer = input }) NetStatus.sys_error
                refl (with_input p input s kept.valid))
    tcp_read-Verdict (received []) h =
        Returns.bind
          (read_from_tcp_fd-Read alloc p.input_buffer s.input_valid p.recv_buffer_size (received [])
            f h)
          λ (input, done, n) (kept, r, a). rw (r, a) (returns (inr (refl, refl)))
    tcp_read-Verdict (received (x ∷ bs)) h =
        Returns.bind
          (read_from_tcp_fd-Read alloc p.input_buffer s.input_valid p.recv_buffer_size
            (received (x ∷ bs)) f h)
          λ (input, done, n) (kept, r, a).
            rw (r, lt→ltb 0 (length (x ∷ bs)) (omega arith))
              (process_data-Verdict (record p { input_buffer = input }) n
                (with_input p input s kept.valid))

    pub unix_read-Verdict :
        (answer : Received)
        → length (stored answer) ≤ p.recv_buffer_size
        → Returns Verdict (unix_read alloc app before answer p)
    unfolding unix_read got_some amount
    unix_read-Verdict (recv_failed e) h =
        Returns.bind
          (read_from_tcp_fd-Read alloc p.input_buffer s.input_valid p.recv_buffer_size
            (recv_failed e) f h)
          λ (input, done, n) (kept, r, a).
            rw (r, a)
              (go (not (is_again e)) (record p { input_buffer = input }) (negsuc 0)
                (with_input p input s kept.valid))
      where
        go :
            (b : Bool) (q : Process) (n : ℤ)
            → Sound q
            → Returns Verdict (if b then ends q NetStatus.sys_error else process_data app q n)
        go true q n t = returns (inr (refl, refl))
        go false q n t = process_data-Verdict q n t
    unix_read-Verdict (received []) h =
        Returns.bind
          (read_from_tcp_fd-Read alloc p.input_buffer s.input_valid p.recv_buffer_size (received [])
            f h)
          λ (input, done, n) (kept, r, a). rw (r, a) (returns (inr (refl, refl)))
    unix_read-Verdict (received (x ∷ bs)) h =
        Returns.bind
          (read_from_tcp_fd-Read alloc p.input_buffer s.input_valid p.recv_buffer_size
            (received (x ∷ bs)) f h)
          λ (input, done, n) (kept, r, a).
            rw (r, lt→ltb 0 (length (x ∷ bs)) (omega arith))
              (process_data-Verdict (record p { input_buffer = input }) n
                (with_input p input s kept.valid))
