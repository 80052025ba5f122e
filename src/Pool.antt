-- ===== src/Pool.antt =====
-- Sockets with timeouts: the PoolSys functions of sources/gsdm/src/pooldrive/poolworkerex.cpp.
-- What the kernel does in a run is a list of wakes of epoll_wait, each with the answer of the
-- system call that the round may make.
pub mod Clock
pub mod Delivery
use gsdm.Base.{
  ℕ, zero, suc, ◌+◌, ◌-◌, Bool, true, false, ◌||◌, List, [], ◌∷◌, ◌++◌, leb, ltb, ◌==◌,
  if◌then◌else◌, length, take, drop,
}

-- EINTR, EAGAIN, and the rest
pub data Errno : Type 0 where
  interrupted again other : Errno

-- What a system call returns: an amount, or -1 with errno.
pub data Reply : Type 0 where
  done : ℕ → Reply
  minus_one : Errno → Reply

-- `EINTR != errno && EAGAIN != errno` is false
abbrev pub is_transient : Errno → Bool
is_transient Errno.interrupted = true
is_transient Errno.again = true
is_transient Errno.other = false

-- What epoll_wait returns: an event, with EPOLLERR, EPOLLHUP, and the event that is waited for;
-- no event within the time; or -1 with errno.
pub data Waited : Type 0 where
  event : (error hangup wanted : Bool) → Waited
  no_event : Waited
  wait_failed : Errno → Waited

-- One wake: the milliseconds since the wait began, what it returned, what the system call would
-- answer to an offer of so many bytes, and the errno that a call that succeeds leaves behind.
pub record Wake : Type 0 where
  pub took : ℕ
  pub waited : Waited
  pub call : ℕ → Reply
  pub stale : Errno

-- A round ends the run with an amount, with -1, or with -1 and ETIME, or is followed by another.
pub data Step (S : Type 0) : Type 0 where
  finished : S → ℕ → Step S
  broken : S → Step S
  late : S → Step S
  retry : S → Step S

-- The amount that is returned; -1; -1 with ETIME; or the run still waits.
pub data Result : Type 0 where
  returned : ℕ → Result
  failed : Result
  expired : Result
  pending : Result

-- What the functions share: the wait and the time. `attempt` is the system call.
module _ {S : Type 0} (attempt : S → Wake → Step S) where
  pub round : S → Wake → Waited → Step S
  round s w (event error hangup wanted) =
      if error
      then broken s
      else if hangup
      then broken s
      else if wanted
      then attempt s w
      else retry s
  round s w no_event = late s
  round s w (wait_failed Errno.interrupted) = retry s
  round s w (wait_failed _) = broken s

  -- The clock behind a round: `timeout -= t2`, or the end with ETIME.
  pub next : (ℕ → S → S × Result) → ℕ → ℕ → Step S → S × Result
  next rest timeout took (finished s n) = (s, returned n)
  next rest timeout took (broken s) = (s, failed)
  next rest timeout took (late s) = (s, expired)
  next rest timeout took (retry s) =
      let later = rest (timeout - took) s in if leb timeout took then (s, expired) else later

  pub wait_loop : List Wake → ℕ → S → S × Result
  wait_loop [] timeout s = (s, pending)
  wait_loop (w ∷ ws) timeout s = next (wait_loop ws) timeout w.took (round s w w.waited)

-- A message on its way: `send_len`, and the bytes that the kernel has.
pub record Sending : Type 0 where
  pub send_len : ℕ
  pub wire : List ℕ

-- What follows a call of send.
pub after_send_call : List ℕ → Sending → Reply → Step Sending
after_send_call message s (minus_one e) = if is_transient e then retry s else broken s
after_send_call message s (done n) =
    let s' : Sending = record {
      send_len = s.send_len + n;
      wire = s.wire ++ take n (drop s.send_len message);
    } in
    if length message == s'.send_len then finished s' s'.send_len else retry s'

-- send of what is left of the message
pub attempt_send : List ℕ → Sending → Wake → Step Sending
attempt_send message s w = after_send_call message s (w.call (length message - s.send_len))

-- A first call, and the loop if it does not settle the matter.
pub carry_on : {S : Type 0} → (S → Wake → Step S) → List Wake → ℕ → Step S → S × Result
carry_on attempt wakes timeout (finished s n) = (s, returned n)
carry_on attempt wakes timeout (broken s) = (s, failed)
carry_on attempt wakes timeout (late s) = (s, expired)
carry_on attempt wakes timeout (retry s) = wait_loop attempt wakes timeout s

pub start : {S : Type 0} → (S → Wake → Step S) → Wake → List Wake → ℕ → S → S × Result
start attempt first wakes timeout s = carry_on attempt wakes timeout (attempt s first)

-- PoolSysSendMsg
pub pool_sys_send_msg : List ℕ → Wake → List Wake → ℕ → Sending × Result
pool_sys_send_msg message first wakes timeout =
    start (attempt_send message) first wakes timeout (record { send_len = 0; wire = [] })

-- recv into `len` bytes; nothing is kept between the rounds
pub attempt_recv : ℕ → Unit {0} → Wake → Step (Unit {0})
attempt_recv len s w = elim (w.call len) [
  | done n ↦ finished s n
  | minus_one e ↦ if is_transient e then retry s else broken s
]

-- PoolSysRecvMsg
pub pool_sys_recv_msg : ℕ → Wake → List Wake → ℕ → Unit {0} × Result
pool_sys_recv_msg len first wakes timeout = start (attempt_recv len) first wakes timeout tt

-- recvfrom: an amount of 0 is not returned, but errno is asked, which it does not set.
pub attempt_recv_from : ℕ → Unit {0} → Wake → Step (Unit {0})
attempt_recv_from len s w = elim (w.call len) [
  | done n ↦ if ltb 0 n then finished s n else if is_transient w.stale then retry s else broken s
  | minus_one e ↦ if is_transient e then retry s else broken s
]

-- PoolSysRecvFromMsg
pub pool_sys_recv_from_msg : ℕ → Wake → List Wake → ℕ → Unit {0} × Result
pool_sys_recv_from_msg len first wakes timeout =
    start (attempt_recv_from len) first wakes timeout tt

-- PoolSysSendToMsg: sendto of a whole datagram returns what recv would
pub pool_sys_send_to_msg : ℕ → Wake → List Wake → ℕ → Unit {0} × Result
pool_sys_send_to_msg len first wakes timeout = start (attempt_recv len) first wakes timeout tt
