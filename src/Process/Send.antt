-- ===== src/Process/Send.antt =====
-- SendMsg of sources/gsdm/src/eventdrive/baseprocess.cpp: the stream keeps its order, and write
-- events are asked for exactly while bytes wait.
use gsdm.Base.{
  ℕ, ◌-◌, ◌≤◌, ◌<◌, ◌≡◌, refl, sym, ap, ◌∙◌, Bool, true, false, not, Option, some, List, [], ◌∷◌,
  ◌++◌, append-nil, append_assoc, arith, inl, inr, ◌⊎◌, ltb, ltb→le, ltb→lt, lt→ltb, le→ltb, length,
  take, drop, length-append, length-take, take-append-drop, Bool-cases, if◌then◌else◌,
}
use gsdm.Base.Returns
use gsdm.Base.Returns.{Returns, returns}
use gsdm.Buffer.{Alloc, Sent}
use gsdm.Buffer.Valid.{IsValid}
use gsdm.Buffer.Transfer.Consume.{accepted}
use gsdm.Process.{Process, channel, is_connected, cached, save_cache, send_direct, send_msg}
use gsdm.Process.Stream.{
  waiting, Ready, Result, cached_lem, save_cache-Result, send_direct-Result, offered, offered-le,
  Bounded, flushed, Flushed, flush_output-Flushed,
}

-- The bytes that reach the kernel in a call of SendMsg: first what waits is flushed, and only
-- when nothing waits any more the message itself is offered.
pub wire : (flush direct : List ℕ → Sent) → Process → List ℕ → List ℕ
unfolding flushed
wire flush direct p message =
    if ltb 0 (length (waiting p))
    then take (flushed flush p) (waiting p)
      ++ (if ltb (flushed flush p) (length (waiting p))
          then []
          else take (accepted (direct message)) message)
    else take (accepted (direct message)) message

-- After a call that returns true: what reached the kernel and what waits are, in order, what
-- waited before and the message; write events are asked for exactly when bytes wait.
pub record Delivered (sent_bytes before : List ℕ) (q : Process) : Type 0 where
  pub valid : IsValid q.output_buffer
  pub stream : sent_bytes ++ waiting q ≡ before
  pub watched : q.is_write ≡ ltb 0 (length (waiting q))
  pub registered : q.epoll_out ≡ q.is_write

abbrev pub Outcome : List ℕ → List ℕ → Process × Bool → Type 0
Outcome sent_bytes before (q, result) =
    ((result ≡ true) × Delivered sent_bytes before q) ⊎ (result ≡ false)

deliver :
    (sent_bytes before stream : List ℕ) (r : Process × Bool)
    → sent_bytes ++ stream ≡ before
    → Result stream r
    → Outcome sent_bytes before r
deliver sent_bytes before stream (q, result) e (inr failed) = inr failed
deliver sent_bytes before stream (q, result) e (inl (done, s)) = inl (
  done,
  record {
    valid = s.valid;
    stream = ap (λ xs. sent_bytes ++ xs) s.stream_eq ∙ e;
    watched = s.watched ∙ ap (λ xs. ltb 0 (length xs)) (sym s.stream_eq);
    registered = s.registered;
  },
)

nil_of : (xs : List ℕ) → ltb 0 (length xs) ≡ false → xs ≡ []
nil_of [] e = refl
nil_of (x ∷ xs) e = absurd (omega (arith, ltb→le 0 (length (x ∷ xs)) e))

regroup_kept :
    (front back whole message : List ℕ)
    → front ++ back ≡ whole
    → (front ++ []) ++ (back ++ message) ≡ whole ++ message
regroup_kept front back whole message e =
    ap (λ xs. xs ++ (back ++ message)) (append-nil front)
    ∙ sym (append_assoc front back message)
    ∙ ap (λ xs. xs ++ message) e

regroup_sent :
    (front whole message : List ℕ) (k : ℕ)
    → front ≡ whole
    → (front ++ take k message) ++ drop k message ≡ whole ++ message
regroup_sent front whole message k e =
    append_assoc front (take k message) (drop k message)
    ∙ ap (λ xs. front ++ xs) (take-append-drop k message)
    ∙ ap (λ xs. xs ++ message) e

module _ (alloc : Alloc) (flush direct : List ℕ → Sent) (p : Process) (message : List ℕ) where
  module _ (r : Ready p (length message)) (bounded : Bounded flush) (n : ℕ) where
    Flushed-Ready : (q : Process) → Flushed n p q → Ready q (length message)
    Flushed-Ready q f = record {
      valid = f.valid;
      fits = record {
        third_lt = rw f.size_eq r.fits.third_lt;
        request_lt = r.fits.request_lt;
        chunk_lt = rw f.chunk_eq r.fits.chunk_lt;
      };
      watch = f.watch;
    }

    left_over :
        (q : Process)
        → Flushed n p q
        → n ≤ length (waiting p)
        → length (waiting q) ≡ length (waiting p) - n
    left_over q f h = omega (
      arith,
      ap length f.stream,
      length-append {0} (take n (waiting p)) (waiting q),
      length-take {0} n (waiting p),
    )

  flushed-le : Bounded flush → flushed flush p ≤ length (waiting p)
  unfolding flushed
  flushed-le bounded = omega (
    arith,
    bounded (offered (channel p.handler) (waiting p)),
    offered-le (channel p.handler) (waiting p),
  )

  -- The part of SendMsg after a flush that did not fail.
  after_flush : Process → Option (Process × Bool)
  after_flush q =
      if ltb 0 (cached q)
      then save_cache alloc q message (cached q)
      else send_direct alloc direct q message (cached q) (channel p.handler)

  after_flush-Outcome :
      (r : Ready p (length message)) (bounded : Bounded flush) (q : Process)
      → 0 < length (waiting p)
      → Flushed (flushed flush p) p q
      → flushed flush p ≤ length (waiting p)
      → Returns (Outcome (wire flush direct p message) (waiting p ++ message)) (after_flush q)
  unfolding after_flush wire
  after_flush-Outcome r bounded q some_waiting f h =
      let n = flushed flush p in
      let r' = Flushed-Ready r bounded n q f in
      let all = cached_lem q (length message) r' in
      let left = left_over r bounded n q f h in
      rw (lt→ltb 0 (length (waiting p)) some_waiting, all)
        (elim (Bool-cases (ltb 0 (length (waiting q)))) [
          | inl more ↦
              let part : ltb n (length (waiting p)) ≡ true =
                lt→ltb _ _ (omega (arith, left, ltb→lt _ _ more)) in
              rw (more, part)
                (Returns.mono
                  (save_cache-Result alloc q message (length (waiting q)) r'
                    (omega (arith, ltb→lt _ _ more)))
                  (λ a.
                    deliver _ _ _ a
                      (regroup_kept (take n (waiting p)) (waiting q) (waiting p) message f.stream)))
          | inr none_left ↦
              let whole : ltb n (length (waiting p)) ≡ false =
                le→ltb _ _ (omega (arith, left, ltb→le _ _ none_left)) in
              let gone : take n (waiting p) ≡ waiting p =
                sym (append-nil _)
                ∙ ap (λ xs. take n (waiting p) ++ xs) (sym (nil_of _ none_left))
                ∙ f.stream in
              rw (none_left, whole)
                (Returns.mono
                  (send_direct-Result alloc q message r' direct (length (waiting q))
                    (channel p.handler) (nil_of _ none_left))
                  (λ a. deliver _ _ _ a (
                    regroup_sent (take n (waiting p)) (waiting p) message
                      (accepted (direct message)) gone)))
        ])

  direct_stream :
      ltb 0 (length (waiting p)) ≡ false
      → wire flush direct p message ++ drop (accepted (direct message)) message
        ≡ waiting p ++ message
  unfolding wire
  direct_stream e = rw e (
      take-append-drop (accepted (direct message)) message
      ∙ ap (λ xs. xs ++ message) (sym (nil_of _ e)))

  settle :
      (r : Ready p (length message)) (bounded : Bounded flush) (q : Process) (done : Bool)
      → 0 < length (waiting p)
      → Flushed (flushed flush p) p q ⊎ (done ≡ false)
      → Returns
          (Outcome (wire flush direct p message) (waiting p ++ message))
          (if not done then some (q, false) else after_flush q)
  settle r bounded q false h res = returns (inr refl)
  settle r bounded q true h (inr failed) = cc
  settle r bounded q true h (inl f) = after_flush-Outcome r bounded q h f (flushed-le bounded)

  -- SendMsg on a connected process, for kernels that take no more than they are offered: the call
  -- never faults, and unless it returns false, the bytes that reached the kernel followed by
  -- those that wait are the bytes that waited followed by the message; the buffer is
  -- well-formed, and EPOLLOUT is asked for exactly when bytes wait.
  pub send_msg-Outcome :
      Ready p (length message)
      → Bounded flush
      → is_connected p.net_status ≡ true
      → Returns
          (Outcome (wire flush direct p message) (waiting p ++ message))
          (send_msg alloc flush direct p message)
  unfolding send_msg after_flush flushed
  send_msg-Outcome r bounded up =
      let all = cached_lem p (length message) r in
      rw (up, all)
        (elim (Bool-cases (ltb 0 (length (waiting p)))) [
          | inr none_left ↦ rw none_left (
              Returns.mono
                (send_direct-Result alloc p message r direct (length (waiting p))
                  (channel p.handler) (nil_of _ none_left))
                λ a. deliver _ _ _ a (direct_stream none_left))
          | inl more ↦ rw more (
              Returns.bind
                (flush_output-Flushed flush bounded p r.valid r.watch (channel p.handler))
                λ (q, done) res. settle r bounded q done (ltb→lt _ _ more) res)
        ])
