-- ===== src/Pool/Delivery.antt =====
-- PoolSysSendMsg sends the message (sources/gsdm/src/pooldrive/poolworkerex.cpp).
use gsdm.Base.{
  ℕ, ◌+◌, ◌-◌, ◌≤◌, ◌≡◌, refl, sym, ap, ◌∙◌, true, false, List, [], ◌∷◌, ◌++◌, arith, inl, inr,
  Bool-cases, leb, ◌==◌, ==_iff, length, take, drop,
}
use gsdm.Base.Slices.{take_add, take_all}
use gsdm.Pool.{
  Wake, Waited, event, no_event, wait_failed, Errno, Reply, done, minus_one, is_transient, Step,
  finished, broken, late, retry, Result, returned, failed, expired, pending, round, next, wait_loop,
  Sending, after_send_call, attempt_send, carry_on, start, pool_sys_send_msg,
}

-- send takes no more than it is offered.
abbrev pub Takes : Reply → ℕ → Type 0
Takes (done n) k = n ≤ k
Takes (minus_one e) k = Unit {0}

abbrev pub Honest : Wake → Type 0
Honest w = (k : ℕ) → Takes (w.call k) k

abbrev pub AllHonest : List Wake → Type 0
AllHonest [] = Unit {0}
AllHonest (w ∷ ws) = Honest w × AllHonest ws

-- The kernel has the first `send_len` bytes, in order.
pub record Sent (message : List ℕ) (s : Sending) : Type 0 where
  pub len_le : s.send_len ≤ length message
  pub wire_eq : s.wire ≡ take s.send_len message

-- An amount that is returned is the whole length, and the kernel has the whole message.
abbrev pub Delivered : List ℕ → Sending × Result → Type 0
Delivered message (s, returned n) = (n ≡ length message) × (s.wire ≡ message)
Delivered message (s, failed) = Sent message s
Delivered message (s, expired) = Sent message s
Delivered message (s, pending) = Sent message s

abbrev Stepped : List ℕ → Step Sending → Type 0
Stepped message (finished s n) = (n ≡ length message) × (s.wire ≡ message)
Stepped message (broken s) = Sent message s
Stepped message (late s) = Sent message s
Stepped message (retry s) = Sent message s

module _ (message : List ℕ) where
  advanced :
      (s : Sending) (n : ℕ)
      → Sent message s
      → n ≤ length message - s.send_len
      → Sent message
          (record { send_len = s.send_len + n; wire = s.wire ++ take n (drop s.send_len message) })
  advanced s n sent h = record {
    len_le = omega (arith, sent.len_le);
    wire_eq =
        ap (λ w. w ++ take n (drop s.send_len message)) sent.wire_eq
        ∙ sym (take_add s.send_len n message);
  }

  whole : (s : Sending) → Sent message s → length message ≡ s.send_len → s.wire ≡ message
  whole s sent e = sent.wire_eq ∙ take_all s.send_len message (omega arith)

  after_send_call-Stepped :
      (s : Sending) (reply : Reply)
      → Sent message s
      → Takes reply (length message - s.send_len)
      → Stepped message (after_send_call message s reply)
  unfolding after_send_call
  after_send_call-Stepped s (minus_one e) sent h = elim (Bool-cases (is_transient e)) [
    | inl transient ↦ rw transient sent
    | inr lost ↦ rw lost sent
  ]
  after_send_call-Stepped s (done n) sent h =
      let forward = advanced s n sent h in
      elim (Bool-cases (length message == s.send_len + n)) [
        | inr part ↦ rw part forward
        | inl all ↦
            let e : length message ≡ s.send_len + n = (==_iff _ _).0 all in
            rw all (sym e, whole _ forward e)
      ]

  attempt_send-Stepped :
      (s : Sending) (w : Wake)
      → Sent message s
      → Honest w
      → Stepped message (attempt_send message s w)
  unfolding attempt_send
  attempt_send-Stepped s w sent honest =
      after_send_call-Stepped s (w.call (length message - s.send_len)) sent
        (honest (length message - s.send_len))

  round-Stepped :
      (s : Sending) (w : Wake) (waited : Waited)
      → Sent message s
      → Honest w
      → Stepped message (round (attempt_send message) s w waited)
  unfolding round
  round-Stepped s w (event true hangup wanted) sent honest = sent
  round-Stepped s w (event false true wanted) sent honest = sent
  round-Stepped s w (event false false true) sent honest = attempt_send-Stepped s w sent honest
  round-Stepped s w (event false false false) sent honest = sent
  round-Stepped s w no_event sent honest = sent
  round-Stepped s w (wait_failed Errno.interrupted) sent honest = sent
  round-Stepped s w (wait_failed Errno.again) sent honest = sent
  round-Stepped s w (wait_failed Errno.other) sent honest = sent

  next-Delivered :
      (rest : ℕ → Sending → Sending × Result) (timeout took : ℕ) (step : Step Sending)
      → ((t : ℕ) (s : Sending) → Sent message s → Delivered message (rest t s))
      → Stepped message step
      → Delivered message (next (attempt_send message) rest timeout took step)
  unfolding next
  next-Delivered rest timeout took (finished s n) h step = step
  next-Delivered rest timeout took (broken s) h step = step
  next-Delivered rest timeout took (late s) h step = step
  next-Delivered rest timeout took (retry s) h step = elim (Bool-cases (leb timeout took)) [
    | inl over ↦ rw over step
    | inr early ↦ rw early (h (timeout - took) s step)
  ]

  wait_loop-Delivered :
      (wakes : List Wake) (timeout : ℕ) (s : Sending)
      → Sent message s
      → AllHonest wakes
      → Delivered message (wait_loop (attempt_send message) wakes timeout s)
  unfolding wait_loop
  wait_loop-Delivered [] timeout s sent honest = sent
  wait_loop-Delivered (w ∷ ws) timeout s sent (honest, all) =
      next-Delivered (wait_loop (attempt_send message) ws) timeout w.took
        (round (attempt_send message) s w w.waited)
        (λ t s' sent'. wait_loop-Delivered ws t s' sent' all)
        (round-Stepped s w w.waited sent honest)

  carry_on-Delivered :
      (wakes : List Wake) (timeout : ℕ) (step : Step Sending)
      → Stepped message step
      → AllHonest wakes
      → Delivered message (carry_on (attempt_send message) wakes timeout step)
  unfolding carry_on
  carry_on-Delivered wakes timeout (finished s n) step honest = step
  carry_on-Delivered wakes timeout (broken s) step honest = step
  carry_on-Delivered wakes timeout (late s) step honest = step
  carry_on-Delivered wakes timeout (retry s) step honest =
      wait_loop-Delivered wakes timeout s step honest

  -- PoolSysSendMsg, over any answers of the kernel in which send takes at most what it is offered:
  -- if it returns an amount, that is the length of the message, and the kernel has the whole
  -- message; in every other case the kernel has a prefix of the message, in order.
  pub pool_sys_send_msg-Delivered :
      (first : Wake) (wakes : List Wake) (timeout : ℕ)
      → Honest first
      → AllHonest wakes
      → Delivered message (pool_sys_send_msg message first wakes timeout)
  unfolding pool_sys_send_msg start
  pool_sys_send_msg-Delivered first wakes timeout honest all =
      let nothing : Sent message (record { send_len = 0; wire = [] }) = record {
        len_le = omega arith;
        wire_eq = refl;
      } in
      carry_on-Delivered wakes timeout _ (attempt_send-Stepped _ first nothing honest) all
