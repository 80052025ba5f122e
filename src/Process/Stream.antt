-- ===== src/Process/Stream.antt =====
-- The parts of SendMsg (sources/gsdm/src/eventdrive/baseprocess.cpp): the flush of what waits, the
-- direct write, and the bytes that are kept.
use gsdm.Base.{
  subst, ℕ, ◌+◌, ◌≤◌, ◌<◌, ◌≡◌, refl, sym, ◌∙◌, Bool, true, false, some, List, [], ◌∷◌, ◌++◌, arith,
  inl, inr, ◌⊎◌, ltb, lt→ltb, length, take, drop, length-append, length-take, length-drop,
  Bool-cases, add32, if◌then◌else◌,
}
use gsdm.Base.Returns
use gsdm.Base.Returns.{Returns, returns}
use gsdm.Buffer.{Alloc, Errno, Sent, sent, send_failed}
use gsdm.Buffer.Valid.{IsValid, Fits, content}
use gsdm.Buffer.Transfer.Append.{read_from_buffer-Appended}
use gsdm.Buffer.Transfer.Consume.{
  accepted, available_lem, length-content, write_to_tcp_fd-Written, write_to_fd-Written,
}
use gsdm.Process.{
  Process, Channel, channel, cached, enable_write, disable_write, save_cache, after_direct,
  send_direct, flush_output,
}

abbrev pub waiting : Process → List ℕ
waiting p = content p.output_buffer

-- A process whose message can be sent or kept: its buffer is well-formed and has room to grow,
-- and what it believes of the write events is what is registered.
pub record Ready (p : Process) (n : ℕ) : Type 0 where
  pub valid : IsValid p.output_buffer
  pub fits : Fits p.output_buffer n
  pub watch : p.epoll_out ≡ p.is_write

-- What a run that returns true leaves: `extra` waits behind what waited in `p`.
pub record Settled (stream : List ℕ) (q : Process) : Type 0 where
  pub valid : IsValid q.output_buffer
  pub stream_eq : waiting q ≡ stream
  pub watched : q.is_write ≡ ltb 0 (length stream)
  pub registered : q.epoll_out ≡ q.is_write

abbrev pub Result : List ℕ → Process × Bool → Type 0
Result stream (q, result) = ((result ≡ true) × Settled stream q) ⊎ (result ≡ false)

pub cached_lem : (p : Process) (n : ℕ) → Ready p n → cached p ≡ length (waiting p)
cached_lem p n r = omega (
  arith,
  available_lem p.output_buffer r.valid,
  length-content p.output_buffer r.valid,
  r.valid.published_le,
  r.fits.third_lt,
)

module _ (q : Process) (stream : List ℕ) where
  enable-Settled :
      IsValid q.output_buffer
      → waiting q ≡ stream
      → q.epoll_out ≡ q.is_write
      → 0 < length stream
      → Settled stream (enable_write q)
  unfolding enable_write
  enable-Settled v e w h = elim (Bool-cases q.is_write) [
    | inl on ↦ rw on (record {
      valid = v;
      stream_eq = e;
      watched = sym (lt→ltb 0 (length stream) h);
      registered = w ∙ on;
    })
    | inr off ↦ rw off (record {
      valid = v;
      stream_eq = e;
      watched = sym (lt→ltb 0 (length stream) h);
      registered = refl;
    })
  ]

  disable-Settled :
      IsValid q.output_buffer
      → waiting q ≡ stream
      → q.epoll_out ≡ q.is_write
      → length stream ≡ 0
      → Settled stream (disable_write q)
  unfolding disable_write
  disable-Settled v e w h = elim (Bool-cases q.is_write) [
    | inl on ↦
        rw on (record { valid = v; stream_eq = e; watched = ground (arith, h); registered = refl })
    | inr off ↦ rw off (record {
      valid = v;
      stream_eq = e;
      watched = ground (arith, h, off);
      registered = w ∙ off;
    })
  ]

module _ (alloc : Alloc) (p : Process) where
  pub save_cache-Result :
      (rest : List ℕ) (cache : ℕ)
      → Ready p (length rest)
      → 0 < length (waiting p) + length rest
      → Returns (Result (waiting p ++ rest)) (save_cache alloc p rest cache)
  unfolding save_cache
  save_cache-Result rest cache r some_left =
      elim (Bool-cases (ltb p.send_buffer_size (add32 cache (length rest)))) [
        | inl over ↦ rw over (returns (inr refl))
        | inr under ↦ rw under (
            Returns.bind (read_from_buffer-Appended alloc p.output_buffer rest r.valid r.fits)
              λ (out, done) (app, ready). rw ready (
                returns (
                  inl (
                    refl,
                    enable-Settled (record p { output_buffer = out }) (waiting p ++ rest) app.valid
                        app.content_eq r.watch (omega (arith, length-append {0} (waiting p) rest)),
                  ))))
      ]

  module _ (message : List ℕ) (r : Ready p (length message)) where
    Ready-drop : (n : ℕ) → Ready p (length (drop n message))
    Ready-drop n = record {
      valid = r.valid;
      fits = record {
        third_lt = r.fits.third_lt;
        request_lt = omega (arith, length-drop {0} n message, r.fits.request_lt);
        chunk_lt = r.fits.chunk_lt;
      };
      watch = r.watch;
    }

    -- With nothing in front of it, what is left of the message waits; if nothing is left, no
    -- write event is asked for.
    keep_rest :
        (rest : List ℕ) (cache : ℕ)
        → Ready p (length rest)
        → waiting p ≡ []
        → Returns (Result rest) (
            if ltb 0 (length rest)
            then save_cache alloc p rest cache
            else some (disable_write p, true))
    keep_rest [] cache r' none_left =
        returns (inl (refl, disable-Settled p [] r'.valid none_left r'.watch refl))
    keep_rest (x ∷ rest) cache r' none_left = rw (lt→ltb 0 (length (x ∷ rest)) (omega arith)) (
        Returns.mono (save_cache-Result (x ∷ rest) cache r' (omega arith))
          λ a res. subst (λ w. Result (w ++ x ∷ rest) a) none_left res)

    after_direct-Result :
        (cache : ℕ) (s : Sent)
        → waiting p ≡ []
        → Returns (Result (drop (accepted s) message)) (after_direct alloc p message cache s)
    unfolding after_direct accepted
    after_direct-Result cache (sent n) none_left =
        keep_rest (drop n message) cache (Ready-drop n) none_left
    after_direct-Result cache (send_failed Errno.again) none_left =
        keep_rest message cache r none_left
    after_direct-Result cache (send_failed e) none_left = returns (inr refl)

    pub send_direct-Result :
        (kernel : List ℕ → Sent) (cache : ℕ) (c : Channel)
        → waiting p ≡ []
        → Returns
            (Result (drop (accepted (kernel message)) message))
            (send_direct alloc kernel p message cache c)
    unfolding send_direct
    send_direct-Result kernel cache Channel.neither none_left = returns (inr refl)
    send_direct-Result kernel cache _ none_left =
        after_direct-Result cache (kernel message) none_left

-- The bytes that a flush offers, and a kernel that takes no more than it is offered.
unfoldable pub offered : Channel → List ℕ → List ℕ
offered Channel.socket bs = take 0x800000 bs
offered _ bs = bs

pub offered-le : (c : Channel) (bs : List ℕ) → length (offered c bs) ≤ length bs
unfolding offered
offered-le Channel.socket bs = omega (arith, length-take {0} 0x800000 bs)
offered-le _ bs = omega arith

abbrev pub Bounded : (List ℕ → Sent) → Type 0
Bounded kernel = (bs : List ℕ) → accepted (kernel bs) ≤ length bs

unfoldable pub flushed : (List ℕ → Sent) → Process → ℕ
flushed kernel p = accepted (kernel (offered (channel p.handler) (waiting p)))

-- A flush took bytes from the front; only the buffer has changed.
pub record Flushed (n : ℕ) (p q : Process) : Type 0 where
  pub valid : IsValid q.output_buffer
  pub stream : take n (waiting p) ++ waiting q ≡ waiting p
  pub size_eq : q.output_buffer.size ≡ p.output_buffer.size
  pub chunk_eq : q.output_buffer.min_chunk_size ≡ p.output_buffer.min_chunk_size
  pub watch : q.epoll_out ≡ q.is_write

module _ (kernel : List ℕ → Sent) (bounded : Bounded kernel) (p : Process)
    (v : IsValid p.output_buffer) (w : p.epoll_out ≡ p.is_write) where
  pub flush_output-Flushed :
      (c : Channel)
      → Returns
          (λ (q, done). Flushed (accepted (kernel (offered c (waiting p)))) p q ⊎ (done ≡ false))
          (flush_output kernel p c)
  unfolding flush_output offered
  flush_output-Flushed Channel.neither = returns (inr refl)
  flush_output-Flushed Channel.socket =
      Returns.bind (write_to_tcp_fd-Written kernel p.output_buffer 0x800000 v (bounded _))
        λ (out, done, count) (wr, res, amount). returns (
          inl (record {
            valid = wr.valid;
            stream = wr.stream;
            size_eq = wr.size_eq;
            chunk_eq = wr.chunk_eq;
            watch = w;
          }))
  flush_output-Flushed Channel.pipe =
      Returns.bind (write_to_fd-Written kernel p.output_buffer 0x800000 v (bounded _))
        λ (out, done) (wr, res). returns (
          inl (record {
            valid = wr.valid;
            stream = wr.stream;
            size_eq = wr.size_eq;
            chunk_eq = wr.chunk_eq;
            watch = w;
          }))
