-- ===== src/Buffer/Transfer/Consume.antt =====
-- The ways out of an IOBuffer (sources/gsdm/src/buffering/iobuffer.cpp): Ignore, IgnoreAll and
-- the writes take bytes from the front.
use gsdm.Base.{
  ℕ, ◌+◌, ◌-◌, ◌≤◌, ◌≡◌, refl, sym, ap, ◌∙◌, Bool, true, some, List, [], ◌++◌, arith, inl, inr, ltb,
  ◌==◌, ltb→lt, ltb→le, ==_iff, length, take, drop, length-take, length-drop, Bool-cases, add64,
  if◌then◌else◌, take-append-drop, drop-drop,
}
use gsdm.Base.Int.{ℤ, pos, negsuc}
use gsdm.Base.Slices.{take_zero, take_all, take-take, drop-take}
use gsdm.Base.Returns.{Returns, returns}
use gsdm.Buffer.{
  Buffer, Errno, Sent, sent, send_failed, is_again, bytes, load_bytes, available, recycle, ignore,
  ignore_all,
}
use gsdm.Buffer.Memory.{load_bytes_lem}
use gsdm.Buffer.Ensure.{Kept, Kept-refl}
use gsdm.Buffer.Transfer.{after_send, write_to_tcp_fd, write_to_fd}
use gsdm.Buffer.Valid.{IsValid, content}

-- `n` bytes have left the front.
pub record Dropped (b : Buffer) (n : ℕ) (b' : Buffer) : Type 0 where
  pub valid : IsValid b'
  pub content_eq : content b' ≡ drop n (content b)
  pub size_eq : b'.size ≡ b.size
  pub chunk_eq : b'.min_chunk_size ≡ b.min_chunk_size

pub length-content : (b : Buffer) → IsValid b → length (content b) ≡ b.published - b.consumed
length-content b v = omega (
  arith,
  length-take {0} (b.published - b.consumed) (drop b.consumed (bytes b.buffer)),
  length-drop {0} b.consumed (bytes b.buffer),
  v.memory,
  v.published_le,
)

pub available_lem : (b : Buffer) → IsValid b → available b ≡ length (content b)
unfolding available
available_lem b v = omega (arith, length-content b v, v.consumed_le, v.published_le, v.word)

recycle-Kept : (b : Buffer) → IsValid b → Kept b (recycle b)
unfolding recycle
recycle-Kept b v = elim (Bool-cases (b.consumed == b.published)) [
  | inr apart ↦ rw apart (Kept-refl b v)
  | inl same ↦ rw same (
      let e : b.published - b.consumed ≡ 0 =
        omega (arith, (==_iff b.consumed b.published).0 same) in
      record {
        valid = record {
          consumed_le = omega arith;
          published_le = omega arith;
          memory = v.memory;
          word = v.word;
        };
        content_eq = sym (take_zero _ (drop b.consumed (bytes b.buffer)) e);
        chunk_eq = refl;
      })
]

-- Moving `consumed_` forward, within what is published.
advance-Dropped :
    (b : Buffer) (n : ℕ)
    → IsValid b
    → n ≤ length (content b)
    → Dropped b n (record b { consumed = add64 b.consumed n })
advance-Dropped b n v h =
    let mem = bytes b.buffer in
    let len = length-content b v in
    let sum : add64 b.consumed n ≡ b.consumed + n =
      omega (arith, len, v.consumed_le, v.published_le, v.word) in
    let less : b.published - (b.consumed + n) ≡ b.published - b.consumed - n = omega arith in
    rw sum (record {
      valid = record {
        consumed_le = omega (arith, len, v.consumed_le);
        published_le = v.published_le;
        memory = v.memory;
        word = v.word;
      };
      content_eq =
          ap (λ xs. take (b.published - (b.consumed + n)) xs) (sym (drop-drop n b.consumed mem))
          ∙ ap (λ k. take k (drop n (drop b.consumed mem))) less
          ∙ sym (drop-take n (b.published - b.consumed) (drop b.consumed mem));
      size_eq = refl;
      chunk_eq = refl;
    })

Dropped-recycle : {b b' : Buffer} {n : ℕ} → Dropped b n b' → Dropped b n (recycle b')
unfolding recycle
Dropped-recycle {b'} d =
    let k = recycle-Kept b' d.valid in
    record {
      valid = k.valid;
      content_eq = k.content_eq ∙ d.content_eq;
      size_eq = ground (arith, d.size_eq);
      chunk_eq = k.chunk_eq ∙ d.chunk_eq;
    }

-- Ignore drops the first `n` bytes, where so many are there.
pub ignore-Dropped :
    (b : Buffer) (n : ℕ) → IsValid b → n ≤ length (content b) → Dropped b n (ignore b n)
unfolding ignore
ignore-Dropped b n v h = Dropped-recycle (advance-Dropped b n v h)

-- IgnoreAll empties the buffer.
pub ignore_all-nil :
    (b : Buffer) → IsValid b → IsValid (ignore_all b) × (content (ignore_all b) ≡ [])
unfolding ignore_all recycle
ignore_all-nil b v = ground (arith, v.memory, v.word)

-- What the kernel took, and whether the write goes on.
unfoldable pub accepted : Sent → ℕ
accepted (sent n) = n
accepted (send_failed e) = 0

unfoldable pub tolerated : Sent → Bool
tolerated (sent n) = true
tolerated (send_failed e) = is_again e

pub amount : Sent → ℤ
amount (sent n) = pos n
amount (send_failed e) = negsuc 0

Dropped-zero : (b : Buffer) → IsValid b → Dropped b 0 b
Dropped-zero b v = record { valid = v; content_eq = refl; size_eq = refl; chunk_eq = refl }

after_send-Dropped :
    (b : Buffer) (s : Sent)
    → IsValid b
    → accepted s ≤ length (content b)
    → Dropped b (accepted s) (after_send b s).0
      × ((after_send b s).1 ≡ tolerated s)
      × ((after_send b s).2 ≡ amount s)
unfolding after_send accepted tolerated amount ignore
after_send-Dropped b (sent n) v h = (ignore-Dropped b n v h, refl, refl)
after_send-Dropped b (send_failed Errno.again) v h =
    (Dropped-recycle (Dropped-zero b v), refl, refl)
after_send-Dropped b (send_failed e) v h = (Dropped-zero b v, refl, refl)

-- The bytes that a write offers are the first of those that wait.
module _ (b : Buffer) (n : ℕ) (v : IsValid b) where
  offer : ℕ
  offer = if ltb (available b) n then available b else n

  offer-le : b.consumed + offer ≤ length (bytes b.buffer)
  unfolding offer
  offer-le =
      ground (arith, available_lem b v, length-content b v, v.memory, v.published_le, v.consumed_le)

  offered_eq : take offer (drop b.consumed (bytes b.buffer)) ≡ take n (content b)
  unfolding offer
  offered_eq =
      let have = available_lem b v in
      let all : available b ≡ b.published - b.consumed = have ∙ length-content b v in
      elim (Bool-cases (ltb (available b) n)) [
        | inl more ↦
            rw (more, all) (sym (take_all n (content b) (omega (arith, ltb→lt _ _ more, have))))
        | inr less ↦ rw less (
            sym (
              take-take n (b.published - b.consumed) (drop b.consumed (bytes b.buffer))
                (omega (arith, ltb→le _ _ less, all))))
      ]

  load_offered : load_bytes (bytes b.buffer) b.consumed offer ≡ some (take n (content b))
  load_offered = load_bytes_lem (bytes b.buffer) b.consumed offer offer-le ∙ ap some offered_eq

-- A write took the first bytes that it was offered, and the rest waits in order.
pub record Written (b : Buffer) (s : Sent) (b' : Buffer) : Type 0 where
  pub valid : IsValid b'
  pub stream : take (accepted s) (content b) ++ content b' ≡ content b
  pub size_eq : b'.size ≡ b.size
  pub chunk_eq : b'.min_chunk_size ≡ b.min_chunk_size

Written-Dropped : {b b' : Buffer} (s : Sent) → Dropped b (accepted s) b' → Written b s b'
Written-Dropped {b} s d = record {
  valid = d.valid;
  stream =
      ap (λ xs. take (accepted s) (content b) ++ xs) d.content_eq
      ∙ take-append-drop (accepted s) (content b);
  size_eq = d.size_eq;
  chunk_eq = d.chunk_eq;
}

module _ (kernel : List ℕ → Sent) (b : Buffer) (n : ℕ) (v : IsValid b) where
  -- WriteToTCPFd offers the first `n` bytes, keeps what the kernel leaves, and fails only on an
  -- error other than EAGAIN. No byte is lost, doubled or moved.
  pub write_to_tcp_fd-Written :
      accepted (kernel (take n (content b))) ≤ length (take n (content b))
      → Returns
          (λ (b', result, count).
            Written b (kernel (take n (content b))) b'
            × (result ≡ tolerated (kernel (take n (content b))))
            × (count ≡ amount (kernel (take n (content b)))))
          (write_to_tcp_fd kernel b n)
  unfolding write_to_tcp_fd offer
  write_to_tcp_fd-Written bounded =
      let s = kernel (take n (content b)) in
      let (d, r, a) = after_send-Dropped b s v (omega (arith, length-take {0} n (content b))) in
      rw (load_offered b n v) (returns (Written-Dropped s d, r, a))

  -- WriteToFd does so with all that waits, whatever size it is given.
  pub write_to_fd-Written :
      accepted (kernel (content b)) ≤ length (content b)
      → Returns
          (λ (b', result).
            Written b (kernel (content b)) b' × (result ≡ tolerated (kernel (content b))))
          (write_to_fd kernel b n)
  unfolding write_to_fd
  write_to_fd-Written bounded =
      let s = kernel (content b) in
      let all : available b ≡ b.published - b.consumed = available_lem b v ∙ length-content b v in
      let (d, r, a) = after_send-Dropped b s v bounded in
      rw
        (
          all,
          load_bytes_lem (bytes b.buffer) b.consumed (b.published - b.consumed)
              (omega (arith, v.memory, v.published_le, v.consumed_le)),
        )
        (returns (Written-Dropped s d, r))

pub available-ignore_all : (b : Buffer) → available (ignore_all b) ≡ 0
unfolding ignore_all recycle available
available-ignore_all b = elim (Bool-cases (b.published == b.published)) [
  | inl same ↦ rw same (omega arith)
  | inr apart ↦ rw apart (omega arith)
]
