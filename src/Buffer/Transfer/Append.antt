-- ===== src/Buffer/Transfer/Append.antt =====
-- The reads into an IOBuffer (sources/gsdm/src/buffering/iobuffer.cpp) add their bytes at the end.
use gsdm.Base.{
  ℕ, ◌+◌, ◌-◌, ◌≤◌, ◌≡◌, refl, sym, ap, ◌∙◌, Bool, true, false, List, [], ◌∷◌, ◌++◌, append-nil,
  arith, inl, inr, ltb, ltb→le, lt→ltb, length, take, drop, replicate, length-replicate, Bool-cases,
  add64,
}
use gsdm.Base.Int.{ℤ, pos, negsuc}
use gsdm.Base.Returns
use gsdm.Base.Returns.{Returns, returns}
use gsdm.Buffer.{Alloc, Buffer, Received, received, recv_failed, bytes}
use gsdm.Buffer.Memory.{store_bytes_lem, length-store, window-store, with_bytes_lem}
use gsdm.Buffer.Ensure.{Kept, Kept-refl, Ensured, ensure_size-Ensured}
use gsdm.Buffer.Transfer.{
  store_published, publish, read_from_buffer, read_from_byte, read_from_repeat, reserve,
  read_from_tcp_fd,
}
use gsdm.Buffer.Valid.{IsValid, Fits, content}

-- `b'` holds what `b` held, and `src` behind it.
pub record Appended (b : Buffer) (src : List ℕ) (b' : Buffer) : Type 0 where
  pub valid : IsValid b'
  pub content_eq : content b' ≡ content b ++ src
  pub chunk_eq : b'.min_chunk_size ≡ b.min_chunk_size

pub Appended-nil : {b b' : Buffer} → Kept b b' → Appended b [] b'
Appended-nil k = record {
  valid = k.valid;
  content_eq = k.content_eq ∙ sym (append-nil _);
  chunk_eq = k.chunk_eq;
}

Appended-after :
    {b b' b'' : Buffer} {src : List ℕ} → Kept b b' → Appended b' src b'' → Appended b src b''
Appended-after {src} k a = record {
  valid = a.valid;
  content_eq = a.content_eq ∙ ap (λ xs. xs ++ src) k.content_eq;
  chunk_eq = a.chunk_eq ∙ k.chunk_eq;
}

-- A copy behind the published bytes, with the position moved over it.
pub store-Appended :
    (b : Buffer) (src : List ℕ)
    → IsValid b
    → b.published + length src ≤ b.size
    → Returns
        (λ b'.
          Appended b src (record b' { published = add64 b.published (length src) })
          × (b'.published ≡ b.published))
        (store_published b src)
unfolding store_published
store-Appended b src v room =
    let mem = bytes b.buffer in
    let inside : b.published + length src ≤ length mem = omega (arith, v.memory) in
    let kept = length-store mem b.published src inside in
    let sum : add64 b.published (length src) ≡ b.published + length src = omega (arith, v.word) in
    rw sum (
      Returns.mono (with_bytes_lem b _ _ (store_bytes_lem mem b.published src inside) kept) λ b' r.
        (
          record {
            valid = record {
              consumed_le = omega (arith, r.consumed_eq, v.consumed_le);
              published_le = omega (arith, r.size_eq, room);
              memory = ap length r.bytes_eq ∙ kept ∙ v.memory ∙ sym r.size_eq;
              word = omega (arith, r.size_eq, v.word);
            };
            content_eq =
                ap (λ c. take (b.published + length src - c) (drop c (bytes b'.buffer)))
                  r.consumed_eq
                ∙ ap (λ m. take (b.published + length src - b.consumed) (drop b.consumed m))
                    r.bytes_eq
                ∙ window-store mem b.consumed b.published src v.consumed_le inside;
            chunk_eq = r.chunk_eq;
          },
          r.published_eq,
        ))

pub publish-Appended :
    (b : Buffer) (src : List ℕ)
    → IsValid b
    → b.published + length src ≤ b.size
    → Returns (Appended b src) (publish b src)
unfolding publish
publish-Appended b src v room =
    Returns.bind (store-Appended b src v room) λ b' (app, same). returns app

-- ReadFromBuffer appends the bytes that it is given and returns true.
pub read_from_buffer-Appended :
    (alloc : Alloc) (b : Buffer) (src : List ℕ)
    → IsValid b
    → Fits b (length src)
    → Returns (λ (b', done). Appended b src b' × (done ≡ true)) (read_from_buffer alloc b src)
unfolding read_from_buffer
read_from_buffer-Appended alloc b src v f =
    Returns.bind (ensure_size-Ensured alloc b (length src) v f) λ (b', done) (kept, room, yes').
      rw yes' (
        Returns.bind (publish-Appended b' src kept.valid room)
          λ b'' app. returns (Appended-after kept app, refl))

-- `reserve` asks for the room only where it lacks.
reserve-Ensured :
    (alloc : Alloc) (b : Buffer) (n : ℕ)
    → IsValid b
    → Fits b n
    → Returns (Ensured b n) (reserve alloc b n)
unfolding reserve
reserve-Ensured alloc b n v f = elim (Bool-cases (ltb b.size (add64 b.published n))) [
  | inl short ↦ rw short (ensure_size-Ensured alloc b n v f)
  | inr room ↦ rw room (
      returns (
        Kept-refl b v,
        omega (arith, ltb→le _ _ room, v.published_le, f.third_lt, f.request_lt),
        refl,
      ))
]

-- What a read stored, and what it reports.
unfoldable pub stored : Received → List ℕ
stored (received bs) = bs
stored (recv_failed e) = []

unfoldable pub amount : Received → ℤ
amount (received bs) = pos (length bs)
amount (recv_failed e) = negsuc 0

unfoldable pub got_some : Received → Bool
got_some (received bs) = ltb 0 (length bs)
got_some (recv_failed e) = false

abbrev pub Read : Buffer → Received → Bool → Buffer × Bool × ℤ → Type 0
Read b answer goes_on (b', result, n) =
    Appended b (stored answer) b' × (result ≡ goes_on) × (n ≡ amount answer)

module _ (alloc : Alloc) (b : Buffer) (v : IsValid b) where
  -- ReadFromTCPFd: the bytes that `recv` stored are appended; the result is true exactly when
  -- there were some, and `recv_amount` is what `recv` returned.
  pub read_from_tcp_fd-Read :
      (expected : ℕ) (answer : Received)
      → Fits b expected
      → length (stored answer) ≤ expected
      → Returns (Read b answer (got_some answer)) (read_from_tcp_fd alloc b expected answer)
  unfolding read_from_tcp_fd stored amount got_some
  read_from_tcp_fd-Read expected (recv_failed e) f h =
      Returns.bind (reserve-Ensured alloc b expected v f)
        λ (b', done) (kept, room, ready). rw ready (returns (Appended-nil kept, refl, refl))
  read_from_tcp_fd-Read expected (received []) f h =
      Returns.bind (reserve-Ensured alloc b expected v f)
        λ (b', done) (kept, room, ready). rw ready (returns (Appended-nil kept, refl, refl))
  read_from_tcp_fd-Read expected (received (x ∷ bs)) f h =
      Returns.bind (reserve-Ensured alloc b expected v f) λ (b', done) (kept, room, ready).
        rw (ready, lt→ltb 0 (length (x ∷ bs)) (omega arith))
          (Returns.bind (publish-Appended b' (x ∷ bs) kept.valid (omega arith))
            λ b'' app. returns (Appended-after kept app, refl, refl))

  -- ReadFromByte and ReadFromRepeat append the byte, once and `n` times.
  pub read_from_byte-Appended :
      (byte : ℕ) → Fits b 1 → Returns (Appended b (byte ∷ [])) (read_from_byte alloc b byte)
  unfolding read_from_byte
  read_from_byte-Appended byte f =
      Returns.bind (ensure_size-Ensured alloc b 1 v f) λ (b', done) (kept, room, ready).
        Returns.bind (store-Appended b' (byte ∷ []) kept.valid room)
          λ b'' (app, same). returns (Appended-after kept app)

  pub read_from_repeat-Appended :
      (byte n : ℕ)
      → Fits b n
      → Returns (Appended b (replicate n byte)) (read_from_repeat alloc b byte n)
  unfolding read_from_repeat
  read_from_repeat-Appended byte n f =
      Returns.bind (ensure_size-Ensured alloc b n v f) λ (b', done) (kept, room, ready).
        let len = length-replicate n byte in
        Returns.bind (store-Appended b' (replicate n byte) kept.valid (omega (arith, len, room)))
          λ b'' (app, same). returns (Appended-after kept (rw len at app))
