-- ===== src/Buffer/Transfer.antt =====
-- The reads into the buffer and the writes out of it, of
-- sources/gsdm/src/buffering/iobuffer.cpp. The bytes that the kernel, a file or the caller
-- supplies are arguments, and so is the kernel's answer to a write.
pub mod Append
pub mod Consume
use gsdm.Base.{
  ℕ, ◌+◌, ◌^◌, Bool, true, false, not, Option, none, some, List, [], ◌∷◌, ltb, leb, ◌==◌,
  if◌then◌else◌, ◌>>=◌, ◌>>◌, u32, add64, sub64, length, take, replicate,
}
use gsdm.Base.Int.{ℤ, pos, negsuc}
use gsdm.Buffer.{
  Alloc, Buffer, Errno, is_again, is_in_progress, Received, received, recv_failed, Sent, sent,
  send_failed, FileRead, bytes, load_bytes, store_bytes, with_bytes, available, ensure_size,
  recycle,
}

-- `memcpy(buffer_ + published_, src, n)`, or a system call that stores there.
pub store_published : Buffer → List ℕ → Option Buffer
store_published b src = with_bytes b λ mem. store_bytes mem b.published src

pub publish : Buffer → List ℕ → Option Buffer
unfolding store_published
publish b src = do
  b' ← store_published b src
  some (record b' { published = add64 b.published (length src) })

-- ReadFromBuffer
pub read_from_buffer : Alloc → Buffer → List ℕ → Option (Buffer × Bool)
read_from_buffer alloc b src = do
  (b', done) ← ensure_size alloc b (length src)
  if not done then some (b', false) else do b'' ← publish b' src; some (b'', true)

-- ReadFromInputBuffer with a start
pub read_from_input_buffer_at : Alloc → Buffer → Buffer → ℕ → ℕ → Option Buffer
unfolding read_from_buffer
read_from_input_buffer_at alloc b input start n = do
  src ← load_bytes (bytes input.buffer) (input.consumed + start) n
  (b', done) ← read_from_buffer alloc b src
  some b'

-- ReadFromInputBuffer
pub read_from_input_buffer : Alloc → Buffer → Buffer → ℕ → Option (Buffer × Bool)
unfolding read_from_buffer
read_from_input_buffer alloc b input n = do
  src ← load_bytes (bytes input.buffer) input.consumed n
  (b', done) ← read_from_buffer alloc b src
  some (b', done)

-- ReadFromString: the length is converted to uint32_t.
pub read_from_string : Alloc → Buffer → List ℕ → Option (Buffer × Bool)
unfolding read_from_buffer
read_from_string alloc b binary = do
  (b', done) ← read_from_buffer alloc b (take (u32 (length binary)) binary)
  some (b', done)

-- ReadFromByte
pub read_from_byte : Alloc → Buffer → ℕ → Option Buffer
read_from_byte alloc b byte = do
  (b', done) ← ensure_size alloc b 1
  b'' ← store_published b' (byte ∷ [])
  some (record b'' { published = add64 b'.published 1 })

-- ReadFromRepeat
pub read_from_repeat : Alloc → Buffer → ℕ → ℕ → Option Buffer
read_from_repeat alloc b byte n = do
  (b', done) ← ensure_size alloc b n
  b'' ← store_published b' (replicate n byte)
  some (record b'' { published = add64 b'.published n })

-- The check in front of a read of `expected` bytes.
pub reserve : Alloc → Buffer → ℕ → Option (Buffer × Bool)
reserve alloc b expected =
    if ltb b.size (add64 b.published expected) then ensure_size alloc b expected else some (b, true)

-- ReadFromTCPFd: the buffer, the result, and `recv_amount`.
pub read_from_tcp_fd : Alloc → Buffer → ℕ → Received → Option (Buffer × Bool × ℤ)
read_from_tcp_fd alloc b expected answer = do
  (b', done) ← reserve alloc b expected
  if not done then some (b', false, negsuc 0) else elim answer [
    | recv_failed e ↦ some (b', false, negsuc 0)
    | received bs ↦
        if ltb 0 (length bs)
        then (do b'' ← publish b' bs; some (b'', true, pos (length bs)))
        else some (b', false, pos 0)
  ]

-- ReadFromTCPPoolSocket, where RecvMsg of the worker stands in the place of `recv`.
pub read_from_tcp_pool_socket : Alloc → Buffer → ℕ → Received → Option (Buffer × Bool × ℤ)
read_from_tcp_pool_socket alloc b expected answer = do
  (b', done) ← reserve alloc b expected
  if not done then some (b', false, negsuc 0) else elim answer [
    | recv_failed e ↦ some (b', false, negsuc 0)
    | received bs ↦
        if ltb 0 (length bs)
        then (do b'' ← publish b' bs; some (b'', true, pos (length bs)))
        else some (b', false, pos 0)
  ]

-- ReadFromUDPFd
pub read_from_udp_fd : Alloc → Buffer → Received → Option (Buffer × Bool × ℤ)
read_from_udp_fd alloc b answer = do
  (b', done) ← reserve alloc b 65536
  if not done then some (b', false, negsuc 0) else elim answer [
    | recv_failed e ↦ some (b', false, negsuc 0)
    | received bs ↦
        if ltb 0 (length bs)
        then (do b'' ← publish b' bs; some (b'', true, pos (length bs)))
        else some (b', false, pos 0)
  ]

-- ReadFromFd: `before` is the value that `errno` had, which a read of no bytes leaves. When the
-- space cannot be had, `recv_amount` stays what it was.
pub read_from_fd : Alloc → Buffer → ℕ → Errno → ℤ → Received → Option (Buffer × Bool × ℤ)
read_from_fd alloc b expected before amount answer = do
  (b', done) ← reserve alloc b expected
  if not done then some (b', false, amount) else elim answer [
    | recv_failed e ↦ some (b', is_in_progress e, negsuc 0)
    | received bs ↦
        if ltb 0 (length bs)
        then (do b'' ← publish b' bs; some (b'', true, pos (length bs)))
        else some (b', is_in_progress before, pos 0)
  ]

-- ReadFromFs of a stream; a read that fails may have stored bytes before.
pub read_from_stream : Alloc → Buffer → ℕ → FileRead → Option (Buffer × Bool)
read_from_stream alloc b n answer = do
  (b', done) ← reserve alloc b n
  if not done then some (b', false) else do
    b'' ← store_published b' answer.stored
    some (
        if answer.failed
        then (b'', false)
        else (record b'' { published = add64 b'.published n }, true))

-- ReadFromFs of a file
pub read_from_file : Alloc → Buffer → ℕ → FileRead → Option (Buffer × Bool)
read_from_file alloc b n answer = if n == 0 then some (b, true) else do
  (b', done) ← reserve alloc b n
  if not done then some (b', false) else do
    b'' ← store_published b' answer.stored
    some (
        if answer.failed
        then (b'', false)
        else (record b'' { published = add64 b'.published n }, true))

-- What follows a write: an error other than EAGAIN is permanent.
pub after_send : Buffer → Sent → Buffer × Bool × ℤ
unfolding recycle
after_send b (sent n) = (recycle (record b { consumed = add64 b.consumed n }), true, pos n)
after_send b (send_failed e) =
    if is_again e then (recycle b, true, negsuc 0) else (b, false, negsuc 0)

-- WriteToTCPFd; `kernel` answers for the bytes that it is offered.
pub write_to_tcp_fd : (List ℕ → Sent) → Buffer → ℕ → Option (Buffer × Bool × ℤ)
unfolding after_send
write_to_tcp_fd kernel b n = do
  offered ← load_bytes (bytes b.buffer) b.consumed (if ltb (available b) n then available b else n)
  some (after_send b (kernel offered))

-- WriteToFd offers all that is there, whatever the size that it is given.
pub write_to_fd : (List ℕ → Sent) → Buffer → ℕ → Option (Buffer × Bool)
unfolding after_send
write_to_fd kernel b n = do
  offered ← load_bytes (bytes b.buffer) b.consumed (available b)
  let after = after_send b (kernel offered)
  some (after.0, after.1)
