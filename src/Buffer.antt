-- ===== src/Buffer.antt =====
-- The byte queue of sources/gsdm/include/buffering/iobuffer.h and
-- sources/gsdm/src/buffering/iobuffer.cpp: its memory, its two positions and its operations.
-- `none` as the result of an operation is a fault: a copy that leaves the allocated memory, or a
-- `memcpy` between ranges that overlap.
pub mod Ensure
pub mod Memory
pub mod Transfer
pub mod Valid
use gsdm.Base.{
  ℕ, ◌+◌, ◌*◌, ◌/◌, ◌≡◌, Bool, true, false, ◌||◌, ◌&&◌, Option, none, some, List, [], ◌++◌, ltb,
  leb, ◌==◌, if◌then◌else◌, ◌>>=◌, ◌>>◌, u32, add64, sub64, length, take, drop,
}

-- What `new uint8_t[n]` yields: n bytes that nothing has set.
pub record Alloc : Type 0 where
  pub bytes : ℕ → List ℕ
  pub length-bytes : (n : ℕ) → length (bytes n) ≡ n

-- `none` is the null pointer.
pub record Buffer : Type 0 where
  pub buffer : Option (List ℕ)
  pub size : ℕ
  pub published : ℕ
  pub consumed : ℕ
  pub min_chunk_size : ℕ

pub data Errno : Type 0 where
  again in_progress interrupted : Errno
  other : ℕ → Errno

abbrev pub is_again : Errno → Bool
is_again Errno.again = true
is_again _ = false

abbrev pub is_in_progress : Errno → Bool
is_in_progress Errno.in_progress = true
is_in_progress _ = false

-- What `read`, `recv` and `recvfrom` report: the bytes that they stored, or an error.
pub data Received : Type 0 where
  received : List ℕ → Received
  recv_failed : Errno → Received

-- What `send` and `write` report.
pub data Sent : Type 0 where
  sent : ℕ → Sent
  send_failed : Errno → Sent

-- The bytes that a read of a file stored, and whether it failed.
pub record FileRead : Type 0 where
  pub stored : List ℕ
  pub failed : Bool

abbrev pub bytes : Option (List ℕ) → List ℕ
bytes none = []
bytes (some mem) = mem

-- `n` bytes from `from` on.
pub load_bytes : List ℕ → ℕ → ℕ → Option (List ℕ)
load_bytes mem from n = if leb (from + n) (length mem) then some (take n (drop from mem)) else none

pub store_bytes : List ℕ → ℕ → List ℕ → Option (List ℕ)
store_bytes mem at src =
    if leb (at + length src) (length mem)
    then some (take at mem ++ src ++ drop (at + length src) mem)
    else none

-- `memcpy` inside one allocation; the ranges must not overlap.
pub copy_within : List ℕ → ℕ → ℕ → ℕ → Option (List ℕ)
copy_within mem to from n =
    if leb (to + n) from || (leb (from + n) to || n == 0)
    then (load_bytes mem from n >>= λ block. store_bytes mem to block)
    else none

pub with_bytes : Buffer → (List ℕ → Option (List ℕ)) → Option Buffer
with_bytes b f = elim b.buffer [
  | none ↦ (do f []; some b)
  | some mem ↦ (do mem' ← f mem; some (record b { buffer = some mem' }))
]

pub new_buffer : Buffer
new_buffer = record { buffer = none; size = 0; published = 0; consumed = 0; min_chunk_size = 4096 }

-- GETAVAILABLEBYTESCOUNT
unfoldable pub available : Buffer → ℕ
available b = sub64 b.published b.consumed

pub move_data : Buffer → Option Buffer
move_data b =
    if leb (sub64 b.published b.consumed) b.consumed
    then (do
      b' ← with_bytes b λ mem. copy_within mem 0 b.consumed (sub64 b.published b.consumed)
      some (record b' { published = sub64 b.published b.consumed; consumed = 0 }))
    else some b

-- How much is allocated past `published`; the source keeps it in the uint32_t `expected`.
pub growth : Buffer → ℕ → ℕ
growth b expected =
    let third =
      if ltb (sub64 (add64 b.published expected) b.size) (b.size / 3)
      then u32 (sub64 (add64 b.size (b.size / 3)) b.published)
      else expected in
    if ltb third b.min_chunk_size then u32 b.min_chunk_size else third

-- The copy into the new memory, if there was any before.
pub copy_over : List ℕ → Option (List ℕ) → ℕ → Option (List ℕ)
copy_over fresh none n = some fresh
copy_over fresh (some old) n = load_bytes old 0 n >>= λ block. store_bytes fresh 0 block

pub grow : Alloc → Buffer → ℕ → Option Buffer
grow alloc b expected = do
  mem ← copy_over (alloc.bytes (add64 b.published (growth b expected))) b.buffer b.published
  some (record b { buffer = some mem; size = add64 b.published (growth b expected) })

-- EnsureSize always returns true.
pub ensure_size : Alloc → Buffer → ℕ → Option (Buffer × Bool)
ensure_size alloc b expected =
    if leb (add64 b.published expected) b.size then some (b, true) else do
      b' ← move_data b
      if leb (add64 b'.published expected) b'.size
          then some (b', true)
          else do b'' ← grow alloc b' expected; some (b'', true)

pub recycle : Buffer → Buffer
recycle b = if b.consumed == b.published then record b { consumed = 0; published = 0 } else b

pub ignore : Buffer → ℕ → Buffer
unfolding recycle
ignore b n = recycle (record b { consumed = add64 b.consumed n })

pub ignore_all : Buffer → Buffer
unfolding recycle
ignore_all b = recycle (record b { consumed = b.published })

-- Initialize; `none` is the failed assertion on a buffer that was used before.
pub initialize : Alloc → Buffer → ℕ → Option (Buffer × Bool)
initialize alloc b expected = elim b.buffer [
  | some mem ↦ none
  | none ↦
      if (b.size == 0) && ((b.published == 0) && (b.consumed == 0))
      then ensure_size alloc b expected
      else none
]

pub cleanup : Buffer → Buffer
cleanup b = record b { buffer = none; size = 0; published = 0; consumed = 0 }

-- SetMinChunkSize; `none` is the failed assertion.
pub set_min_chunk_size : Buffer → ℕ → Option Buffer
set_min_chunk_size b n =
    if ltb 0 n && ltb n (16 * 1024 * 1024) then some (record b { min_chunk_size = n }) else none
