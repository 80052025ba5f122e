-- ===== src/Buffer/Valid.antt =====
-- The invariant of an IOBuffer, which the source asserts in SANITY_INPUT_BUFFER
-- (sources/gsdm/src/buffering/iobuffer.cpp), and the bytes that it holds.
use gsdm.Base.{ℕ, ◌+◌, ◌-◌, ◌/◌, ◌^◌, ◌≤◌, ◌<◌, ◌≡◌, List, length, take, drop}
use gsdm.Buffer.{Buffer, bytes}

pub record IsValid (b : Buffer) : Type 0 where
  pub consumed_le : b.consumed ≤ b.published
  pub published_le : b.published ≤ b.size
  pub memory : length (bytes b.buffer) ≡ b.size
  pub word : b.size < 2 ^ 64

-- A request that the uint32_t `expected` can hold, with the third that is added to it.
pub record Fits (b : Buffer) (n : ℕ) : Type 0 where
  pub third_lt : b.size + b.size / 3 < 2 ^ 32
  pub request_lt : n < 2 ^ 32
  pub chunk_lt : b.min_chunk_size < 2 ^ 32

-- The bytes that are published and not consumed, first the next to go out.
abbrev pub content : Buffer → List ℕ
content b = take (b.published - b.consumed) (drop b.consumed (bytes b.buffer))
