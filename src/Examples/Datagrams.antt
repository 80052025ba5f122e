-- ===== src/Examples/Datagrams.antt =====
-- The theorem on waiting datagrams at a buffer with two of them.
use gsdm.Base.{refl, none, some, [], ◌∷◌, ◌++◌, replicate, arith, if◌then◌else◌, ◌==◌}
use gsdm.Base.Returns.{Returns}
use gsdm.Buffer.{Buffer, Errno, bytes}
use gsdm.Datagrams.{Sendto, send_cached}
use gsdm.Datagrams.Entries.{Entry, encodes}
use gsdm.Datagrams.Queue.{Left, send_cached-Queue}

abbrev first : Entry
first = ((0, 0), record { address = replicate 16 1; payload = 7 ∷ 8 ∷ [] })

abbrev second : Entry
second = ((5, 6), record { address = replicate 16 2; payload = 9 ∷ [] })

-- 43 bytes wait, and one cell is free.
abbrev queue : Buffer
queue = record {
  buffer = some (encodes (first ∷ second ∷ []) ++ 0 ∷ []);
  size = 44;
  published = 43;
  consumed = 0;
  min_chunk_size = 4;
}

-- The second call of sendto, with 42 rounds left, would block.
abbrev blocks : Sendto
blocks n d = if n == 42 then some Errno.again else none

send_cached-Queue_example :
    Returns (Left (first ∷ second ∷ [])) (send_cached blocks 44 (bytes queue.buffer) 0 43 queue)
send_cached-Queue_example =
    send_cached-Queue blocks (first ∷ second ∷ []) queue
      (refl, (omega arith, (refl, (omega arith, tt)))) (omega arith) refl (omega arith)
