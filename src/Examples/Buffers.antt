-- ===== src/Examples/Buffers.antt =====
-- The theorems on IOBuffer (sources/gsdm/src/buffering/iobuffer.cpp) at a buffer of six bytes.
use gsdm.Base.{ℕ, ◌≡◌, ◌≤◌, true, some, List, [], ◌∷◌, replicate, length-replicate, arith}
use gsdm.Base.Returns.{Returns}
use gsdm.Buffer.{Alloc, Buffer, Sent, sent, received, move_data, ensure_size}
use gsdm.Buffer.Valid.{IsValid, Fits}
use gsdm.Buffer.Ensure.{Kept, Ensured, move_data-Kept, ensure_size-Ensured}
use gsdm.Buffer.Transfer.{read_from_buffer, read_from_tcp_fd, write_to_tcp_fd}
use gsdm.Buffer.Transfer.Append.{
  Appended, Read, got_some, stored, read_from_buffer-Appended, read_from_tcp_fd-Read,
}
use gsdm.Buffer.Transfer.Consume.{Written, accepted, tolerated, amount, write_to_tcp_fd-Written}

abbrev pub zeros : Alloc
zeros = record { bytes = λ n. replicate n 0; length-bytes = λ n. length-replicate n 0 }

-- Two bytes wait, three have gone out, one cell is free.
abbrev pub sample : Buffer
sample = record {
  buffer = some (1 ∷ 2 ∷ 3 ∷ 4 ∷ 5 ∷ 6 ∷ []);
  size = 6;
  published = 5;
  consumed = 3;
  min_chunk_size = 4;
}

pub sample-IsValid : IsValid sample
sample-IsValid = omega arith

pub sample-Fits : Fits sample 4
sample-Fits = omega arith

-- The kernel takes one byte.
abbrev pub takes_one : List ℕ → Sent
takes_one [] = sent 0
takes_one (x ∷ xs) = sent 1

move_data-Kept_example :
    Returns (λ b'. Kept sample b' × (b'.size ≡ 6) × (b'.published ≤ 5)) (move_data sample)
move_data-Kept_example = move_data-Kept sample sample-IsValid

ensure_size-Ensured_example : Returns (Ensured sample 4) (ensure_size zeros sample 4)
ensure_size-Ensured_example = ensure_size-Ensured zeros sample 4 sample-IsValid sample-Fits

read_from_buffer-Appended_example :
    Returns
      (λ (b', done). Appended sample (7 ∷ 8 ∷ 9 ∷ 10 ∷ []) b' × (done ≡ true))
      (read_from_buffer zeros sample (7 ∷ 8 ∷ 9 ∷ 10 ∷ []))
read_from_buffer-Appended_example =
    read_from_buffer-Appended zeros sample (7 ∷ 8 ∷ 9 ∷ 10 ∷ []) sample-IsValid sample-Fits

read_from_tcp_fd-Read_example :
    Returns
      (Read sample (received (7 ∷ 8 ∷ [])) (got_some (received (7 ∷ 8 ∷ []))))
      (read_from_tcp_fd zeros sample 4 (received (7 ∷ 8 ∷ [])))
unfolding stored
read_from_tcp_fd-Read_example =
    read_from_tcp_fd-Read zeros sample sample-IsValid 4 (received (7 ∷ 8 ∷ [])) sample-Fits
      (omega arith)

write_to_tcp_fd-Written_example :
    Returns
      (λ (b', result, count).
        Written sample (sent 1) b' × (result ≡ tolerated (sent 1)) × (count ≡ amount (sent 1)))
      (write_to_tcp_fd takes_one sample 2)
unfolding accepted
write_to_tcp_fd-Written_example =
    write_to_tcp_fd-Written takes_one sample 2 sample-IsValid (omega arith)
