-- ===== src/Buffer/Memory.antt =====
-- Loads and stores that stay inside the memory of sources/gsdm/src/buffering/iobuffer.cpp.
use gsdm.Base.{
  ℕ, ◌+◌, ◌-◌, ◌≤◌, ◌≡◌, refl, ap, ◌∙◌, Option, none, some, List, [], ◌∷◌, ◌++◌, arith, le→leb,
  length, take, drop, length-append, length-take, length-drop,
}
use gsdm.Base.Slices.{take_all, take-append_le, drop-append_le, drop-take}
use gsdm.Base.Returns.{Returns, returns}
use gsdm.Buffer.{Buffer, bytes, load_bytes, store_bytes, copy_within, with_bytes}

module _ (mem : List ℕ) where
  pub load_bytes_lem :
      (from n : ℕ) → from + n ≤ length mem → load_bytes mem from n ≡ some (take n (drop from mem))
  unfolding load_bytes
  load_bytes_lem from n h = rw (le→leb (from + n) (length mem) h)

  pub store_bytes_lem :
      (at : ℕ) (src : List ℕ)
      → at + length src ≤ length mem
      → store_bytes mem at src ≡ some (take at mem ++ src ++ drop (at + length src) mem)
  unfolding store_bytes
  store_bytes_lem at src h = rw (le→leb (at + length src) (length mem) h)

  pub length-store :
      (at : ℕ) (src : List ℕ)
      → at + length src ≤ length mem
      → length (take at mem ++ src ++ drop (at + length src) mem) ≡ length mem
  length-store at src h = omega (
    arith,
    length-append {0} (take at mem ++ src) (drop (at + length src) mem),
    length-append {0} (take at mem) src,
    length-take {0} at mem,
    length-drop {0} (at + length src) mem,
  )

  pub length-load : (from n : ℕ) → from + n ≤ length mem → length (take n (drop from mem)) ≡ n
  length-load from n h = omega (arith, length-take {0} n (drop from mem), length-drop {0} from mem)

  -- A block stored at the end of a window lengthens the window by the block.
  pub window-store :
      (c p : ℕ) (src : List ℕ)
      → c ≤ p
      → p + length src ≤ length mem
      → take (p + length src - c) (drop c (take p mem ++ src ++ drop (p + length src) mem))
        ≡ take (p - c) (drop c mem) ++ src
  window-store c p src h k =
      let front : length (take p mem) ≡ p = omega (arith, length-take {0} p mem) in
      let both : length (take p mem ++ src) ≡ p + length src =
        omega (arith, front, length-append {0} (take p mem) src) in
      let inner : length (drop c (take p mem ++ src)) ≡ p + length src - c =
        omega (arith, both, length-drop {0} c (take p mem ++ src)) in
      let rest = drop (p + length src) mem in
      ap (take (p + length src - c)) (drop-append_le c (take p mem ++ src) rest (omega arith))
      ∙ take-append_le (p + length src - c) (drop c (take p mem ++ src)) rest (omega arith)
      ∙ take_all (p + length src - c) (drop c (take p mem ++ src)) (omega arith)
      ∙ drop-append_le c (take p mem) src (omega arith)
      ∙ ap (λ xs. xs ++ src) (drop-take c p mem)

  -- A block stored at the front is what a window from there on shows.
  pub front-store :
      (src : List ℕ)
      → length src ≤ length mem
      → take (length src) (take 0 mem ++ src ++ drop (0 + length src) mem) ≡ src
  front-store src h =
      take-append_le (length src) src (drop (0 + length src) mem) (omega arith)
      ∙ take_all (length src) src (omega arith)

-- What a change of the bytes alone leaves as it was.
pub record Rewritten (b : Buffer) (mem : List ℕ) (b' : Buffer) : Type 0 where
  pub bytes_eq : bytes b'.buffer ≡ mem
  pub size_eq : b'.size ≡ b.size
  pub published_eq : b'.published ≡ b.published
  pub consumed_eq : b'.consumed ≡ b.consumed
  pub chunk_eq : b'.min_chunk_size ≡ b.min_chunk_size

nil_of_length : (xs : List ℕ) → length xs ≡ 0 → [] ≡ xs
nil_of_length [] h = refl
nil_of_length (x ∷ xs) h = absurd (omega arith)

with_bytes_at :
    (b : Buffer) (old : Option (List ℕ)) (f : List ℕ → Option (List ℕ)) (mem : List ℕ)
    → b.buffer ≡ old
    → f (bytes old) ≡ some mem
    → length mem ≡ length (bytes old)
    → Returns (Rewritten b mem) (with_bytes b f)
unfolding with_bytes
with_bytes_at b none f mem e done len =
    rw (e, done)
      (returns (record {
        bytes_eq = nil_of_length mem len;
        size_eq = refl;
        published_eq = refl;
        consumed_eq = refl;
        chunk_eq = refl;
      }))
with_bytes_at b (some old) f mem e done len =
    rw (e, done)
      (returns (record {
        bytes_eq = refl;
        size_eq = refl;
        published_eq = refl;
        consumed_eq = refl;
        chunk_eq = refl;
      }))

pub with_bytes_lem :
    (b : Buffer) (f : List ℕ → Option (List ℕ)) (mem : List ℕ)
    → f (bytes b.buffer) ≡ some mem
    → length mem ≡ length (bytes b.buffer)
    → Returns (Rewritten b mem) (with_bytes b f)
with_bytes_lem b f mem = with_bytes_at b b.buffer f mem refl

-- The guard of `move_data` is what keeps the two ranges of its `memcpy` apart.
pub copy_within_lem :
    (mem : List ℕ) (from n : ℕ)
    → n ≤ from
    → from + n ≤ length mem
    → copy_within mem 0 from n
      ≡ some
          (take 0 mem ++ take n (drop from mem) ++ drop (0 + length (take n (drop from mem))) mem)
unfolding copy_within
copy_within_lem mem from n h k =
    let len = length-load mem from n k in
    rw (le→leb (0 + n) from (omega arith), load_bytes_lem mem from n k)
      (store_bytes_lem mem 0 (take n (drop from mem)) (omega (arith, len)))
