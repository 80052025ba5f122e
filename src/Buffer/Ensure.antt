-- ===== src/Buffer/Ensure.antt =====
-- EnsureSize and MoveData of sources/gsdm/src/buffering/iobuffer.cpp.
use gsdm.Base.{
  ℕ, ◌+◌, ◌-◌, ◌^◌, ◌≤◌, ◌<◌, ◌≡◌, refl, sym, ap, ◌∙◌, Bool, true, false, Option, none, some, List,
  [], ◌++◌, arith, inl, inr, leb, leb→le, leb→lt, length, take, drop, length-take, length-drop,
  Bool-cases, add64, sub64,
}
use gsdm.Base.Slices.{take_zero, take-append_le, take_all, drop-append_le, drop-take}
use gsdm.Base.Returns
use gsdm.Base.Returns.{Returns, returns}
use gsdm.Buffer.{Alloc, Buffer, bytes, move_data, growth, copy_over, grow, ensure_size}
use gsdm.Buffer.Memory.{
  load_bytes_lem, store_bytes_lem, length-store, length-load, front-store, with_bytes_lem,
  copy_within_lem,
}
use gsdm.Buffer.Valid.{IsValid, Fits, content}

-- What is kept while data moves: the bytes to go out, and the configuration.
pub record Kept (b b' : Buffer) : Type 0 where
  pub valid : IsValid b'
  pub content_eq : content b' ≡ content b
  pub chunk_eq : b'.min_chunk_size ≡ b.min_chunk_size

pub Kept-refl : (b : Buffer) → IsValid b → Kept b b
Kept-refl b v = record { valid = v; content_eq = refl; chunk_eq = refl }

sub64_le : (a b : ℕ) → b ≤ a → a < 2 ^ 64 → sub64 a b ≡ a - b
sub64_le a b h k = omega arith

-- MoveData copies without overlap, moves the pending bytes to the front, and keeps them.
pub move_data-Kept :
    (b : Buffer)
    → IsValid b
    → Returns (λ b'. Kept b b' × (b'.size ≡ b.size) × (b'.published ≤ b.published)) (move_data b)
unfolding move_data
move_data-Kept b v =
    let n : ℕ = b.published - b.consumed in
    let mem : List ℕ = bytes b.buffer in
    let block : List ℕ = take n (drop b.consumed mem) in
    let small : b.published < 2 ^ 64 = omega (arith, v.published_le, v.word) in
    let gap : sub64 b.published b.consumed ≡ n = sub64_le _ _ v.consumed_le small in
    let inside : b.consumed + n ≤ length mem =
      omega (arith, v.memory, v.published_le, v.consumed_le) in
    let len : length block ≡ n = length-load mem b.consumed n inside in
    let small_block : length block ≤ length mem = omega (arith, len, inside) in
    let whole : n - 0 ≡ n = omega arith in
    let room : 0 + length block ≤ length mem = omega (arith, len, inside) in
    elim (Bool-cases (leb n b.consumed)) [
      | inr far ↦ rw (gap, far) (returns (Kept-refl b v, refl, omega arith))
      | inl near ↦
          rw (gap, near)
            (Returns.bind
              (with_bytes_lem b _ _
                (copy_within_lem mem b.consumed n (leb→le n b.consumed near) inside)
                (length-store mem 0 block room))
              λ b' r. returns (
                record {
                  valid = record {
                    consumed_le = omega arith;
                    published_le = omega (arith, r.size_eq, v.published_le);
                    memory =
                        ap length r.bytes_eq
                        ∙ length-store mem 0 block room
                        ∙ v.memory
                        ∙ sym r.size_eq;
                    word = omega (arith, r.size_eq, v.word);
                  };
                  content_eq =
                      ap (λ k. take k (bytes b'.buffer)) whole
                      ∙ ap (take n) r.bytes_eq
                      ∙ ap (λ k. take k (take 0 mem ++ block ++ drop (0 + length block) mem))
                          (sym len)
                      ∙ front-store mem block small_block;
                  chunk_eq = r.chunk_eq;
                },
                r.size_eq,
                omega arith,
              ))
    ]

growth_bounds :
    (b : Buffer) (n : ℕ)
    → IsValid b
    → Fits b n
    → b.size < b.published + n
    → (n ≤ growth b n) × (growth b n < 2 ^ 32)
unfolding growth
growth_bounds b n v f more = ground arith

-- The memory after a copy of the first `p` bytes of `old` shows the same window.
window-copy :
    (old fresh : List ℕ) (c p : ℕ)
    → c ≤ p
    → p ≤ length old
    → take (p - c) (drop c (take p (drop 0 old) ++ fresh)) ≡ take (p - c) (drop c old)
window-copy old fresh c p h k =
    let front : length (take p old) ≡ p = omega (arith, length-take {0} p old) in
    let inner : length (drop c (take p old)) ≡ p - c =
      omega (arith, front, length-drop {0} c (take p old)) in
    ap (take (p - c)) (drop-append_le c (take p old) fresh (omega arith))
    ∙ take-append_le (p - c) (drop c (take p old)) fresh (omega arith)
    ∙ take_all (p - c) (drop c (take p old)) (omega arith)
    ∙ drop-take c p old

-- The new memory, and what it shows of the old.
record Copied (fresh : List ℕ) (old : Option (List ℕ)) (p : ℕ) : Type 0 where
  mem : List ℕ
  copied : copy_over fresh old p ≡ some mem
  length_eq : length mem ≡ length fresh
  window_eq : (c : ℕ) → c ≤ p → take (p - c) (drop c mem) ≡ take (p - c) (drop c (bytes old))

copy_over_lem :
    (fresh : List ℕ) (old : Option (List ℕ)) (p : ℕ)
    → p ≤ length (bytes old)
    → p ≤ length fresh
    → Copied fresh old p
unfolding copy_over
copy_over_lem fresh none p h k = record {
  mem = fresh;
  copied = refl;
  length_eq = refl;
  window_eq = λ c q.
      take_zero (p - c) (drop c fresh) (omega arith)
      ∙ sym (take_zero (p - c) (drop c []) (omega arith));
}
copy_over_lem fresh (some old) p h k =
    let block : List ℕ = take p (drop 0 old) in
    let len : length block ≡ p = length-load old 0 p (omega arith) in
    let room : 0 + length block ≤ length fresh = omega (arith, len) in
    record {
      mem = block ++ drop (0 + length block) fresh;
      copied = rw (load_bytes_lem old 0 p (omega arith)) (store_bytes_lem fresh 0 block room);
      length_eq = length-store fresh 0 block room;
      window_eq = λ c q. window-copy old (drop (0 + length block) fresh) c p q h;
    }

grow-Kept :
    (alloc : Alloc) (b : Buffer) (n : ℕ)
    → IsValid b
    → Fits b n
    → b.size < b.published + n
    → Returns (λ b'. Kept b b' × (b'.published + n ≤ b'.size)) (grow alloc b n)
unfolding grow
grow-Kept alloc b n v f more =
    let g = growth b n in
    let bounds = growth_bounds b n v f more in
    let space : add64 b.published g ≡ b.published + g =
      omega (arith, bounds, v.published_le, f.third_lt) in
    let fresh = alloc.bytes (b.published + g) in
    let all : length fresh ≡ b.published + g = alloc.length-bytes (b.published + g) in
    let copy =
      copy_over_lem fresh b.buffer b.published (omega (arith, v.memory, v.published_le))
        (omega (arith, all)) in
    rw (space, copy.copied)
      (returns (
        record {
          valid = record {
            consumed_le = v.consumed_le;
            published_le = omega arith;
            memory = copy.length_eq ∙ all;
            word = omega (arith, bounds, v.published_le, f.third_lt);
          };
          content_eq = copy.window_eq b.consumed v.consumed_le;
          chunk_eq = refl;
        },
        omega (arith, bounds),
      ))

-- The answer of EnsureSize: the bytes are kept and there is room for `n` more.
abbrev pub Ensured : Buffer → ℕ → Buffer × Bool → Type 0
Ensured b n (b', done) = Kept b b' × (b'.published + n ≤ b'.size) × (done ≡ true)

Kept-trans : {a b c : Buffer} → Kept a b → Kept b c → Kept a c
Kept-trans p q = record {
  valid = q.valid;
  content_eq = q.content_eq ∙ p.content_eq;
  chunk_eq = q.chunk_eq ∙ p.chunk_eq;
}

module _ (b b' : Buffer) (n : ℕ) (v : IsValid b') (f : Fits b n) (same : b'.size ≡ b.size) where
  room_of_test : leb (add64 b'.published n) b'.size ≡ true → b'.published + n ≤ b'.size
  room_of_test t = omega (arith, leb→le _ _ t, v.published_le, f.third_lt, f.request_lt, same)

  short_of_test : leb (add64 b'.published n) b'.size ≡ false → b'.size < b'.published + n
  short_of_test t = omega (arith, leb→lt _ _ t, v.published_le, f.third_lt, f.request_lt, same)

  Fits-same : b'.min_chunk_size ≡ b.min_chunk_size → Fits b' n
  Fits-same e = record {
    third_lt = omega (arith, f.third_lt, same);
    request_lt = f.request_lt;
    chunk_lt = omega (arith, f.chunk_lt, e);
  }

-- EnsureSize makes room for the request, keeps the bytes in the buffer, and faults nowhere.
pub ensure_size-Ensured :
    (alloc : Alloc) (b : Buffer) (n : ℕ)
    → IsValid b
    → Fits b n
    → Returns (Ensured b n) (ensure_size alloc b n)
unfolding ensure_size
ensure_size-Ensured alloc b n v f = elim (Bool-cases (leb (add64 b.published n) b.size)) [
  | inl room ↦ rw room (returns (Kept-refl b v, room_of_test b b n v f refl room, refl))
  | inr short ↦ rw short (
      Returns.bind (move_data-Kept b v) λ b' (kept, same, less).
        elim (Bool-cases (leb (add64 b'.published n) b'.size)) [
          | inl room ↦ rw room (returns (kept, room_of_test b b' n kept.valid f same room, refl))
          | inr still ↦ rw still (
              Returns.bind
                (grow-Kept alloc b' n kept.valid (Fits-same b b' n kept.valid f same kept.chunk_eq)
                  (short_of_test b b' n kept.valid f same still))
                λ b'' (kept', room). returns (Kept-trans kept kept', room, refl))
        ])
]
