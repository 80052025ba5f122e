-- ===== src/Datagrams/Entries.antt =====
-- Datagrams that wait, as the bytes of UDPDataCache
-- (sources/gsdm/include/eventdrive/baseprocess.h), and what is read at the front of the memory.
use gsdm.Base.{
  ℕ, ◌+◌, ◌-◌, ◌^◌, ◌≤◌, ◌<◌, ◌≡◌, refl, sym, ap, ◌∙◌, some, List, [], ◌∷◌, ◌++◌, length, take,
  drop, drop-drop,
}
use gsdm.Base.Slices.{take-take, drop-take}
use gsdm.Buffer.{load_bytes}
use gsdm.Buffer.Memory.{load_bytes_lem}
use gsdm.Datagrams.{Datagram, save}

-- A datagram that waits, with the two bytes that are not set.
abbrev pub Entry : Type 0
Entry = (ℕ × ℕ) × Datagram

abbrev pub encode : Entry → List ℕ
encode (pad, d) = save pad d ++ d.payload

abbrev pub encodes : List Entry → List ℕ
encodes [] = []
encodes (e ∷ es) = encode e ++ encodes es

-- Its length fits the 16 bits of UDPDataCache.
abbrev pub Small : List Entry → Type 0
Small [] = Unit {0}
Small ((pad, d) ∷ es) = (length d.address ≡ 16) × ((length d.payload + 20 < 2 ^ 16) × Small es)

pub take_front : (xs ys : List ℕ) → take (length xs) (xs ++ ys) ≡ xs
take_front [] ys = refl
take_front (x ∷ xs) ys = ap (λ r. x ∷ r) (take_front xs ys)

pub drop_front : (xs ys : List ℕ) → drop (length xs) (xs ++ ys) ≡ ys
drop_front [] ys = refl
drop_front (x ∷ xs) ys = drop_front xs ys

-- The memory from `at` on starts with `xs` and goes on with `ys`.
module _ (mem : List ℕ) (at left : ℕ) (xs ys : List ℕ) (e : take left (drop at mem) ≡ xs ++ ys)
    (h : length xs ≤ left) where
  pub front : take (length xs) (drop at mem) ≡ xs
  front =
      sym (take-take (length xs) left (drop at mem) h) ∙ ap (take (length xs)) e ∙ take_front xs ys

  pub behind_front : take (left - length xs) (drop (at + length xs) mem) ≡ ys
  behind_front =
      ap (take (left - length xs)) (sym (drop-drop (length xs) at mem))
      ∙ sym (drop-take (length xs) left (drop at mem))
      ∙ ap (drop (length xs)) e
      ∙ drop_front xs ys

  pub load_front : at + length xs ≤ length mem → load_bytes mem at (length xs) ≡ some xs
  load_front room = load_bytes_lem mem at (length xs) room ∙ ap some front
