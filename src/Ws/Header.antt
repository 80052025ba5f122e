-- ===== src/Ws/Header.antt =====
-- A header that SendWS writes is read back by HandlerProtocol
-- (sources/gsdm/src/protocols/wsprotocol.cpp).
use Prim.Native.Nat.{bit_and}
use native.Mathlib.Nat.{pow-suc}
use gsdm.Base.{
  ℕ, zero, suc, ◌+◌, ◌*◌, ◌/◌, ◌%◌, ◌^◌, ◌<◌, ◌≡◌, refl, Bool, true, false, not, ◌&&◌, List, [],
  ◌∷◌, ◌++◌, arith, ◌==◌, ==_iff, length, length-append,
}
use gsdm.Base.Bytes.{holds_from, holds_at}
use gsdm.Ws.{first_byte, second_byte, big_endian, from_big_endian, bit_set}

from_big_endian-snoc :
    (acc : ℕ) (xs : List ℕ) (b : ℕ)
    → from_big_endian acc (xs ++ b ∷ []) ≡ from_big_endian acc xs * 256 + b
unfolding from_big_endian
from_big_endian-snoc acc [] b = refl
from_big_endian-snoc acc (x ∷ xs) b = from_big_endian-snoc (acc * 256 + x) xs b

pub length-big_endian : (n l : ℕ) → length (big_endian n l) ≡ n
unfolding big_endian
length-big_endian zero l = refl
length-big_endian (suc n) l = omega (
  arith,
  length-append {0} (big_endian n (l / 256)) ((l % 256) ∷ []),
  length-big_endian n (l / 256),
)

-- A number of `n` bytes survives being written and read.
pub from_big_endian-big_endian : (n l : ℕ) → l < 256 ^ n → from_big_endian 0 (big_endian n l) ≡ l
unfolding big_endian from_big_endian
from_big_endian-big_endian zero l h = omega arith
from_big_endian-big_endian (suc n) l h =
    let less : l / 256 < 256 ^ n = omega (arith, pow-suc 256 n) in
    omega (
      arith,
      from_big_endian-snoc 0 (big_endian n (l / 256)) (l % 256),
      from_big_endian-big_endian n (l / 256) less,
    )

abbrev same : Bool → Bool → Bool
same true b = b
same false b = not b

same_eq : (a b : Bool) → same a b ≡ true → b ≡ a
same_eq true b h = h
same_eq false true h = cc
same_eq false false h = refl

-- What a reader sees of the first byte.
first_byte_reads : (fin rsv1 rsv2 rsv3 : Bool) → ℕ → ℕ → Bool
first_byte_reads fin rsv1 rsv2 rsv3 opcode a =
    same fin (bit_set a 0x80)
    && (same rsv1 (bit_set a 0x40)
        && (same rsv2 (bit_set a 0x20)
            && (same rsv3 (bit_set a 0x10) && (bit_and a 0xf == opcode))))

first_byte_table :
    (fin rsv1 rsv2 rsv3 : Bool)
    → holds_from 0 16
        (λ op. first_byte_reads fin rsv1 rsv2 rsv3 op (first_byte fin rsv1 rsv2 rsv3 op))
      ≡ true
unfolding holds_from first_byte_reads first_byte
first_byte_table true true true true = refl
first_byte_table true true true false = refl
first_byte_table true true false true = refl
first_byte_table true true false false = refl
first_byte_table true false true true = refl
first_byte_table true false true false = refl
first_byte_table true false false true = refl
first_byte_table true false false false = refl
first_byte_table false true true true = refl
first_byte_table false true true false = refl
first_byte_table false true false true = refl
first_byte_table false true false false = refl
first_byte_table false false true true = refl
first_byte_table false false true false = refl
first_byte_table false false false true = refl
first_byte_table false false false false = refl

second_byte_table :
    (masked : Bool)
    → holds_from 0 128 (λ n.
      same masked (bit_set (second_byte masked n) 0x80)
      && (bit_and (second_byte masked n) 0x7f == n))
      ≡ true
unfolding holds_from second_byte
second_byte_table true = refl
second_byte_table false = refl

pub and_parts : (a b : Bool) → (a && b) ≡ true → (a ≡ true) × (b ≡ true)
and_parts true true h = (refl, refl)
and_parts true false h = cc
and_parts false b h = cc

module _ (fin rsv1 rsv2 rsv3 : Bool) (op : ℕ) (h : op < 16) where
  abbrev first : ℕ
  first = first_byte fin rsv1 rsv2 rsv3 op

  pub first_byte_fields :
      (bit_set first 0x80 ≡ fin)
      × (bit_set first 0x40 ≡ rsv1)
      × (bit_set first 0x20 ≡ rsv2)
      × (bit_set first 0x10 ≡ rsv3)
      × (bit_and first 0xf ≡ op)
  unfolding first_byte_reads
  first_byte_fields =
      let t =
        holds_at 16 (λ o. first_byte_reads fin rsv1 rsv2 rsv3 o (first_byte fin rsv1 rsv2 rsv3 o))
          op (first_byte_table fin rsv1 rsv2 rsv3) h in
      let t1 = and_parts _ _ t in
      let t2 = and_parts _ _ t1.1 in
      let t3 = and_parts _ _ t2.1 in
      let t4 = and_parts _ _ t3.1 in
      (same_eq _ _ t1.0, same_eq _ _ t2.0, same_eq _ _ t3.0, same_eq _ _ t4.0, (==_iff _ op).0 t4.1)

pub second_byte_fields :
    (masked : Bool) (n : ℕ)
    → n < 128
    → (bit_set (second_byte masked n) 0x80 ≡ masked) × (bit_and (second_byte masked n) 0x7f ≡ n)
second_byte_fields masked n h =
    let t = and_parts _ _ (
      holds_at 128
        (λ n.
          same masked (bit_set (second_byte masked n) 0x80)
          && (bit_and (second_byte masked n) 0x7f == n))
        n (second_byte_table masked) h) in
    (same_eq _ _ t.0, (==_iff _ n).0 t.1)
