-- ===== src/Ws/Masking.antt =====
-- Payloads that SendWS masks and HandlerProtocol unmasks (sources/gsdm/src/protocols/wsprotocol.cpp).
use Prim.Native.Nat.{bit_xor}
use gsdm.Base.{
  ℕ, zero, suc, ◌+◌, ◌%◌, ◌<◌, ◌≡◌, refl, ap, ◌∙◌, Bool, true, List, [], ◌∷◌, arith, ◌==◌, ==_iff,
  length, get_or,
}
use gsdm.Ws.{mask_from}
use gsdm.Ws.Connection.{unmask_from}
use gsdm.Base.Bytes.{holds_from, holds_at}

abbrev pub AreBytes : List ℕ → Type 0
AreBytes [] = Unit {0}
AreBytes (b ∷ bs) = (b < 256) × AreBytes bs

xor_row : ℕ → Bool
unfolding holds_from
xor_row k = holds_from 0 256 (λ b. bit_xor (bit_xor b k) k == b)

xor_table : holds_from 0 256 xor_row ≡ true
unfolding holds_from xor_row
xor_table = refl

xor_twice : (b k : ℕ) → b < 256 → k < 256 → bit_xor (bit_xor b k) k ≡ b
unfolding xor_row
xor_twice b k hb hk =
    (==_iff _ b).0
      (holds_at 256 (λ x. bit_xor (bit_xor x k) k == x) b (holds_at 256 xor_row k xor_table hk) hb)

get_or-lt : (key : List ℕ) (i : ℕ) → AreBytes key → get_or key i 0 < 256
get_or-lt [] i h = omega arith
get_or-lt (x ∷ xs) zero h = h.0
get_or-lt (x ∷ xs) (suc i) h = get_or-lt xs i h.1

pub length-mask_from : (i : ℕ) (key bs : List ℕ) → length (mask_from i key bs) ≡ length bs
unfolding mask_from
length-mask_from i key [] = refl
length-mask_from i key (b ∷ bs) = ap suc (length-mask_from (i + 1) key bs)

-- What the loop of HandlerProtocol makes of the bytes that the loop of SendWS masked, with the same key of
-- bytes and from the same place on, is those bytes as they were.
pub unmask_from-mask_from :
    (i : ℕ) (key bs : List ℕ)
    → AreBytes key
    → AreBytes bs
    → unmask_from i key (mask_from i key bs) ≡ bs
unfolding mask_from unmask_from
unmask_from-mask_from i key [] k h = refl
unmask_from-mask_from i key (b ∷ bs) k h =
    ap (λ x. x ∷ unmask_from (i + 1) key (mask_from (i + 1) key bs))
      (xor_twice b (get_or key (i % 4) 0) h.0 (get_or-lt key (i % 4) k))
    ∙ ap (λ r. b ∷ r) (unmask_from-mask_from (i + 1) key bs k h.1)
