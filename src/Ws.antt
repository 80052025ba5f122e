-- ===== src/Ws.antt =====
-- WebSocket frames and connections: sources/gsdm/include/protocols/wsprotocol.h and
-- sources/gsdm/src/protocols/wsprotocol.cpp. A byte is a number below 256.
pub mod Connection
pub mod Handshake
pub mod Header
pub mod Masking
pub mod Reading
use Prim.Native.Nat.{bit_and, bit_or, bit_xor}
use gsdm.Base.{
  ℕ, zero, suc, ◌+◌, ◌*◌, ◌/◌, ◌%◌, ◌^◌, Bool, true, false, not, List, [], ◌∷◌, ◌++◌, ltb, leb,
  ◌==◌, if◌then◌else◌, u16, length, take, drop, get_or,
}

-- WsFrame, less the field of extensions that nothing sets.
pub record Frame : Type 0 where
  pub fin : Bool
  pub rsv1 : Bool
  pub rsv2 : Bool
  pub rsv3 : Bool
  pub opcode : ℕ
  pub masked : Bool
  pub masking_key : List ℕ
  pub payload_length : ℕ

-- memset to zero
pub empty_frame : Frame
empty_frame = record {
  fin = false;
  rsv1 = false;
  rsv2 = false;
  rsv3 = false;
  opcode = 0;
  masked = false;
  masking_key = 0 ∷ 0 ∷ 0 ∷ 0 ∷ [];
  payload_length = 0;
}

-- `x |= bit` under a test
abbrev set_bit : Bool → ℕ → ℕ → ℕ
set_bit b bit x = if b then bit_or x bit else x

-- The first byte that SendWS writes.
pub first_byte : (fin rsv1 rsv2 rsv3 : Bool) → ℕ → ℕ
first_byte fin rsv1 rsv2 rsv3 opcode =
    bit_or (set_bit rsv3 0x10 (set_bit rsv2 0x20 (set_bit rsv1 0x40 (set_bit fin 0x80 0)))) opcode

-- The second byte: the mask bit and seven bits of length.
pub second_byte : Bool → ℕ → ℕ
second_byte masked short = bit_or (set_bit masked 0x80 0) short

-- A number in `n` bytes, the highest first; the source reverses the bytes of a little-endian host.
pub big_endian : ℕ → ℕ → List ℕ
big_endian zero l = []
big_endian (suc n) l = big_endian n (l / 256) ++ (l % 256) ∷ []

-- The length field in the second byte, and the bytes that extend it.
pub short_length : ℕ → ℕ
short_length len = if leb len 0x7d then len else if leb len 0xffff then 0x7e else 0x7f

unfoldable pub extended_length : ℕ → List ℕ
extended_length len =
    if leb len 0x7d then [] else if leb len 0xffff then big_endian 2 (u16 len) else big_endian 8 len

-- The loop of SendWS: every `i`th byte is combined with byte `i % 4` of the key.
unfoldable pub mask_from : ℕ → List ℕ → List ℕ → List ℕ
mask_from i key [] = []
mask_from i key (b ∷ bs) = bit_xor b (get_or key (i % 4) 0) ∷ mask_from (i + 1) key bs

-- The bytes in front of the payload.
unfoldable pub header : Frame → ℕ → List ℕ
header f len =
    first_byte f.fin f.rsv1 f.rsv2 f.rsv3 f.opcode
    ∷ second_byte f.masked (short_length len)
    ∷ (extended_length len ++ (if f.masked then take 4 f.masking_key else []))

-- The calls of SendWSData that a run makes, in order, and the result; `send` is that call.
pub record Sending : Type 0 where
  pub blocks : List (List ℕ)
  pub result : Bool

-- SendWS
unfoldable pub send_ws : (List ℕ → Bool) → Frame → List ℕ → Sending
unfolding header mask_from
send_ws send f payload =
    let head = header f (length payload) in
    let body = if f.masked then mask_from 0 f.masking_key payload else payload in
    if not (send head)
    then record { blocks = head ∷ []; result = false }
    else record { blocks = head ∷ body ∷ []; result = send body }

abbrev data_frame : Bool → ℕ → Frame
data_frame fin opcode = record empty_frame { fin = fin; opcode = opcode }

abbrev data_opcode : Bool → ℕ
data_opcode binary = if binary then 0x2 else 0x1

pub send_whole : (List ℕ → Bool) → List ℕ → Bool → Sending
unfolding send_ws empty_frame
send_whole send payload binary = send_ws send (data_frame true (data_opcode binary)) payload

pub send_fragment_head : (List ℕ → Bool) → List ℕ → Bool → Sending
unfolding send_ws empty_frame
send_fragment_head send payload binary =
    send_ws send (data_frame false (data_opcode binary)) payload

pub send_fragment : (List ℕ → Bool) → List ℕ → Bool → Sending
unfolding send_ws empty_frame
send_fragment send payload binary = send_ws send (data_frame false 0) payload

pub send_fragment_tail : (List ℕ → Bool) → List ℕ → Bool → Sending
unfolding send_ws empty_frame
send_fragment_tail send payload binary = send_ws send (data_frame true 0) payload

-- SendPing and SendPong
pub send_ping : (List ℕ → Bool) → List ℕ → Sending
unfolding send_ws empty_frame
send_ping send message = send_ws send (data_frame true 0x9) message

pub send_pong : (List ℕ → Bool) → List ℕ → Sending
unfolding send_ws empty_frame
send_pong send message = send_ws send (data_frame true 0xa) message

-- What reading a header yields: too few bytes, or the frame and the length of its header.
pub data Scan : Type 0 where
  need_more : Frame → Scan
  scanned : Frame → ℕ → Scan

abbrev pub bit_set : ℕ → ℕ → Bool
bit_set x bit = not (bit_and x bit == 0)

pub from_big_endian : ℕ → List ℕ → ℕ
from_big_endian acc [] = acc
from_big_endian acc (b ∷ bs) = from_big_endian (acc * 256 + b) bs

-- The masking key, if there is one, behind the lengths.
pub scan_key : Frame → List ℕ → ℕ → Scan
scan_key f bytes pos =
    if not f.masked
    then scanned f pos
    else if ltb (length (drop pos bytes)) 4
    then need_more (record f { payload_length = 0 })
    else scanned (record f { masking_key = take 4 (drop pos bytes) }) (pos + 4)

-- The extended lengths; `short` is the field of seven bits.
pub scan_length : Frame → ℕ → List ℕ → Scan
scan_length f short bytes =
    if short == 0x7e
    then (if ltb (length bytes) 4
        then need_more (record f { payload_length = 0 })
        else scan_key (record f { payload_length = from_big_endian 0 (take 2 (drop 2 bytes)) })
            bytes 4)
    else if short == 0x7f
    then (if ltb (length bytes) 10
        then need_more (record f { payload_length = 0 })
        else scan_key (record f { payload_length = from_big_endian 0 (take 8 (drop 2 bytes)) })
            bytes 10)
    else scan_key (record f { payload_length = short }) bytes 2

-- The header of a frame, as HandlerProtocol reads it over the frame it has.
pub scan_header : Frame → List ℕ → Scan
scan_header f [] = need_more f
scan_header f (a ∷ []) = need_more f
scan_header f (a ∷ b ∷ rest) =
    scan_length
      (record f {
        fin = bit_set a 0x80;
        rsv1 = bit_set a 0x40;
        rsv2 = bit_set a 0x20;
        rsv3 = bit_set a 0x10;
        opcode = bit_and a 0xf;
        masked = bit_set b 0x80;
      })
      (bit_and b 0x7f) (a ∷ b ∷ rest)
