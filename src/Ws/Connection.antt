-- ===== src/Ws/Connection.antt =====
-- The open state of a WebSocket connection: the frame loop of HandlerProtocol, SendClose and
-- SendPong (sources/gsdm/src/protocols/wsprotocol.cpp).
pub mod Rounds
pub mod Messages
pub mod Delivery
use Prim.Native.Nat.{bit_xor}
use gsdm.Base.Int.{ℤ, int32}
use gsdm.Base.{
  ℕ, zero, suc, get_or, ◌+◌, ◌-◌, ◌/◌, ◌%◌, Bool, true, not, ◌&&◌, Option, none, some, List, [],
  ◌∷◌, ◌++◌, ltb, leb, ◌==◌, if◌then◌else◌, u32, length, take, drop,
}
use gsdm.Buffer.{Alloc, Buffer, bytes, load_bytes, available, ignore_all}
use gsdm.Buffer.Transfer.{read_from_buffer}
use gsdm.Ws.{Frame, empty_frame, send_ws, send_pong, Scan, need_more, scanned, scan_header}

abbrev pub status_normal_close : ℕ
status_normal_close = 1000

abbrev pub status_going_away : ℕ
status_going_away = 1001

abbrev pub status_protocol_error : ℕ
status_protocol_error = 1002

-- What the class that inherits the protocol supplies.
pub record Application : Type 0 where
  pub handle_text : List ℕ → Bool
  pub handle_binary : List ℕ → Bool
  pub send_data : List ℕ → Bool

-- The members of WSProtocol that the open state uses.
pub record Connection : Type 0 where
  pub fragmentation : Buffer
  pub request_frame : Frame
  pub opcode_continue : ℕ
  pub is_send_close : Bool
  pub status_code : ℕ

-- What a run does outside: messages given to the application, and blocks of bytes sent.
pub data Event : Type 0 where
  text binary block : List ℕ → Event

abbrev pub blocks : List (List ℕ) → List Event
blocks [] = []
blocks (b ∷ bs) = Event.block b ∷ blocks bs

-- The close frame, once.
pub send_close : Application → Connection → Connection × List Event
send_close app c = if c.is_send_close then (c, []) else (
  record c { is_send_close = true },
  blocks
      (send_ws app.send_data (record empty_frame { fin = true; opcode = 0x8 })
        ((c.status_code / 256) ∷ (c.status_code % 256) ∷ [])).blocks,
)

-- The opcode of a message in fragments is kept from its first frame to its last.
pub track_opcode : Connection → Connection
track_opcode c =
    let f = c.request_frame in
    if not f.fin && (leb 1 f.opcode && leb f.opcode 7 && (c.opcode_continue == 0))
    then record c { opcode_continue = f.opcode }
    else if f.fin && ((f.opcode == 0) && (leb 1 c.opcode_continue && leb c.opcode_continue 7))
    then record c { request_frame = record f { opcode = c.opcode_continue }; opcode_continue = 0 }
    else c

-- One round of the loop, or a part of it: the run goes on behind the frame with the bytes that
-- are left; it waits for more bytes; or it ends the connection.
pub data Round : Type 0 where
  go_on : Connection → List Event → List ℕ → Round
  wait : Connection → List ℕ → Round
  shut : Connection → List Event → Round

close_with : Application → Connection → List Event → ℕ → Round
close_with app c events status =
    let (c', sent) = send_close app (record c { status_code = status }) in shut c' (events ++ sent)

-- The frame is over: the buffer of fragments is emptied.
pub finish : Connection → List Event → List ℕ → Round
finish c events rest =
    go_on (record c { fragmentation = ignore_all c.fragmentation; request_frame = empty_frame })
      events rest

-- A whole message, by the opcode of its frame.
pub dispatch : Application → Connection → List ℕ → List ℕ → Round
dispatch app c message rest =
    let opcode = c.request_frame.opcode in
    if opcode == 0x1
    then (if app.handle_text message
        then finish c (Event.text message ∷ []) rest
        else close_with app c (Event.text message ∷ []) status_going_away)
    else if opcode == 0x2
    then (if app.handle_binary message
        then finish c (Event.binary message ∷ []) rest
        else close_with app c (Event.binary message ∷ []) status_going_away)
    else if opcode == 0x8
    then (if length message == 2 then close_with app c [] status_normal_close else finish c [] rest)
    else if opcode == 0x9
    then finish c (blocks (send_pong app.send_data message).blocks) rest
    else if opcode == 0xa
    then finish c [] rest
    else close_with app c [] status_protocol_error

-- The bytes of the buffer of fragments.
pub gathered : Buffer → Option (List ℕ)
gathered b = load_bytes (bytes b.buffer) b.consumed (u32 (available b))

-- The payload of a frame that is there in full.
pub take_payload : Alloc → Application → Connection → List ℕ → List ℕ → Option Round
take_payload alloc app c payload rest =
    if c.request_frame.fin
    then (if u32 (available c.fragmentation) == 0
        then some (dispatch app c payload rest)
        else elim (read_from_buffer alloc c.fragmentation payload) [
          | none ↦ none
          | some (b, done) ↦ elim (gathered b) [
            | none ↦ none
            | some message ↦ some (dispatch app (record c { fragmentation = b }) message rest)
          ]
        ])
    else elim (read_from_buffer alloc c.fragmentation payload) [
      | none ↦ none
      | some (b, done) ↦
          some (go_on (record c { fragmentation = b; request_frame = empty_frame }) [] rest)
    ]

-- The loop of HandlerProtocol over a payload that is masked.
unfoldable pub unmask_from : ℕ → List ℕ → List ℕ → List ℕ
unmask_from i key [] = []
unmask_from i key (b ∷ bs) = bit_xor b (get_or key (i % 4) 0) ∷ unmask_from (i + 1) key bs

-- The part of a round behind the header.
pub on_payload : Alloc → Application → Connection → List ℕ → Option Round
on_payload alloc app c input =
    let f = c.request_frame in
    if ltb (length input) f.payload_length
    then some (wait c input)
    else take_payload alloc app c
        (if f.masked
          then unmask_from 0 f.masking_key (take f.payload_length input)
          else take f.payload_length input)
        (drop f.payload_length input)

-- What follows the reading of a header.
pub after_scan : Alloc → Application → Connection → List ℕ → Scan → Option Round
after_scan alloc app c input (need_more f) = some (wait (record c { request_frame = f }) input)
after_scan alloc app c input (scanned f pos) =
    on_payload alloc app (track_opcode (record c { request_frame = f })) (drop pos input)

-- The whole round: a frame whose header was read before, waiting for its payload, is resumed.
pub round : Alloc → Application → Connection → List ℕ → Option Round
round alloc app c input =
    if c.request_frame.payload_length == 0
    then after_scan alloc app c input (scan_header c.request_frame input)
    else on_payload alloc app c input

-- How the loop ends: with the number of bytes used, converted to `int`, or with -1; `none` as for a fault, and
-- `out_of_rounds` if the fuel does not suffice.
pub data Handled : Type 0 where
  used : Connection → List Event → ℤ → Handled
  error : Connection → List Event → Handled
  faulted : Handled
  out_of_rounds : Handled

-- What follows a round; `next` is the rest of the loop.
pub after_round :
    (next : Connection → List Event → ℕ → List ℕ → Handled)
    → List Event
    → ℕ
    → Option Round
    → Handled
after_round next events size none = faulted
after_round next events size (some (wait c left)) = used c events (int32 (size - length left))
after_round next events size (some (shut c more)) = error c (events ++ more)
after_round next events size (some (go_on c more rest)) = next c (events ++ more) size rest

pub loop : ℕ → Alloc → Application → Connection → List Event → ℕ → List ℕ → Handled
loop zero alloc app c events size input = out_of_rounds
loop (suc fuel) alloc app c events size input =
    after_round (loop fuel alloc app) events size (round alloc app c input)

-- HandlerProtocol in the open state, on the bytes of its buffer, fewer than 2 ^ 32; every round but the last uses bytes.
pub handle_open : Alloc → Application → Connection → List ℕ → Handled
handle_open alloc app c input = loop (suc (length input)) alloc app c [] (length input) input
