-- ===== src/Ws/Connection/Delivery.antt =====
-- Sequences of messages through a WebSocket connection: SendWS at one end, the loop of
-- HandlerProtocol at the other (sources/gsdm/src/protocols/wsprotocol.cpp).
use gsdm.Base.{
  ℕ, zero, suc, ◌^◌, ◌≤◌, ◌<◌, ◌≡◌, refl, ap, ◌∙◌, Bool, true, false, some, List, [], ◌∷◌, ◌++◌,
  append-nil, append_assoc, arith, ◌==◌, if◌then◌else◌, u32, length, length-append,
}
use gsdm.Base.Int.{ℤ, pos, int32, int32_small}
use gsdm.Buffer.{Alloc, Buffer, available, ignore_all}
use gsdm.Buffer.Transfer.Consume.{available-ignore_all}
use gsdm.Ws.{Frame, empty_frame, header, send_ws, scan_header}
use gsdm.Ws.Reading.{read_back}
use gsdm.Ws.Masking.{AreBytes}
use gsdm.Ws.Connection.{
  Application, Connection, Event, go_on, wait, finish, dispatch, after_scan, after_round, round,
  Handled, used, loop, handle_open,
}
use gsdm.Ws.Connection.Messages.{on_wire, Sendable, Idle, reading, round-single}

-- A message of one frame, text or binary, masked or not.
pub record Message : Type 0 where
  pub is_binary : Bool
  pub masked : Bool
  pub key : List ℕ
  pub payload : List ℕ

abbrev pub opcode_of : Bool → ℕ
opcode_of is_binary = if is_binary then 2 else 1

abbrev pub frame_of : Message → Frame
frame_of m = record {
  fin = true;
  rsv1 = false;
  rsv2 = false;
  rsv3 = false;
  opcode = opcode_of m.is_binary;
  masked = m.masked;
  masking_key = m.key;
  payload_length = 0;
}

-- The application takes the message.
abbrev pub accepts : Application → Message → Bool
accepts app m = if m.is_binary then app.handle_binary m.payload else app.handle_text m.payload

pub record Valid (app : Application) (m : Message) : Type 0 where
  pub key_length : length m.key ≡ 4
  pub key_bytes : AreBytes m.key
  pub payload_bytes : AreBytes m.payload
  pub payload_lt : length m.payload < 2 ^ 32
  pub accepted : accepts app m ≡ true

abbrev pub AllValid : Application → List Message → Type 0
AllValid app [] = Unit {0}
AllValid app (m ∷ ms) = Valid app m × AllValid app ms

abbrev pub event_of : Message → Event
event_of m = if m.is_binary then Event.binary m.payload else Event.text m.payload

abbrev pub delivered : List Message → List Event
delivered [] = []
delivered (m ∷ ms) = event_of m ∷ delivered ms

abbrev pub wire : List Message → List ℕ
wire [] = []
wire (m ∷ ms) = on_wire (frame_of m) m.payload ++ wire ms

opcode_of_lt : (b : Bool) → opcode_of b < 16
opcode_of_lt true = omega arith
opcode_of_lt false = omega arith

opcode_of_pos : (b : Bool) → (opcode_of b == 0) ≡ false
opcode_of_pos true = refl
opcode_of_pos false = refl

sendable : (app : Application) (m : Message) → Valid app m → Sendable (frame_of m) m.payload
sendable app m v = record {
  last = refl;
  opcode_lt = opcode_of_lt m.is_binary;
  opcode_pos = opcode_of_pos m.is_binary;
  key_length = v.key_length;
  key_bytes = v.key_bytes;
  payload_bytes = v.payload_bytes;
  payload_lt = v.payload_lt;
}

dispatch-accepted :
    (app : Application) (b : Bool) (c : Connection) (payload rest : List ℕ)
    → (if b then app.handle_binary payload else app.handle_text payload) ≡ true
    → c.request_frame.opcode ≡ opcode_of b
    → dispatch app c payload rest
      ≡ finish c ((if b then Event.binary payload else Event.text payload) ∷ []) rest
unfolding dispatch
dispatch-accepted app true c payload rest h op = simp (op, h)
dispatch-accepted app false c payload rest h op = simp (op, h)

ignore_all-alone : (b : Buffer) → (u32 (available (ignore_all b)) == 0) ≡ true
ignore_all-alone b = rw (available-ignore_all b) refl

-- After the messages the connection is idle again, as it was in all that concerns closing.
pub record Waiting (before after : Connection) : Type 0 where
  pub idle : Idle after
  pub same_close : after.is_send_close ≡ before.is_send_close
  pub same_status : after.status_code ≡ before.status_code

abbrev pub Delivers : Connection → List Event → ℤ → Handled → Type 0
Delivers c events n h = (c' : Connection) × (h ≡ used c' events n) × Waiting c c'

round-nothing :
    (alloc : Alloc) (app : Application) (c : Connection)
    → Idle c
    → round alloc app c [] ≡ some (wait (record c { request_frame = c.request_frame }) [])
unfolding round after_scan scan_header
round-nothing alloc app c idle = simp idle.fresh

-- The connection behind a message.
abbrev behind : Connection → Connection
behind c = record c { fragmentation = ignore_all c.fragmentation; request_frame = empty_frame }

behind-Idle : (c : Connection) → Idle (behind c)
unfolding empty_frame
behind-Idle c = record { fresh = refl; alone = ignore_all-alone c.fragmentation }

round-message :
    (alloc : Alloc) (app : Application) (c : Connection) (m : Message) (rest : List ℕ)
    → Idle c
    → Valid app m
    → round alloc app c (on_wire (frame_of m) m.payload ++ rest)
      ≡ some (go_on (behind c) (event_of m ∷ []) rest)
unfolding finish read_back
round-message alloc app c m rest idle v =
    round-single alloc app c (frame_of m) m.payload rest idle (sendable app m v)
    ∙ ap some (
        dispatch-accepted app m.is_binary (reading c (frame_of m) m.payload) m.payload rest
          v.accepted refl)

on_wire-long : (f : Frame) (payload : List ℕ) → 1 ≤ length (on_wire f payload)
unfolding send_ws header
on_wire-long f payload = omega arith

loop-Delivers :
    (fuel : ℕ) (alloc : Alloc) (app : Application) (c : Connection) (events : List Event) (size : ℕ)
    (ms : List Message)
    → Idle c
    → AllValid app ms
    → length (wire ms) < fuel
    → size < 2 ^ 31
    → Delivers c (events ++ delivered ms) (pos size) (loop fuel alloc app c events size (wire ms))
unfolding loop after_round
loop-Delivers zero alloc app c events size ms idle v h fits = absurd (omega arith)
loop-Delivers (suc fuel) alloc app c events size [] idle v h fits =
    rw (round-nothing alloc app c idle, append-nil events)
      (
        c,
        ap (λ n. used c events (int32 n)) (omega arith)
            ∙ ap (used c events) (int32_small size fits),
        record { idle = idle; same_close = refl; same_status = refl },
      )
loop-Delivers (suc fuel) alloc app c events size (m ∷ ms) idle v h fits =
    let shorter : length (wire ms) < fuel = omega (
      arith,
      length-append {0} (on_wire (frame_of m) m.payload) (wire ms),
      on_wire-long (frame_of m) m.payload,
    ) in
    let (c', e, w) =
      loop-Delivers fuel alloc app (behind c) (events ++ event_of m ∷ []) size ms (behind-Idle c)
        v.1 shorter fits in
    rw (round-message alloc app c m (wire ms) idle v.0) (
      c',
      e ∙ ap (λ es. used c' es (pos size)) (append_assoc events (event_of m ∷ []) (delivered ms)),
      record { idle = w.idle; same_close = w.same_close; same_status = w.same_status },
    )

-- Any sequence of single-frame text and binary messages that one end writes, masked or not, is
-- handed over by an idle connection at the other end message by message, in order, with the
-- bytes of each payload as they were; every byte is used, and the connection is idle again,
-- with its closing state unchanged. These are fewer than 2 ^ 31 bytes. The payloads are bytes, of fewer than 2 ^ 32, each key has
-- four bytes, and the application takes each message.
pub handle_open-Delivers :
    (alloc : Alloc) (app : Application) (c : Connection) (ms : List Message)
    → Idle c
    → AllValid app ms
    → length (wire ms) < 2 ^ 31
    → Delivers c (delivered ms) (pos (length (wire ms))) (handle_open alloc app c (wire ms))
unfolding handle_open
handle_open-Delivers alloc app c ms idle v fits =
    loop-Delivers (suc (length (wire ms))) alloc app c [] (length (wire ms)) ms idle v (omega arith)
      fits
