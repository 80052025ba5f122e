-- ===== src/Ws/Connection/Messages.antt =====
-- Messages through a WebSocket connection: what SendWS of one end writes, HandlerProtocol of the
-- other reads (sources/gsdm/src/protocols/wsprotocol.cpp).
use gsdm.Base.{
  ℕ, ◌^◌, ◌<◌, ◌≡◌, sym, ap, ◌∙◌, Bool, true, false, some, List, [], ◌∷◌, ◌++◌, append-nil,
  append_assoc, arith, inl, inr, ltb, le→ltb, ◌==◌, if◌then◌else◌, Bool-cases, u32, length, take,
  drop, length-append,
}
use gsdm.Base.Slices.{take_all, take-append_le}
use gsdm.Buffer.{Alloc, available}
use gsdm.Ws.{Frame, header, mask_from, send_ws, scanned}
use gsdm.Ws.Reading.{read_back, scan_header-header, drop-append_length}
use gsdm.Ws.Masking.{AreBytes, length-mask_from, unmask_from-mask_from}
use gsdm.Ws.Connection.{
  Application, Connection, dispatch, unmask_from, take_payload, on_payload, track_opcode,
  after_scan, round,
}

-- The bytes of the blocks, one behind the other.
abbrev pub flat : List (List ℕ) → List ℕ
flat [] = []
flat (b ∷ bs) = b ++ flat bs

-- The bytes that reach the other end when every call of SendWSData succeeds.
abbrev pub on_wire : Frame → List ℕ → List ℕ
on_wire f payload = flat (send_ws (λ _. true) f payload).blocks

body : Frame → List ℕ → List ℕ
body f payload = if f.masked then mask_from 0 f.masking_key payload else payload

-- A frame that one end may send: a single one, of a message of bytes, with a key of four bytes.
pub record Sendable (f : Frame) (payload : List ℕ) : Type 0 where
  pub last : f.fin ≡ true
  pub opcode_lt : f.opcode < 16
  pub opcode_pos : (f.opcode == 0) ≡ false
  pub key_length : length f.masking_key ≡ 4
  pub key_bytes : AreBytes f.masking_key
  pub payload_bytes : AreBytes payload
  pub payload_lt : length payload < 2 ^ 32

on_wire_lem :
    (f : Frame) (payload : List ℕ) → on_wire f payload ≡ header f (length payload) ++ body f payload
unfolding send_ws body
on_wire_lem f payload = ap (λ xs. header f (length payload) ++ xs) (append-nil (body f payload))

length-body : (f : Frame) (payload : List ℕ) → length (body f payload) ≡ length payload
unfolding body
length-body f payload = elim (Bool-cases f.masked) [
  | inl on ↦ rw on (length-mask_from 0 f.masking_key payload)
  | inr off ↦ rw off
]

unmasked :
    (f : Frame) (payload : List ℕ)
    → Sendable f payload
    → (if f.masked then unmask_from 0 f.masking_key (body f payload) else body f payload) ≡ payload
unfolding body
unmasked f payload s = elim (Bool-cases f.masked) [
  | inl on ↦ rw on (unmask_from-mask_from 0 f.masking_key payload s.key_bytes s.payload_bytes)
  | inr off ↦ rw off
]

-- Nothing is half read: no header waits for its payload, and no fragment for its message.
pub record Idle (c : Connection) : Type 0 where
  pub fresh : (c.request_frame.payload_length == 0) ≡ true
  pub alone : (u32 (available c.fragmentation) == 0) ≡ true

take-append_length : (n : ℕ) (xs ys : List ℕ) → length xs ≡ n → take n (xs ++ ys) ≡ xs
take-append_length n xs ys e = take-append_le n xs ys (omega arith) ∙ take_all n xs (omega arith)

drop-append_size : (n : ℕ) (xs ys : List ℕ) → length xs ≡ n → drop n (xs ++ ys) ≡ ys
drop-append_size n xs ys e = ap (λ k. drop k (xs ++ ys)) (sym e) ∙ drop-append_length xs ys

on_payload-single :
    (alloc : Alloc) (app : Application) (c : Connection) (sent payload rest : List ℕ)
    → c.request_frame.fin ≡ true
    → (u32 (available c.fragmentation) == 0) ≡ true
    → length sent ≡ c.request_frame.payload_length
    → (if c.request_frame.masked then unmask_from 0 c.request_frame.masking_key sent else sent)
      ≡ payload
    → on_payload alloc app c (sent ++ rest) ≡ some (dispatch app c payload rest)
unfolding on_payload take_payload
on_payload-single alloc app c sent payload rest last alone size clear =
    let n = c.request_frame.payload_length in
    let there : ltb (length (sent ++ rest)) n ≡ false =
      le→ltb _ _ (omega (arith, length-append {0} sent rest)) in
    simp (
      there,
      take-append_length n sent rest size,
      drop-append_size n sent rest size,
      clear,
      last,
      alone,
    )

track_opcode-single :
    (c : Connection)
    → c.request_frame.fin ≡ true
    → (c.request_frame.opcode == 0) ≡ false
    → track_opcode c ≡ c
unfolding track_opcode
track_opcode-single c last op = simp (last, op)

kept_key :
    (m : Bool) (key old bytes payload : List ℕ)
    → (if m then unmask_from 0 key bytes else bytes) ≡ payload
    → (if m then unmask_from 0 (if m then key else old) bytes else bytes) ≡ payload
kept_key true key old bytes payload e = e
kept_key false key old bytes payload e = e

-- The connection when it has read the header of `f`.
abbrev pub reading : Connection → Frame → List ℕ → Connection
reading c f payload = record c { request_frame = read_back c.request_frame f (length payload) }

after_scan-single :
    (alloc : Alloc) (app : Application) (c : Connection) (f : Frame) (input payload rest : List ℕ)
    (pos : ℕ)
    → Idle c
    → Sendable f payload
    → drop pos input ≡ body f payload ++ rest
    → after_scan alloc app c input (scanned (read_back c.request_frame f (length payload)) pos)
      ≡ some (dispatch app (reading c f payload) payload rest)
unfolding after_scan read_back
after_scan-single alloc app c f input payload rest pos idle s at =
    rw (track_opcode-single (reading c f payload) s.last s.opcode_pos, at)
      (on_payload-single alloc app (reading c f payload) (body f payload) payload rest s.last
        idle.alone (length-body f payload)
        (kept_key f.masked f.masking_key _ (body f payload) payload (unmasked f payload s)))

pub round-single :
    (alloc : Alloc) (app : Application) (c : Connection) (f : Frame) (payload rest : List ℕ)
    → Idle c
    → Sendable f payload
    → round alloc app c (on_wire f payload ++ rest)
      ≡ some (dispatch app (reading c f payload) payload rest)
unfolding round
round-single alloc app c f payload rest idle s =
    let h = header f (length payload) in
    let e : on_wire f payload ++ rest ≡ h ++ (body f payload ++ rest) =
      ap (λ w. w ++ rest) (on_wire_lem f payload) ∙ append_assoc h (body f payload) rest in
    rw
      (
        e,
        idle.fresh,
        scan_header-header c.request_frame f (length payload) (body f payload ++ rest) s.opcode_lt
            s.key_length s.payload_lt,
      )
      (after_scan-single alloc app c f _ payload rest (length h) idle s
        (drop-append_length h (body f payload ++ rest)))
