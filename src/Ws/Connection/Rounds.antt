-- ===== src/Ws/Connection/Rounds.antt =====
-- The frame loop of HandlerProtocol (sources/gsdm/src/protocols/wsprotocol.cpp) ends.
use gsdm.Base.{
  ℕ, zero, suc, ◌-◌, ◌≤◌, ◌<◌, ◌≢◌, Option, none, some, List, [], ◌∷◌, ◌++◌, arith, inl, inr, ltb,
  ltb→le, ◌==◌, Bool-cases, Option-cases, u32, length, drop, length-drop,
}
use gsdm.Buffer.{Alloc, available}
use gsdm.Buffer.Transfer.{read_from_buffer}
use gsdm.Ws.{Frame, Scan, need_more, scanned, scan_key, scan_length, scan_header}
use gsdm.Ws.Connection.{
  Application, Connection, Event, Round, go_on, wait, shut, close_with, finish, dispatch, gathered,
  take_payload, on_payload, after_scan, after_round, round, out_of_rounds, loop, handle_open,
}

-- A round that goes on leaves fewer than `n` bytes.
abbrev pub Leaves : ℕ → Round → Type 0
Leaves n (go_on c events rest) = length rest < n
Leaves n (wait c input) = Unit {0}
Leaves n (shut c events) = Unit {0}

abbrev Leaves? : ℕ → Option Round → Type 0
Leaves? n none = Unit {0}
Leaves? n (some r) = Leaves n r

dispatch-Leaves :
    (app : Application) (c : Connection) (message rest : List ℕ)
    → Leaves (suc (length rest)) (dispatch app c message rest)
unfolding dispatch finish close_with
dispatch-Leaves app c message rest = ground arith

Leaves-mono : {m n : ℕ} (r : Option Round) → m ≤ n → Leaves? m r → Leaves? n r
Leaves-mono none h l = tt
Leaves-mono (some (go_on c events rest)) h l = omega arith
Leaves-mono (some (wait c input)) h l = tt
Leaves-mono (some (shut c events)) h l = tt

take_payload-Leaves :
    (alloc : Alloc) (app : Application) (c : Connection) (payload rest : List ℕ)
    → Leaves? (suc (length rest)) (take_payload alloc app c payload rest)
unfolding take_payload
take_payload-Leaves alloc app c payload rest = elim (Bool-cases c.request_frame.fin) [
  | inr more ↦ elim (Option-cases (read_from_buffer alloc c.fragmentation payload)) [
    | inl e ↦ rw (more, e) tt
    | inr (p, e) ↦ rw (more, e) (omega arith)
  ]
  | inl fin ↦ elim (Bool-cases (u32 (available c.fragmentation) == 0)) [
    | inl alone ↦ rw (fin, alone) (dispatch-Leaves app _ payload rest)
    | inr parts ↦ elim (Option-cases (read_from_buffer alloc c.fragmentation payload)) [
      | inl e ↦ rw (fin, parts, e) tt
      | inr (p, e) ↦ elim (Option-cases (gathered p.0)) [
        | inl g ↦ rw (fin, parts, e, g) tt
        | inr (m, g) ↦ rw (fin, parts, e, g) (dispatch-Leaves app _ m rest)
      ]
    ]
  ]
]

on_payload-Leaves :
    (m : ℕ) (alloc : Alloc) (app : Application) (c : Connection) (input : List ℕ)
    → (c.request_frame.payload_length ≤ length input
        → length input - c.request_frame.payload_length < m)
    → Leaves? m (on_payload alloc app c input)
unfolding on_payload
on_payload-Leaves m alloc app c input h =
    let n = c.request_frame.payload_length in
    elim (Bool-cases (ltb (length input) n)) [
      | inl short ↦ rw short tt
      | inr there ↦ rw there (
          Leaves-mono (take_payload alloc app c _ (drop n input))
            (omega (arith, length-drop {0} n input, h (ltb→le _ _ there)))
            (take_payload-Leaves alloc app c _ (drop n input)))
    ]

-- A header takes two bytes at least.
abbrev Long : ℕ → Scan → Type 0
Long n (need_more f) = Unit {0}
Long n (scanned f pos) = (2 ≤ pos) × (2 ≤ n)

scan_header-Long : (f : Frame) (input : List ℕ) → Long (length input) (scan_header f input)
unfolding scan_header scan_length scan_key
scan_header-Long f [] = tt
scan_header-Long f (a ∷ []) = tt
scan_header-Long f (a ∷ b ∷ rest) = ground arith

scanned-Leaves :
    (alloc : Alloc) (app : Application) (c : Connection) (input : List ℕ) (s : Scan)
    → Long (length input) s
    → Leaves? (length input) (after_scan alloc app c input s)
unfolding after_scan
scanned-Leaves alloc app c input (need_more f) l = tt
scanned-Leaves alloc app c input (scanned f pos) (two, some_left) =
    on_payload-Leaves (length input) alloc app _ (drop pos input)
      (λ h. omega (arith, length-drop {0} pos input))

-- A round that goes on has used a byte at least.
round-Leaves :
    (alloc : Alloc) (app : Application) (c : Connection) (input : List ℕ)
    → Leaves? (length input) (round alloc app c input)
unfolding round
round-Leaves alloc app c input = elim (Bool-cases (c.request_frame.payload_length == 0)) [
  | inl fresh ↦ rw fresh (scanned-Leaves alloc app _ input _ (scan_header-Long _ input))
  | inr resumed ↦
      let positive : 0 < c.request_frame.payload_length = ground (arith, resumed) in
      rw resumed (on_payload-Leaves (length input) alloc app c input (λ h. omega arith))
]

ends :
    (fuel : ℕ) (alloc : Alloc) (app : Application) (events : List Event) (size n : ℕ)
    (next : (c : Connection) (events : List Event) (input : List ℕ)
      → length input < n
      → loop fuel alloc app c events size input ≢ out_of_rounds)
    (r : Option Round)
    → Leaves? n r
    → after_round (loop fuel alloc app) events size r ≢ out_of_rounds
unfolding after_round
ends fuel alloc app events size n next none l e = cc
ends fuel alloc app events size n next (some (wait c' left)) l e = cc
ends fuel alloc app events size n next (some (shut c' more)) l e = cc
ends fuel alloc app events size n next (some (go_on c' more rest)) l e =
    next c' (events ++ more) rest l e

loop-ends :
    (fuel : ℕ) (alloc : Alloc) (app : Application) (c : Connection) (events : List Event) (size : ℕ)
    (input : List ℕ)
    → length input < fuel
    → loop fuel alloc app c events size input ≢ out_of_rounds
unfolding loop
loop-ends zero alloc app c events size input h = absurd (omega arith)
loop-ends (suc fuel) alloc app c events size input h =
    ends fuel alloc app events size (length input)
      (λ c' events' input' less. loop-ends fuel alloc app c' events' size input' (omega arith))
      (round alloc app c input) (round-Leaves alloc app c input)

-- The loop ends on every input, in every state: the fuel of one round more than there are bytes
-- is enough.
pub handle_open-ends :
    (alloc : Alloc) (app : Application) (c : Connection) (input : List ℕ)
    → handle_open alloc app c input ≢ out_of_rounds
unfolding handle_open
handle_open-ends alloc app c input =
    loop-ends (suc (length input)) alloc app c [] (length input) input (omega arith)
