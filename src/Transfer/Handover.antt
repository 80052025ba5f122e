-- ===== src/Transfer/Handover.antt =====
-- The bytes that move with a connection (sources/gsdm/src/eventdrive/baseworkerex.cpp and
-- tcptransfercmd.cpp beside it).
use gsdm.Base.{
  ℕ, ◌<◌, ◌^◌, ◌≡◌, refl, sym, ap, ◌∙◌, Bool, Option, none, some, List, [], ◌∷◌, ltb, lt→ltb,
  ltb→le, ◌>>=◌, u32, subst, length, take, drop, arith, inl, inr, ◌⊎◌, Bool-cases,
}
use gsdm.Base.Slices.{take_all}
use gsdm.Base.Int.{ℤ, pos, int32_small}
use gsdm.Base.Returns
use gsdm.Base.Returns.{Returns, returns}
use gsdm.Buffer.{Alloc, Buffer, bytes, available, load_bytes}
use gsdm.Buffer.Memory.{load_bytes_lem}
use gsdm.Buffer.Valid.{IsValid, Fits, content}
use gsdm.Buffer.Transfer.Append.{Appended, read_from_buffer-Appended}
use gsdm.Buffer.Transfer.Consume.{available_lem, length-content}
use gsdm.Process.{Process, HandlerType, NetStatus}
use gsdm.Carriers.{App}
use gsdm.Transfer.{
  Command, tcp_transfer, block_bytes, Outcome, after_process, take_bytes, process_transfer,
}

-- A command whose length is 0 whenever it has no block: a new one is.
abbrev pub Clean : Command → Type 0
Clean cmd = (cmd.block ≡ none) × (cmd.data_len ≡ 0)

nil_of : (xs : List ℕ) → length xs ≡ 0 → xs ≡ []
nil_of [] h = refl
nil_of (x ∷ xs) h = absurd (omega (arith, h))

all_of : (bs : List ℕ) → load_bytes bs 0 (length bs) ≡ some bs
all_of bs =
    load_bytes_lem bs 0 (length bs) (omega arith) ∙ ap some (take_all (length bs) bs (omega arith))

-- The command then holds the bytes that waited.
record Holds (bs : List ℕ) (fd : ℤ) (port : ℕ) (cmd : Command) : Type 0 where
  at_fd : cmd.fd ≡ fd
  at_port : cmd.port ≡ port
  held : block_bytes cmd.block cmd.data_len ≡ some bs
  size : cmd.data_len ≡ length bs

-- What waits in a buffer, as it is read.
load_content :
    (b : Buffer)
    → IsValid b
    → load_bytes (bytes b.buffer) b.consumed (length (content b)) ≡ some (content b)
load_content b v =
    let size = length-content b v in
    load_bytes_lem (bytes b.buffer) b.consumed (length (content b))
      (omega (arith, size, v.consumed_le, v.published_le, v.memory))
    ∙ ap (λ n. some (take n (drop b.consumed (bytes b.buffer)))) size

none_held : (cmd : Command) → Clean cmd → block_bytes cmd.block cmd.data_len ≡ some []
none_held cmd (no_block, no_size) = rw (no_block, no_size) refl

tcp_transfer-Holds :
    (cmd : Command) (fd : ℤ) (port : ℕ) (p : Process)
    → IsValid p.input_buffer
    → length (content p.input_buffer) < 2 ^ 32
    → Clean cmd ⊎ (0 < length (content p.input_buffer))
    → Returns (Holds (content p.input_buffer) fd port) (tcp_transfer cmd fd port p)
unfolding tcp_transfer
tcp_transfer-Holds cmd fd port p v lt ok =
    let b = p.input_buffer in
    let size : u32 (available b) ≡ length (content b) = omega (arith, available_lem b v, lt) in
    elim (Bool-cases (ltb 0 (length (content b)))) [
      | inl some_wait ↦
          rw (size, some_wait, load_content b v)
            (returns
              (record { at_fd = refl; at_port = refl; held = all_of (content b); size = refl }))
      | inr none_waits ↦
          let empty : length (content b) ≡ 0 =
            omega (arith, ltb→le 0 (length (content b)) none_waits) in
          let clean = without ok empty in
          rw (size, none_waits)
            (returns (record {
              at_fd = refl;
              at_port = refl;
              held = none_held cmd clean ∙ ap some (sym (nil_of (content b) empty));
              size = clean.1 ∙ sym empty;
            }))
    ]
  where
    without :
        Clean cmd ⊎ (0 < length (content p.input_buffer))
        → length (content p.input_buffer) ≡ 0
        → Clean cmd
    without (inl clean) e = clean
    without (inr more) e = absurd (omega (arith, more, e))

-- A process that is connected through a carrier of TCP, with this input buffer.
abbrev pub on_net : Process → Buffer → Process
on_net q input = record q {
  handler = HandlerType.tcp_carrier;
  net_status = NetStatus.connected;
  input_buffer = input;
}

-- The new process with the bytes behind its own, and its call with their number.
pub record Called (alloc : Alloc) (app : App) (create : ℕ → Option Process) (q : Process)
    (bs : List ℕ) (fd : ℤ) (port : ℕ) (cmd : Command) : Type 0 where
  pub at_fd : cmd.fd ≡ fd
  pub size : cmd.data_len ≡ length bs
  pub input : Buffer
  pub appended : Appended q.input_buffer bs input
  pub call : process_transfer alloc app create cmd ≡ (
      app.process (on_net q input) (pos (length bs)) >>= λ r.
      some (record cmd { block = none }, after_process r))

regroup :
    (o : Option (Process × Bool)) (c : Command)
    → ◌>>=◌ {B = Command × Outcome} (o >>= λ r. some (after_process r)) (λ moved. some (c, moved))
      ≡ ◌>>=◌ {B = Command × Outcome} o (λ r. some (c, after_process r))
regroup none c = refl
regroup (some r) c = refl

-- A connection that moves takes with it the bytes that waited: the new process, connected through a carrier
-- of TCP, is called with them behind its own bytes, and with their number, which fits an `int`. There is
-- room for them, and the command is new, or some bytes wait.
pub process_transfer-tcp_transfer :
    (alloc : Alloc) (app : App) (create : ℕ → Option Process) (cmd : Command) (fd : ℤ) (port : ℕ)
    (p q : Process)
    → create port ≡ some q
    → IsValid p.input_buffer
    → length (content p.input_buffer) < 2 ^ 31
    → IsValid q.input_buffer
    → Fits q.input_buffer (length (content p.input_buffer))
    → Clean cmd ⊎ (0 < length (content p.input_buffer))
    → Returns
        (Called alloc app create q (content p.input_buffer) fd port)
        (tcp_transfer cmd fd port p)
unfolding process_transfer
process_transfer-tcp_transfer alloc app create cmd fd port p q made v lt vq fits ok =
    Returns.mono (tcp_transfer-Holds cmd fd port p v (omega (arith, lt)) ok) λ c h.
      let ((input, done), did, (appended, yes_done)) =
        Returns.result
          (read_from_buffer-Appended alloc q.input_buffer (content p.input_buffer) vq fits) in
      record {
        at_fd = h.at_fd;
        size = h.size;
        input = input;
        appended = appended;
        call =
            rw
              (
                h.at_port,
                made,
                h.held,
                did,
                h.size,
                int32_small (length (content p.input_buffer)) lt,
              )
              (regroup (app.process (on_net q input) (pos (length (content p.input_buffer)))) _);
      }

-- The command that is given back has lost its block and kept its length.
abbrev Spent : Command → Option (Command × Outcome) → Type 0
Spent cmd none = Unit {0}
Spent cmd (some (used, moved)) = (used.block ≡ none) × (used.data_len ≡ cmd.data_len)

given_back :
    (cmd : Command) (o : Option Outcome)
    → Spent cmd
        (◌>>=◌ {B = Command × Outcome} o (λ moved. some (record cmd { block = none }, moved)))
given_back cmd none = tt
given_back cmd (some moved) = (refl, refl)

process_transfer-Spent :
    (alloc : Alloc) (app : App) (create : ℕ → Option Process) (cmd : Command)
    → Spent cmd (process_transfer alloc app create cmd)
unfolding process_transfer
process_transfer-Spent alloc app create cmd =
    given_back cmd (take_bytes alloc app cmd (create cmd.port))

process_transfer-kept :
    (alloc : Alloc) (app : App) (create : ℕ → Option Process) (cmd used : Command) (moved : Outcome)
    → process_transfer alloc app create cmd ≡ some (used, moved)
    → (used.block ≡ none) × (used.data_len ≡ cmd.data_len)
process_transfer-kept alloc app create cmd used moved h =
    subst (Spent cmd) h (process_transfer-Spent alloc app create cmd)

-- A command that was processed with bytes, and that TCPTransfer fills again from a process with an empty
-- input buffer, makes Process copy from a null pointer.
pub process_transfer-stale :
    (alloc : Alloc) (app again : App) (create : ℕ → Option Process) (cmd used : Command)
    (moved : Outcome) (fd : ℤ) (port : ℕ) (p q : Process)
    → process_transfer alloc app create cmd ≡ some (used, moved)
    → 0 < cmd.data_len
    → create port ≡ some q
    → IsValid p.input_buffer
    → content p.input_buffer ≡ []
    → (tcp_transfer used fd port p >>= process_transfer alloc again create) ≡ none
unfolding process_transfer tcp_transfer
process_transfer-stale alloc app again create cmd used moved fd port p q done bytes_before made v
      empty =
    let (no_block, same) = process_transfer-kept alloc app create cmd used moved done in
    let stale : 0 < used.data_len = omega (arith, same, bytes_before) in
    let size : u32 (available p.input_buffer) ≡ 0 =
      omega (arith, available_lem p.input_buffer v, ap length empty) in
    rw (size, made, no_block, lt→ltb 0 used.data_len stale) refl
