-- ===== src/Transfer.antt =====
-- A connection that moves to another worker: BaseWorkerEx::TCPTransfer
-- (sources/gsdm/src/eventdrive/baseworkerex.cpp) and TCPTransferCmd
-- (sources/gsdm/src/eventdrive/tcptransfercmd.cpp).
-- What dup returned, and CreateTCPProcess and Process of the class, are arguments.
pub mod Handover
use gsdm.Base.{
  ℕ, ◌+◌, Bool, true, false, not, Option, none, some, List, [], ltb, if◌then◌else◌, ◌>>=◌, u32,
}
use gsdm.Base.Int.{ℤ, negsuc, int32}
use gsdm.Buffer.{Alloc, bytes, available, load_bytes}
use gsdm.Buffer.Transfer.{read_from_buffer}
use gsdm.Process.{Process, HandlerType, NetStatus}
use gsdm.Carriers.{App}

-- TCPTransferCmd: `data_` is null or a block of its own.
pub record Command : Type 0 where
  pub fd : ℤ
  pub port : ℕ
  pub block : Option (List ℕ)
  pub data_len : ℕ

abbrev pub new_command : Command
new_command = record { fd = negsuc 0; port = 0; block = none; data_len = 0 }

-- TCPTransfer, for the command that GetCmd gave or a new one: the bytes that wait in the input buffer are
-- copied, if there are some.
pub tcp_transfer : Command → ℤ → ℕ → Process → Option Command
tcp_transfer cmd fd port p =
    let size = u32 (available p.input_buffer) in
    let filled = record cmd { fd = fd; port = port } in
    if ltb 0 size
    then (do
      bs ← load_bytes (bytes p.input_buffer.buffer) p.input_buffer.consumed size
      some (record filled { block = some bs; data_len = size }))
    else some filled

-- What the copy of `data_len_` bytes from `data_` reads; a null pointer may be used for no bytes only.
abbrev pub block_bytes : Option (List ℕ) → ℕ → Option (List ℕ)
block_bytes (some bs) n = load_bytes bs 0 n
block_bytes none n = if ltb 0 n then none else some []

-- What becomes of the descriptor.
pub data Outcome : Type 0 where
  closed : Outcome
  carried : Process → Outcome
  freed : Process → Outcome

abbrev pub after_process : Process × Bool → Outcome
after_process (p, true) = carried p
after_process (p, false) = freed p

-- The new process gets a carrier of TCP and takes the bytes, and is called with their number as an `int`.
-- Its place in the list of timeouts is left out.
abbrev pub with_carrier : Process → Process
with_carrier p = record p { handler = HandlerType.tcp_carrier; net_status = NetStatus.connected }

abbrev pub take_bytes : Alloc → App → Command → Option Process → Option Outcome
take_bytes alloc app cmd none = some closed
take_bytes alloc app cmd (some p) = do
  bs ← block_bytes cmd.block cmd.data_len
  (input, done) ← read_from_buffer alloc p.input_buffer bs
  r ← app.process (record (with_carrier p) { input_buffer = input }) (int32 cmd.data_len)
  some (after_process r)

-- TCPTransferCmd::Process: `data_` is deleted, and the command goes to the cycle of its queue.
pub process_transfer : Alloc → App → (ℕ → Option Process) → Command → Option (Command × Outcome)
process_transfer alloc app create cmd = do
  moved ← take_bytes alloc app cmd (create cmd.port)
  some (record cmd { block = none }, moved)
