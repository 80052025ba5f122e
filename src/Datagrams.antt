-- ===== src/Datagrams.antt =====
-- Datagrams that wait: BaseProcess::SendToMsg (sources/gsdm/src/eventdrive/baseprocess.cpp) and the
-- struct UDPDataCache (sources/gsdm/include/eventdrive/baseprocess.h), of 20 bytes: the length, little
-- end first, two bytes that are not set, and an address of 16 bytes.
-- `kernel n` answers the call of sendto with `n` rounds left: the error, if there is one.
pub mod Entries
pub mod Queue
use gsdm.Base.{
  ℕ, zero, suc, ◌+◌, ◌-◌, ◌*◌, ◌/◌, ◌%◌, ◌^◌, Bool, true, false, not, Option, none, some, List, [],
  ◌∷◌, ◌++◌, ltb, if◌then◌else◌, ◌>>=◌, ◌==◌, u16, u32, add32, sub32, length, take, drop,
}
use gsdm.Buffer.{Alloc, Buffer, bytes, Errno, is_again, available, ignore, load_bytes}
use gsdm.Buffer.Transfer.{read_from_buffer}
use gsdm.Process.{Process, HandlerType, cached, enable_write, disable_write}

-- A datagram and where it goes.
pub record Datagram : Type 0 where
  pub address : List ℕ
  pub payload : List ℕ

abbrev pub Sendto : Type 0
Sendto = ℕ → Datagram → Option Errno

-- The bytes of UDPDataCache for a datagram.
abbrev pub save : ℕ × ℕ → Datagram → List ℕ
save (pad0, pad1) d =
    let len = u16 (length d.payload + 20) in len % 256 ∷ len / 256 ∷ pad0 ∷ pad1 ∷ d.address

-- `cache->len` and `cache->address`
abbrev pub len_of : List ℕ → ℕ
len_of (low ∷ high ∷ rest) = low + 256 * high
len_of _ = 0

abbrev pub address_of : List ℕ → List ℕ
address_of head = drop 4 head

-- How the loop ends: nothing waits any more, or sendto failed.
pub data End : Type 0 where
  empty : End
  failed : Errno → End

pub record Sends : Type 0 where
  pub output : Buffer
  pub left : ℕ
  pub ended : End
  pub wire : List Datagram

-- One call of sendto in the loop, and the rest of the loop.
abbrev pub after_sendto : Buffer → ℕ → Datagram → Option Errno → Option Sends → Option Sends
after_sendto b left d (some e) rest =
    some (record { output = b; left = left; ended = failed e; wire = [] })
after_sendto b left d none rest = do s ← rest; some (record s { wire = d ∷ s.wire })

-- The loop over what waits: `mem` from `at` on are the bytes, `left` is `cache_send_len`. A length
-- below 20 makes sendto read behind the memory.
pub send_cached : Sendto → ℕ → List ℕ → ℕ → ℕ → Buffer → Option Sends
send_cached kernel zero mem at left b = none
send_cached kernel (suc fuel) mem at left b =
    let rest : ℕ → Option Sends =
      λ len. send_cached kernel fuel mem (at + len) (sub32 left len) (ignore b len) in
    if left == 0 then some (record { output = b; left = 0; ended = empty; wire = [] }) else (do
      head ← load_bytes mem at 20
      payload ← (if ltb (len_of head) 20 then none else load_bytes mem (at + 20) (len_of head - 20))
      let d : Datagram = record { address = address_of head; payload = payload }
      after_sendto b left d (kernel fuel d) (rest (len_of head)))
