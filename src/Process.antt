-- ===== src/Process.antt =====
-- A connection's process: sources/gsdm/include/eventdrive/baseprocess.h,
-- sources/gsdm/src/eventdrive/baseprocess.cpp, and what a TCP carrier does with it on an event
-- (sources/gsdm/src/eventdrive/epoll/tcpcarrier.cpp).
-- The kernel's answers are arguments; the calls of epoll_ctl, whose results the source does not
-- look at, set `epoll_out`.
pub mod Send
pub mod Stream
use gsdm.Base.{
  ℕ, ◌+◌, ◌%◌, ◌^◌, Bool, true, false, not, Option, some, List, ltb, if◌then◌else◌, ◌>>=◌, u32,
  add32, length, drop,
}
use gsdm.Base.Int.{ℤ}
use gsdm.Buffer.{Alloc, Buffer, Errno, is_again, Sent, sent, send_failed, available, ignore_all}
use gsdm.Buffer.Transfer.{read_from_buffer, write_to_tcp_fd, write_to_fd}

-- IOHandlerType
pub data HandlerType : Type 0 where
  tcp_acceptor tcp_connector tcp_carrier udp_carrier : HandlerType
  unix_acceptor unix_connector unix_carrier pipe_carrier thread_carrier : HandlerType

-- ProcessNetStatus
pub data NetStatus : Type 0 where
  disconnect connecting connected peer_reset sys_error peer_timeout : NetStatus

pub record Process : Type 0 where
  pub output_buffer : Buffer
  pub input_buffer : Buffer
  pub handler : HandlerType
  pub net_status : NetStatus
  pub recv_buffer_size : ℕ
  pub send_buffer_size : ℕ
  pub is_write : Bool
  pub epoll_out : Bool

abbrev pub is_connected : NetStatus → Bool
is_connected NetStatus.connected = true
is_connected _ = false

-- The two ways to a stream: `send` for TCP and UNIX sockets, `write` for pipes.
pub data Channel : Type 0 where
  socket pipe neither : Channel

abbrev pub channel : HandlerType → Channel
channel HandlerType.tcp_carrier = Channel.socket
channel HandlerType.unix_carrier = Channel.socket
channel HandlerType.pipe_carrier = Channel.pipe
channel _ = Channel.neither

abbrev pub cached : Process → ℕ
cached p = u32 (available p.output_buffer)

pub enable_write : Process → Process
enable_write p = if not p.is_write then record p { epoll_out = true; is_write = true } else p

pub disable_write : Process → Process
disable_write p = if p.is_write then record p { epoll_out = false; is_write = false } else p

-- SENDMSG_SAVE_CACHE: what is not sent is kept, up to `send_buffer_size_`.
pub save_cache : Alloc → Process → List ℕ → ℕ → Option (Process × Bool)
unfolding enable_write
save_cache alloc p rest cache =
    if ltb p.send_buffer_size (add32 cache (length rest)) then some (p, false) else do
      (out, done) ← read_from_buffer alloc p.output_buffer rest
      let kept = record p { output_buffer = out }
      some (if not done then (kept, false) else (enable_write kept, true))

-- What follows the direct write of the message.
pub after_direct : Alloc → Process → List ℕ → ℕ → Sent → Option (Process × Bool)
unfolding disable_write save_cache
after_direct alloc p message cache (sent n) =
    if ltb 0 (length (drop n message))
    then save_cache alloc p (drop n message) cache
    else some (disable_write p, true)
after_direct alloc p message cache (send_failed e) =
    if not (is_again e)
    then some (p, false)
    else if ltb 0 (length message)
    then save_cache alloc p message cache
    else some (disable_write p, true)

pub send_direct : Alloc → (List ℕ → Sent) → Process → List ℕ → ℕ → Channel → Option (Process × Bool)
unfolding after_direct
send_direct alloc kernel p message cache Channel.neither = some (p, false)
send_direct alloc kernel p message cache _ = after_direct alloc p message cache (kernel message)

-- The write of what waits, of at most 0x800000 bytes on a socket.
pub flush_output : (List ℕ → Sent) → Process → Channel → Option (Process × Bool)
flush_output kernel p Channel.socket = do
  (out, done, count) ← write_to_tcp_fd kernel p.output_buffer 0x800000
  some (record p { output_buffer = out }, done)
flush_output kernel p Channel.pipe = do
  (out, done) ← write_to_fd kernel p.output_buffer 0x800000
  some (record p { output_buffer = out }, done)
flush_output kernel p Channel.neither = some (p, false)

-- SendMsg: `flush` answers for the bytes that wait, `direct` for the message.
pub send_msg : Alloc → (flush direct : List ℕ → Sent) → Process → List ℕ → Option (Process × Bool)
unfolding flush_output send_direct save_cache
send_msg alloc flush direct p message =
    if not (is_connected p.net_status)
    then some (p, true)
    else if ltb 0 (cached p)
    then (do
      (p', done) ← flush_output flush p (channel p.handler)
      if not done
          then some (p', false)
          else if ltb 0 (cached p')
          then save_cache alloc p' message (cached p')
          else send_direct alloc direct p' message (cached p') (channel p.handler))
    else send_direct alloc direct p message (cached p) (channel p.handler)

-- The destructor's part that touches the state.
pub discard_buffers : Process → Process
discard_buffers p = record p {
  output_buffer = ignore_all p.output_buffer;
  input_buffer = ignore_all p.input_buffer;
}
