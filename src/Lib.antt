-- ===== src/Lib.antt =====
-- Models and theorems of gsdm2.0, a library for servers on Linux.
--
-- The program has two drivers, one of epoll events (sources/gsdm/src/eventdrive) and one of pools of
-- processes and threads (sources/gsdm/src/pooldrive); both read into and write out of the byte
-- queue IOBuffer, and both run timers.  The protocols (sources/gsdm/src/protocols) sit on top.
--
-- Files and what they model:
--
--   Base          names and lemmas that the rest shares: lists over native numbers, tests, runs
--                 that may fault (`none`), the wrap of the unsigned
--                 integers, and the conversion to `int`
--   Buffer        IOBuffer (sources/gsdm/src/buffering/iobuffer.cpp): memory, positions, EnsureSize,
--                 MoveData, Recycle, Ignore; Buffer/Transfer has the reads and the writes
--   Process       BaseProcess (sources/gsdm/src/eventdrive/baseprocess.cpp): SendMsg and the write
--                 events that it asks for
--   Carriers      TCPCarrier::OnEvent and UNIXCarrier::OnEvent
--                 (sources/gsdm/src/eventdrive/epoll/tcpcarrier.cpp and unixcarrier.cpp)
--   Datagrams     the datagrams that wait in a process: UDPDataCache and the loop of SendToMsg
--   Lifetime      when processes, handlers and descriptors are deleted and closed: Free, SetWithMe,
--                 TCPConnector, ~TCPCarrier and ~IOHandler of the same folders
--   Cycle         the queues of commands between workers: CycleList
--                 (sources/gsdm/include/utils/container.h), whose nodes are used again, and how
--                 NetWorker (sources/gsdm/src/eventdrive/networker.cpp) and TCPAcceptor use it
--   Workers       the commands that reach a worker: its table of queues, SetupQueue, SendCmd, Close
--                 and ProcessCmd of NetWorker, and the datagrams of Post that Pulse of
--                 IOHandlerManager (sources/gsdm/src/eventdrive/epoll/iohandlermanager.cpp)
--                 receives.  Workers/Acts has one call, Workers/Mailbox any number
--   Running       how a worker ends: the loop of Run and Close of NetWorker, with the calls of Close
--                 and Clear of its class
--   Managers      EventManager::AddWorker (sources/gsdm/src/eventdrive/manager.cpp): the counts of
--                 workers of each processor
--   Transfer      the bytes that move with a connection to another worker: TCPTransfer and
--                 TCPTransferCmd (sources/gsdm/src/eventdrive/baseworkerex.cpp and
--                 tcptransfercmd.cpp)
--   Ws            WSProtocol (sources/gsdm/src/protocols/wsprotocol.cpp): the frame, SendWS and its
--                 callers, the reading of headers; Ws/Connection has the open state: the frame loop
--                 of HandlerProtocol and SendClose.  Ws/Reading is about one header, Ws/Masking
--                 about the key, Ws/Connection/Rounds about the loop, and
--                 Ws/Connection/Delivery about messages from one end to the other.  Ws/Handshake
--                 has the handshake
--   Timers        TimersManager (sources/gsdm/src/utils/timersmanager.cpp): the slots of periodic
--                 timers in order of time, and the loop TimeElapsedProcess
--   Timeouts      TimeoutEvent and TimeoutManager of the same file: the intrusive list of events, with
--                 their links in a store, and the loop TimeElapsedTimeout
--   Clocks        TimersManager as a whole: its table of timeout managers, TimeElapsed, and the time
--                 that Pulse then waits
--   Url           encodeURIComponent and decodeURIComponent
--                 (sources/gsdm/src/protocols/urlcode.cpp), with the array of 4096 characters
--   Pool          the PoolSys functions of PoolWorkerEx
--                 (sources/gsdm/src/pooldrive/poolworkerex.cpp): sending and receiving with a
--                 timeout, over a list of what the waits return
--   Text          functions on strings (sources/gsdm/src/platform/linuxplatform.cpp): split,
--                 mapping, rstrstr and the trims
--   Headers       what the parsers of headers of both protocols share: maps of strings, arguments,
--                 and lines
--   Http          HTTPProtocol (sources/gsdm/src/protocols/httpprotocol.cpp): parsing; Http/Writing
--                 has what it sends, Http/Receiving the handlers
--   Config        GsdmConfig (sources/gsdm/src/utils/gsdmconfig.cpp): reading a file of settings,
--                 GetString, GetInt and GetBool
--   Examples      the theorems at concrete inputs
--
-- The loop of HandlerProtocol runs on fuel, one round more than there are bytes; each round but the
-- last uses two bytes of header at least, or the payload of a frame that waited for it.
--
-- TimeElapsedProcess runs on fuel too: more than the slots that are due is enough, if no timer has
-- the period 0.  Its timers leave the manager alone while they are processed.
--
-- TimeElapsedTimeout has the fuel of one round more than there are events, which is enough if the time
-- and the period do not wrap.  What DoTimeout of an event answers is a parameter.
--
-- The loop over datagrams that wait has the fuel of one round more than there are bytes; each round
-- but the last uses 20 bytes at least.
--
-- The two ends of a CycleList belong to two threads; a call is one step of the model, and what the
-- threads do is any sequence of them.  GetCycle has the fuel of one round more than there are nodes
-- to use again, and ProcessCmd of one round more than commands wait.
--
-- Initialize of GsdmConfig has the fuel of one round more than the file has bytes; each round uses a
-- byte at least.
--
-- split has the fuel of one round more than the text has characters, which is enough for a separator
-- that is not empty.
--
-- The kernel is a parameter: a function from the bytes offered by send or write to what it took,
-- and the block that recv or read stored.  A new allocation has bytes that nothing is known of.  An
-- application that inherits WSProtocol is three functions, and one of BaseProcess is two.  A run
-- that reads or writes outside its memory, or that fails an assertion, is `none`.
--
-- Where the code converts a length to `int`, `int32_t` or `uint32_t`, so do the definitions; a theorem
-- that needs the length to fit says so.  An input of HandlerProtocol has fewer than 2^32 bytes, as its
-- length is a `uint32_t`.
--
-- Left out: what the parsers of headers read when the first line is shorter than the part that they
-- skip (the method, or the version of an answer), in which case they are `none`.
--
-- Not modelled: logs, addresses of sockets, encryption and files, which are calls of the system or
-- of OpenSSL, and the library st of coroutines (3rdparty), which is not the
-- program's own.
pub mod Base
pub mod Buffer
pub mod Carriers
pub mod Clocks
pub mod Config
pub mod Cycle
pub mod Datagrams
pub mod Examples
pub mod Headers
pub mod Http
pub mod Lifetime
pub mod Managers
pub mod Pool
pub mod Process
pub mod Running
pub mod Text
pub mod Timeouts
pub mod Timers
pub mod Transfer
pub mod Url
pub mod Workers
pub mod Ws
