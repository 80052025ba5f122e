-- ===== src/Lifetime.antt =====
-- The lifetimes of a connection's process and its handler: BaseProcess
-- (sources/gsdm/src/eventdrive/baseprocess.cpp), IOHandler, TCPCarrier, TCPConnector and
-- IOHandlerManager::EnqueueForDelete (sources/gsdm/src/eventdrive/epoll).
-- A use of a null pointer, or of an object that is deleted, is `none`.
pub mod Phases
use gsdm.Base.{ℕ, Bool, true, false, not, ◌&&◌, Option, none, some, if◌then◌else◌, ◌>>=◌}
use gsdm.Process.{NetStatus}

-- The handlers of a TCP connection: one that connects, and one that carries.
pub data Kind : Type 0 where
  connector carrier : Kind

-- The flags of IOHandler: what its destructor closes.
pub record Handler : Type 0 where
  pub kind : Kind
  pub close_process : Bool
  pub close_fd : Bool

-- The process: whether `io_handler_` points at the handler (else it is null).
pub record Owner : Type 0 where
  pub net_status : NetStatus
  pub with_me : Bool
  pub attached : Bool

-- A connection: the objects that are not deleted, whether its descriptor is open and known to epoll,
-- and whether the process is in the list of timeouts.
pub record World : Type 0 where
  pub process : Option Owner
  pub handler : Option Handler
  pub fd_open : Bool
  pub registered : Bool
  pub listed : Bool

abbrev pub with_status : NetStatus → World → Option World
with_status s w = do p ← w.process; some (record w { process = some (record p { net_status = s }) })

abbrev pub detach : World → Option World
detach w = do p ← w.process; some (record w { process = some (record p { attached = false }) })

-- ~TCPCarrier; ~TCPConnector does nothing.
unfoldable pub before_delete : Handler → World → Option World
before_delete h w = elim h.kind [
  | connector ↦ some w
  | carrier ↦
      let out = record w { listed = false } in
      let cleared = detach out in if not h.close_process then cleared else some out
]

-- ~IOHandler
unfoldable pub delete_handler : World → Option World
unfolding before_delete
delete_handler w = do
  h ← w.handler
  p ← w.process
  w1 ← before_delete h w
  some (record w1 {
    handler = none;
    process = if h.close_process then none else w1.process;
    fd_open = if h.close_fd then false else w1.fd_open;
  })

-- EnqueueForDelete
unfoldable pub enqueue_for_delete : World → Option World
unfolding delete_handler
enqueue_for_delete w = delete_handler (record w { registered = false })

-- SetWithMe
unfoldable pub set_with_me : Bool → World → Option World
set_with_me b w = do
  p ← w.process
  let w1 = record w { process = some (record p { with_me = b }) }
  if p.attached
      then (do
        h ← w.handler
        some (record w1 { handler = some (record h { close_process = b; close_fd = true }) }))
      else some w1

-- SetWithMe(true), and `io_handler_` goes to EnqueueForDelete.
pub free_handler : World → Option World
unfolding set_with_me enqueue_for_delete
free_handler w = do
  w1 ← set_with_me true w
  p ← w1.process
  if p.attached then enqueue_for_delete w1 else none

-- Free
pub free : World → Option World
unfolding free_handler
free w = do
  p ← w.process
  elim p.net_status [
    | NetStatus.connected ↦ with_status NetStatus.disconnect w >>= free_handler
    | NetStatus.connecting ↦ with_status NetStatus.disconnect w >>= free_handler
    | NetStatus.peer_timeout ↦ free_handler w
    | NetStatus.disconnect ↦ some (record w { process = none })
    | NetStatus.peer_reset ↦ some (record w { process = none })
    | NetStatus.sys_error ↦ some (record w { process = none })
  ]

-- TimeElapsedTimeout takes the process out of the list; DoTimeout, and Free.
pub time_out : World → Option World
unfolding free
time_out w = do w1 ← with_status NetStatus.peer_timeout (record w { listed = false }); free w1

-- The constructors of IOHandler, TCPConnector and TCPCarrier.
unfoldable pub new_handler : Kind → World → Option World
new_handler k w = do
  p ← w.process
  some (record w {
    handler = some (record { kind = k; close_process = p.with_me; close_fd = true });
    process = some (record p {
      attached = true;
      net_status = elim k [ connector ↦ NetStatus.connecting | carrier ↦ NetStatus.connected ];
    });
    registered = true;
    listed = elim k [ connector ↦ w.listed | carrier ↦ true ];
  })

-- TCPConnector::Connect, where the call of connect succeeds or fails at once.
unfoldable pub connect : Bool → World → Option World
unfolding new_handler enqueue_for_delete
connect succeeds w = do
  w1 ← new_handler Kind.connector (record w { fd_open = true })
  let failed = with_status NetStatus.sys_error w1 >>= enqueue_for_delete
  if succeeds then some w1 else failed

-- TCPConnector::OnEvent and, when it returns false, EnqueueForDelete; the argument is EPOLLERR. A new
-- carrier replaces the connector, which is deleted with no flags and closes nothing.
pub connector_event : Bool → World → Option World
unfolding new_handler enqueue_for_delete delete_handler
connector_event true w = do
  w1 ← with_status NetStatus.sys_error w
  w2 ← detach w1
  enqueue_for_delete w2
connector_event false w = do
  let out = record w { registered = false }
  p ← w.process
  elim p.net_status [
    | NetStatus.connecting ↦ new_handler Kind.carrier out
    | NetStatus.connected ↦ detach out >>= delete_handler
    | NetStatus.peer_timeout ↦ detach out >>= delete_handler
    | NetStatus.disconnect ↦ detach out >>= delete_handler
    | NetStatus.peer_reset ↦ detach out >>= delete_handler
    | NetStatus.sys_error ↦ detach out >>= delete_handler
  ]

-- TCPCarrier::OnEvent sets a status and returns false: EnqueueForDelete.
pub carrier_event : NetStatus → World → Option World
unfolding enqueue_for_delete
carrier_event s w = with_status s w >>= enqueue_for_delete
