-- ===== src/Workers.antt =====
-- The commands that reach a worker: the queues of NetWorker (sources/gsdm/src/eventdrive/networker.cpp)
-- and the datagrams that tell of them (sources/gsdm/src/eventdrive/epoll/iohandlermanager.cpp).
-- A call is one step, whatever thread makes it.
pub mod Entries
pub mod Answered
pub mod Boxes
pub mod Acts
pub mod Pulses
pub mod Mailbox
use gsdm.Base.{
  ℕ, zero, suc, Bool, true, false, Option, none, some, List, [], ◌∷◌, ◌++◌, ◌==◌, if◌then◌else◌,
  ◌>>=◌,
}
use gsdm.Cycle.{Node, CycleList, Mail, Allocator, send, process_cmd}

-- GsdmCmdInfo, the type as its 32 bits
pub record Info : Type 0 where
  pub worker_id : ℕ
  pub cmd_type : ℕ

abbrev pub same : ℕ → ℕ → ℕ → ℕ → Bool
same a b s t = if a == s then b == t else false

-- A table with another entry at `a` and `b`
abbrev pub assign {ℓ} : {A : Type ℓ} → (ℕ → ℕ → A) → ℕ → ℕ → A → ℕ → ℕ → A
assign f a b v s t = if same a b s t then v else f s t

-- `(uint32_t)-1`
abbrev pub nobody : ℕ
nobody = 4294967295

-- BaseCmd(true)
abbrev pub head_node : Node
head_node = record { next = none; is_free = true }

-- The queues, and the datagrams that wait at the socket of the worker
pub record NetWorker (M : Type 0) : Type 0 where
  pub queues : ℕ → ℕ → Option (Mail M)
  pub posts : List Info

module _ {M : Type 0} where
  -- A CycleList of two new nodes, whose fields hold nothing that is read.
  abbrev pub new_queue : Allocator → M → Mail M
  new_queue alloc blank =
      let a = alloc.address [] in
      let b = alloc.address ((a, some head_node) ∷ []) in
      record {
        list = record {
          store = (b, some head_node) ∷ (a, some head_node) ∷ [];
          head = a;
          tail = none;
          cycle_head = b;
          cycle_tail = none;
        };
        fields = λ d. blank;
      }

  abbrev pub open_queue : Allocator → M → NetWorker M → ℕ → ℕ → Option (Mail M) → NetWorker M
  open_queue alloc blank w src type (some b) = w
  open_queue alloc blank w src type none = record w {
    queues = assign w.queues src type (some (new_queue alloc blank));
  }

  -- SetupQueue
  pub setup_queue : Allocator → M → NetWorker M → ℕ → ℕ → NetWorker M
  setup_queue alloc blank w src type = open_queue alloc blank w src type (w.queues src type)

  -- Post; `took` is what the kernel answers, which Post does not look at.
  abbrev pub post_info : NetWorker M → Info → Bool → NetWorker M
  post_info w i took = record w { posts = if took then w.posts ++ i ∷ [] else w.posts }

  abbrev pub send_into :
      Allocator → ℕ → NetWorker M → ℕ → ℕ → M → Bool → Option (Mail M) → Option (NetWorker M)
  send_into alloc fuel w src type v took none = some w
  send_into alloc fuel w src type v took (some b) = do
    b' ← send alloc fuel b v
    let sent = record w { queues = assign w.queues src type (some b') }
    some (post_info sent (record { worker_id = src; cmd_type = type }) took)

  -- GetCmd, the fields of the command, and SendCmd: without a queue the command is lost.
  pub send_cmd : Allocator → ℕ → NetWorker M → ℕ → ℕ → M → Bool → Option (NetWorker M)
  send_cmd alloc fuel w src type v took = send_into alloc fuel w src type v took (w.queues src type)

  -- Close posts a datagram that names no worker.
  pub close : NetWorker M → Bool → NetWorker M
  close w took = post_info w (record { worker_id = nobody; cmd_type = nobody }) took

  abbrev pub tag : Info → List M → List (Info × M)
  tag i [] = []
  tag i (v ∷ vs) = (i, v) ∷ tag i vs

  abbrev pub process_queue :
      ℕ → NetWorker M → Info → Option (Mail M) → Option (NetWorker M × List (Info × M))
  process_queue fuel w i none = some (w, [])
  process_queue fuel w i (some b) = do
    (b', vs) ← process_cmd fuel b
    some (record w { queues = assign w.queues i.worker_id i.cmd_type (some b') }, tag i vs)

  -- ProcessCmd, with the commands that were processed
  pub process_info : ℕ → NetWorker M → Info → Option (NetWorker M × List (Info × M))
  process_info fuel w i =
      if i.worker_id == nobody
      then some (w, [])
      else process_queue fuel w i (w.queues i.worker_id i.cmd_type)

  pub process_infos : ℕ → NetWorker M → List Info → Option (NetWorker M × List (Info × M))
  process_infos fuel w [] = some (w, [])
  process_infos fuel w (i ∷ is) = do
    (u, out) ← process_info fuel w i
    (x, more) ← process_infos fuel u is
    some (x, out ++ more)

  -- What Pulse does with the datagrams, when epoll reports the socket: all of them are received, then
  -- each is processed.
  pub pulse : ℕ → NetWorker M → Option (NetWorker M × List (Info × M))
  pulse fuel w = process_infos fuel (record w { posts = [] }) w.posts
