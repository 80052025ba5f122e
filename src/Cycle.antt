-- ===== src/Cycle.antt =====
-- The queue of commands between two workers: CycleList (sources/gsdm/include/utils/container.h) of
-- BaseCmd (sources/gsdm/src/eventdrive/basecmd.cpp).
-- One worker calls Insert and GetCycle, the other GetData; each call is a step. A node is a number, the
-- store holds the nodes that are not deleted, and a use of any other is `none`.
pub mod Chains
pub mod Links
pub mod Taking
pub mod Reuse
pub mod Fifo
pub mod Delivery
use gsdm.Base.{
  ℕ, ◌≡◌, zero, suc, Bool, true, false, not, Option, none, some, List, [], ◌∷◌, ◌==◌, if◌then◌else◌,
  ◌>>=◌,
}

-- BaseCmd
pub record Node : Type 0 where
  pub next : Option ℕ
  pub is_free : Bool

-- The nodes, the last change of each first.
abbrev pub Store : Type 0
Store = List (ℕ × Option Node)

abbrev pub look : Store → ℕ → Option Node
look [] b = none
look ((a, n) ∷ s) b = let rest = look s b in if a == b then n else rest

pub record CycleList : Type 0 where
  pub store : Store
  pub head : ℕ
  pub tail : Option ℕ
  pub cycle_head : ℕ
  pub cycle_tail : Option ℕ

abbrev pub put : Store → ℕ → Option Node → Store
put s a n = (a, n) ∷ s

-- `p->next = v`
abbrev pub set_next : Store → ℕ → Option ℕ → Option Store
set_next s a v = do n ← look s a; some (put s a (some (record n { next = v })))

-- The last node of a list, or the first one as long as nothing was linked behind it.
abbrev pub end_of : ℕ → Option ℕ → ℕ
end_of first none = first
end_of first (some last) = last

-- Insert
pub insert : CycleList → ℕ → Option CycleList
insert l d = do
  s ← set_next l.store (end_of l.head l.tail) (some d)
  some (record l { store = s; tail = some d })

-- What GetData does with the node that was the head: it is deleted, or put at the end of the cycle.
abbrev pub retire : CycleList → Bool → Option CycleList
retire l true = some (record l { store = put l.store l.head none })
retire l false = do
  s ← set_next l.store (end_of l.cycle_head l.cycle_tail) (some l.head)
  some (record l { store = s; cycle_tail = some l.head })

-- GetData, with the node behind the head
abbrev pub get_next : CycleList → Node → Option ℕ → Option (CycleList × Option ℕ)
get_next l h none = some (l, none)
get_next l h (some d) = do
  s ← set_next l.store l.head none
  r ← retire (record l { store = s }) h.is_free
  some (record r { head = d }, some d)

pub get_data : CycleList → Option (CycleList × Option ℕ)
get_data l = do h ← look l.store l.head; get_next l h h.next

-- One round of GetCycle, with the node behind the first one: `again` goes on behind a node that is deleted.
abbrev pub reuse :
    CycleList
    → Node
    → (CycleList → Option (CycleList × Option ℕ))
    → Option ℕ
    → Option (CycleList × Option ℕ)
reuse l c again none = some (l, none)
reuse l c again (some n) = do
  s ← set_next l.store l.cycle_head none
  let m = record l { store = s; cycle_head = n }
  let rest = again (record m { store = put s l.cycle_head none })
  if c.is_free then rest else some (m, some l.cycle_head)

-- GetCycle, a unit of fuel for each round
pub get_cycle : ℕ → CycleList → Option (CycleList × Option ℕ)
get_cycle zero l = none
get_cycle (suc fuel) l = do c ← look l.store l.cycle_head; reuse l c (get_cycle fuel) c.next

-- A queue with what the fields of each command hold.
pub record Mail (M : Type 0) : Type 0 where
  pub list : CycleList
  pub fields : ℕ → M

-- `new` takes an address from the allocator.
pub record Allocator : Type 0 where
  pub address : Store → ℕ
  pub unused : (s : Store) → look s (address s) ≡ none

module _ {M : Type 0} where
  abbrev pub write : (ℕ → M) → ℕ → M → ℕ → M
  write f a v b = if a == b then v else f b

  -- The command that GetCmd returned, or a new one.
  abbrev pub post : Allocator → Mail M → M → CycleList → Option ℕ → Option (Mail M)
  post alloc b v l (some d) = do
    m ← insert l d
    some (record { list = m; fields = write b.fields d v })
  post alloc b v l none = do
    let a = alloc.address l.store
    m ←
        insert (record l { store = put l.store a (some (record { next = none; is_free = false })) })
          a
    some (record { list = m; fields = write b.fields a v })

  -- GetCmd, the fields, and SendCmd, as TCPAcceptor::Accept and BaseWorkerEx::TCPTransfer call them.
  pub send : Allocator → ℕ → Mail M → M → Option (Mail M)
  send alloc fuel b v = do (l, r) ← get_cycle fuel b.list; post alloc b v l r

  abbrev pub opened : Mail M → CycleList → Option ℕ → Mail M × Option M
  opened b l none = (record b { list = l }, none)
  opened b l (some d) = (record b { list = l }, some (b.fields d))

  -- GetData, and the fields of the command
  pub receive : Mail M → Option (Mail M × Option M)
  receive b = do (l, r) ← get_data b.list; some (opened b l r)

  abbrev pub process_next : Option (Mail M × List M) → Mail M → Option M → Option (Mail M × List M)
  process_next rest m none = some (m, [])
  process_next rest m (some v) = do (n, vs) ← rest; some (n, v ∷ vs)

  -- ProcessCmd: the commands that wait, one round for each and one more.
  pub process_cmd : ℕ → Mail M → Option (Mail M × List M)
  process_cmd zero b = none
  process_cmd (suc fuel) b = do (m, r) ← receive b; process_next (process_cmd fuel m) m r
