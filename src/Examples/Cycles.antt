-- ===== src/Examples/Cycles.antt =====
-- The theorem on a queue of commands at one with two nodes, as SetupQueue makes it
-- (sources/gsdm/src/eventdrive/networker.cpp), and an allocator that goes up.
use gsdm.Base.{
  ℕ, ◌+◌, ◌≤◌, ◌≡◌, refl, suc, true, false, none, some, List, [], ◌∷◌, ◌==◌, ==_iff, arith, inl,
  inr, Bool-cases, subst,
}
use gsdm.Base.Order.{mem, clash}
use gsdm.Cycle.{Node, Store, Mail, Allocator, look}
use gsdm.Cycle.Links.{Links}
use gsdm.Cycle.Fifo.{Waits}
use gsdm.Cycle.Delivery.{Op, sending, receiving, Delivered, exec, exec-Delivered}

-- An address above all that were used.
abbrev top : Store → ℕ
top [] = 0
top ((a, n) ∷ s) = suc (a + top s)

pub top-unused : (s : Store) (b : ℕ) → top s ≤ b → look s b ≡ none
top-unused [] b h = refl
top-unused ((a, n) ∷ s) b h = elim (Bool-cases (a == b)) [
  | inl same ↦ absurd (omega (arith, (==_iff a b).0 same, h))
  | inr other ↦ rw other (top-unused s b (omega (arith, h)))
]

abbrev pub upward : Allocator
upward = record { address = top; unused = λ s. top-unused s (top s) (omega arith) }

abbrev fresh : Node
fresh = record { next = none; is_free = true }

abbrev two_nodes : Mail ℕ
two_nodes = record {
  list = record {
    store = (0, some fresh) ∷ (1, some fresh) ∷ [];
    head = 0;
    tail = none;
    cycle_head = 1;
    cycle_tail = none;
  };
  fields = λ d. 0;
}

apart : (b : ℕ) → mem b (0 ∷ []) ≡ true → mem b (1 ∷ []) ≡ false
apart b h = elim (Bool-cases (0 == b)) [
  | inl same ↦ subst (λ c. mem c (1 ∷ []) ≡ false) ((==_iff 0 b).0 same) refl
  | inr other ↦ clash h (rw other refl)
]

two_nodes-Links : Links two_nodes.list [] []
two_nodes-Links = record {
  queue = (fresh, (refl, (refl, tt)));
  cycle = (fresh, (refl, (refl, tt)));
  distinct = (refl, tt);
  cycle_distinct = (refl, tt);
  apart = apart;
  tails = refl;
  cycle_tails = refl;
}

two_nodes-Waits : Waits two_nodes [] 0
two_nodes-Waits = record {
  ds = [];
  cs = [];
  links = two_nodes-Links;
  values = refl;
  nodes = omega arith;
}

-- The third command takes the node of the first.
abbrev orders : List (Op ℕ)
orders = sending 5 ∷ sending 6 ∷ receiving ∷ receiving ∷ sending 7 ∷ receiving ∷ sending 8 ∷ []

exec-Delivered_example : Delivered (5 ∷ 6 ∷ 7 ∷ 8 ∷ []) (exec upward 8 orders two_nodes)
exec-Delivered_example = exec-Delivered upward 8 orders two_nodes [] 0 two_nodes-Waits (omega arith)
