-- ===== src/Workers/Boxes.antt =====
-- What holds of a worker's queues between two calls (sources/gsdm/src/eventdrive/networker.cpp): a queue
-- in which commands wait is one that a datagram tells of.
use gsdm.Base.{
  ℕ, suc, ◌≤◌, ◌≡◌, refl, sym, ◌∙◌, true, false, Option, none, some, List, [], ◌∷◌, ◌++◌, ◌==◌,
  ==_iff, inl, inr, Bool-cases, subst, arith,
}
use gsdm.Base.Order.{mem, clash, mem_tail}
use gsdm.Base.Distinct.{==_sym}
use gsdm.Cycle.{Mail, Allocator}
use gsdm.Cycle.Chains.{put_same, put_other}
use gsdm.Cycle.Fifo.{Waits, unused_out}
use gsdm.Workers.{Info, NetWorker, same, assign, nobody, head_node, new_queue}
use gsdm.Workers.Entries.{Entry, Entries, same_eq}
use gsdm.Workers.Answered.{told}

pub told_more :
    (s t : ℕ) (ps : List Info) (i : Info) → told s t ps ≡ true → told s t (ps ++ i ∷ []) ≡ true
told_more s t [] i h = clash h refl
told_more s t (p ∷ ps) i h = elim (Bool-cases (same p.worker_id p.cmd_type s t)) [
  | inl here ↦ rw here refl
  | inr other ↦ rw other (told_more s t ps i (sym (rw other refl) ∙ h))
]

pub told_last :
    (s t : ℕ) (ps : List Info) → told s t (ps ++ record { worker_id = s; cmd_type = t } ∷ []) ≡ true
told_last s t [] = rw ((==_iff s s).1 refl, (==_iff t t).1 refl) refl
told_last s t (p ∷ ps) = elim (Bool-cases (same p.worker_id p.cmd_type s t)) [
  | inl here ↦ rw here refl
  | inr other ↦ rw other (told_last s t ps)
]

-- The addresses of the two nodes of a new queue differ.
addresses_differ :
    (alloc : Allocator)
    → mem (alloc.address ((alloc.address [], some head_node) ∷ [])) (alloc.address [] ∷ []) ≡ false
addresses_differ alloc =
    let a = alloc.address [] in
    let s = (a, some head_node) ∷ [] in
    unused_out s (alloc.address s) (a ∷ []) (alloc.unused s)
      (head_node, (put_same [] a (some head_node), (refl, tt)))

heads_apart : (a b c : ℕ) → mem b (a ∷ []) ≡ false → mem c (a ∷ []) ≡ true → mem c (b ∷ []) ≡ false
heads_apart a b c out h = elim (Bool-cases (b == c)) [
  | inl here ↦ clash h (subst (λ d. mem d (a ∷ []) ≡ false) ((==_iff b c).0 here) out)
  | inr other ↦ rw other refl
]

module _ {M : Type 0} where
  abbrev pub Heard : List Info → ℕ → ℕ → Option (List M) → Type 0
  Heard ps s t none = Unit {0}
  Heard ps s t (some []) = Unit {0}
  Heard ps s t (some (v ∷ vs)) = told s t ps ≡ true

  pub Heard-told :
      (ps : List Info) (s t : ℕ) (x : Option (List M)) → told s t ps ≡ true → Heard ps s t x
  Heard-told ps s t none h = tt
  Heard-told ps s t (some []) h = tt
  Heard-told ps s t (some (v ∷ vs)) h = h

  pub Heard-more :
      (ps qs : List Info) (s t : ℕ) (x : Option (List M))
      → (told s t ps ≡ true → told s t qs ≡ true)
      → Heard ps s t x
      → Heard qs s t x
  Heard-more ps qs s t none more h = tt
  Heard-more ps qs s t (some []) more h = tt
  Heard-more ps qs s t (some (v ∷ vs)) more h = more h

  pub record Box (w : NetWorker M) (view : ℕ → ℕ → Option (List M)) (n : ℕ) : Type 0 where
    pub slots : Entries w view n
    pub heard : (s t : ℕ) → Heard w.posts s t (view s t)
    pub reserved : (t : ℕ) → view nobody t ≡ none

  pub Entry-more :
      (q : Option (Mail M)) (x : Option (List M)) (n m : ℕ) → n ≤ m → Entry q x n → Entry q x m
  Entry-more none none n m h k = k
  Entry-more none (some vs) n m h k = k
  Entry-more (some b) none n m h k = k
  Entry-more (some b) (some vs) n m h k = record {
    ds = k.ds;
    cs = k.cs;
    links = k.links;
    values = k.values;
    nodes = omega (arith, k.nodes, h);
  }

  -- Another entry for a queue, and more datagrams.
  pub Box-assign :
      (w : NetWorker M) (view : ℕ → ℕ → Option (List M)) (n a b : ℕ) (q : Option (Mail M))
      (x : Option (List M)) (qs : List Info)
      → Box w view n
      → (a == nobody) ≡ false
      → Entry q x (suc n)
      → ((s t : ℕ) → told s t w.posts ≡ true → told s t qs ≡ true)
      → Heard qs a b x
      → Box (record { queues = assign w.queues a b q; posts = qs }) (assign view a b x) (suc n)
  Box-assign w view n a b q x qs k apart slot more heard = record {
    slots = λ s t. elim (Bool-cases (same a b s t)) [
      | inl here ↦ rw here slot
      | inr other ↦
          rw other (Entry-more (w.queues s t) (view s t) n (suc n) (omega arith) (k.slots s t))
    ];
    heard = λ s t. elim (Bool-cases (same a b s t)) [
      | inl here ↦ let (e, f) = same_eq a b s t here in rw here (rw⁻¹ (e, f) heard)
      | inr other ↦ rw other (Heard-more w.posts qs s t (view s t) (more s t) (k.heard s t))
    ];
    reserved = λ t. rw apart (k.reserved t);
  }

  -- More datagrams, and the same queues.
  pub Box-more :
      (w : NetWorker M) (view : ℕ → ℕ → Option (List M)) (n : ℕ) (qs : List Info)
      → Box w view n
      → ((s t : ℕ) → told s t w.posts ≡ true → told s t qs ≡ true)
      → Box (record w { posts = qs }) view (suc n)
  Box-more w view n qs k more = record {
    slots = λ s t. Entry-more (w.queues s t) (view s t) n (suc n) (omega arith) (k.slots s t);
    heard = λ s t. Heard-more w.posts qs s t (view s t) (more s t) (k.heard s t);
    reserved = k.reserved;
  }

  -- A new queue is empty.
  pub new_queue-Waits : (alloc : Allocator) (blank : M) (n : ℕ) → Waits (new_queue alloc blank) [] n
  new_queue-Waits alloc blank n =
      let a = alloc.address [] in
      let b = alloc.address ((a, some head_node) ∷ []) in
      record {
        ds = [];
        cs = [];
        links = record {
          queue = (
            head_node,
            (
              put_other ((a, some head_node) ∷ []) b a (some head_node)
                    (==_sym a b ((mem_tail a b [] (addresses_differ alloc)).0))
                  ∙ put_same [] a (some head_node),
              (refl, tt),
            ),
          );
          cycle = (head_node, (put_same ((a, some head_node) ∷ []) b (some head_node), (refl, tt)));
          distinct = (refl, tt);
          cycle_distinct = (refl, tt);
          apart = λ c. heads_apart a b c (addresses_differ alloc);
          tails = refl;
          cycle_tails = refl;
        };
        values = refl;
        nodes = omega arith;
      }
