-- ===== src/Cycle/Reuse.antt =====
-- GetCycle (sources/gsdm/include/utils/container.h).
use gsdm.Base.{
  ℕ, zero, suc, ◌<◌, ◌≤◌, ◌≡◌, refl, Bool, true, false, Option, none, some, List, [], ◌∷◌, inl, inr,
  Bool-cases, ==_iff, if◌then◌else◌, length, arith,
}
use gsdm.Base.Order.{mem, mem_tail, clash}
use gsdm.Cycle.{Node, Store, CycleList, look, put, set_next, get_cycle}
use gsdm.Cycle.Chains.{Chain, put_same, Chain-put}
use gsdm.Cycle.Links.{Ends, Links, Ready, cons_nil}

-- What GetCycle returns: a node that is ready to be inserted, or nothing.
abbrev pub Given : CycleList → List ℕ → List ℕ → Option ℕ → Type 0
Given l ds cs none = Unit {0}
Given l ds cs (some d) = Ready l ds cs d

module _ (l : CycleList) (n : ℕ) (ds cs : List ℕ) (k : Links l ds (n ∷ cs)) (c : Node) where
  first_out : mem l.cycle_head (l.head ∷ ds) ≡ false
  first_out = elim (Bool-cases (mem l.cycle_head (l.head ∷ ds))) [
    | inl both ↦
        clash (rw ((==_iff l.cycle_head l.cycle_head).1 refl) refl) (k.apart l.cycle_head both)
    | inr free ↦ free
  ]

  abbrev taken : Store
  taken = put l.store l.cycle_head (some (record c { next = none }))

  taken_queue : Chain taken (l.head ∷ ds)
  taken_queue = Chain-put l.store l.cycle_head _ (l.head ∷ ds) first_out k.queue

  taken_cycle : Chain taken (n ∷ cs)
  taken_cycle = Chain-put l.store l.cycle_head _ (n ∷ cs) (k.cycle_distinct.0) (k.cycle.1.1.1)

  -- The cycle without its first node, in any store that has the chains.
  next_Links :
      (s : Store)
      → Chain s (l.head ∷ ds)
      → Chain s (n ∷ cs)
      → Links (record l { store = s; cycle_head = n }) ds cs
  next_Links s q y = record {
    queue = q;
    cycle = y;
    distinct = k.distinct;
    cycle_distinct = k.cycle_distinct.1;
    apart = λ b h. (mem_tail l.cycle_head b (n ∷ cs) (k.apart b h)).1;
    tails = k.tails;
    cycle_tails = known l.cycle_tail k.cycle_tails;
  }
    where
      known : (t : Option ℕ) → Ends l.cycle_head t (n ∷ cs) → Ends n t cs
      known none e = absurd (cons_nil e)
      known (some t) e = e

-- A round of GetCycle as its steps.
abbrev pub Result : CycleList → List ℕ → ℕ → Option (CycleList × Option ℕ) → Type 0
Result l ds bound o =
    (l' : CycleList) × ((r : Option ℕ) × ((cs' : List ℕ) × ((o ≡ some (l', r))
          × ((length cs' ≤ bound) × (Links l' ds cs' × Given l' ds cs' r)))))

reused :
    (l : CycleList) (n : ℕ) (ds cs : List ℕ) (k : Links l ds (n ∷ cs)) (next : Option ℕ)
    (free : Bool) (rest : Option (CycleList × Option ℕ))
    → Result l ds (length cs) rest
    → Result l ds (suc (length cs)) (
        if free
        then rest
        else some (
          record l {
            store = taken l n ds cs k (record { next = next; is_free = free });
            cycle_head = n;
          },
          some l.cycle_head,
        ))
reused l n ds cs k next true rest (l', (r, (cs', (o, (short, found))))) =
    (l', (r, (cs', (o, (omega (arith, short), found)))))
reused l n ds cs k next false rest r =
    let c : Node = record { next = next; is_free = false } in
    (
      record l { store = taken l n ds cs k c; cycle_head = n },
      (
        some l.cycle_head,
        (
          cs,
          (
            refl,
            (
              omega arith,
              (
                next_Links l n ds cs k c (taken l n ds cs k c) (taken_queue l n ds cs k c)
                    (taken_cycle l n ds cs k c),
                record {
                  node = record c { next = none };
                  there = put_same l.store l.cycle_head _;
                  single = refl;
                  out = first_out l n ds cs k c;
                  cycle_out = k.cycle_distinct.0;
                },
              ),
            ),
          ),
        ),
      ),
    )

round :
    (fuel : ℕ) (l : CycleList) (n : ℕ) (ds cs : List ℕ) (k : Links l ds (n ∷ cs)) (c : Node)
    → look l.store l.cycle_head ≡ some c
    → c.next ≡ some n
    → length (n ∷ cs) < suc fuel
    → ((m : CycleList) → Links m ds cs → Result m ds (length cs) (get_cycle fuel m))
    → Result l ds (suc (length cs)) (get_cycle (suc fuel) l)
unfolding get_cycle
round fuel l n ds cs k c at next f again =
    let s = put (taken l n ds cs k c) l.cycle_head none in
    let m = record l { store = s; cycle_head = n } in
    let links =
      next_Links l n ds cs k c s
        (Chain-put (taken l n ds cs k c) l.cycle_head none (l.head ∷ ds) (first_out l n ds cs k c)
          (taken_queue l n ds cs k c))
        (Chain-put (taken l n ds cs k c) l.cycle_head none (n ∷ cs) (k.cycle_distinct.0)
          (taken_cycle l n ds cs k c)) in
    let cleared : set_next l.store l.cycle_head none ≡ some (taken l n ds cs k c) = rw at refl in
    rw (at, next, cleared) (reused l n ds cs k c.next c.is_free (get_cycle fuel m) (again m links))

-- GetCycle leaves what waits; the cycle loses the nodes that are deleted and the one that is returned.
pub get_cycle-Links :
    (fuel : ℕ) (l : CycleList) (ds cs : List ℕ)
    → Links l ds cs
    → length cs < fuel
    → Result l ds (length cs) (get_cycle fuel l)
unfolding get_cycle
get_cycle-Links zero l ds cs k f = absurd (omega (arith, f))
get_cycle-Links (suc fuel) l ds [] k f =
    let (c, (at, (next, rest))) = k.cycle in
    (l, (none, ([], (rw (at, next) refl, (omega arith, (k, tt))))))
get_cycle-Links (suc fuel) l ds (n ∷ cs) k f =
    let (c, (at, (next, rest))) = k.cycle in
    round fuel l n ds cs k c at next f (λ m j. get_cycle-Links fuel m ds cs j (omega (arith, f)))
