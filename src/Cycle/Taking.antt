-- ===== src/Cycle/Taking.antt =====
-- What GetData of CycleList (sources/gsdm/include/utils/container.h) takes and leaves.
use gsdm.Base.{
  ℕ, ◌≡◌, refl, sym, Bool, true, false, Option, none, some, List, [], ◌∷◌, ◌++◌, inl, inr,
  Bool-cases, subst, ◌==◌, ==_iff,
}
use gsdm.Base.Order.{mem, clash}
use gsdm.Base.Distinct.{Distinct-last, mem_join}
use gsdm.Cycle.{Node, Store, CycleList, look, put, set_next, retire, get_data}
use gsdm.Cycle.Chains.{Chain, put_same, Chain-put}
use gsdm.Cycle.Links.{Ends, Links, last_append, cons_nil, hook}

-- What GetData returns: nothing if nothing waits, and else the first node, which is the new head. The old
-- head is deleted, or joins the cycle at its end.
abbrev pub cycle_after : ℕ → Bool → List ℕ → List ℕ
cycle_after h true cs = cs
cycle_after h false cs = cs ++ h ∷ []

pub get_data-nothing : (l : CycleList) (cs : List ℕ) → Links l [] cs → get_data l ≡ some (l, none)
unfolding get_data
get_data-nothing l cs k = let (h, (at, (next, rest))) = k.queue in rw (at, next) refl

pub tail_mem : (h b : ℕ) (xs : List ℕ) → mem b xs ≡ true → mem b (h ∷ xs) ≡ true
tail_mem h b xs k = elim (Bool-cases (h == b)) [
  | inl same ↦ rw same refl
  | inr other ↦ rw (other, k) refl
]

module _ (l : CycleList) (d : ℕ) (ds cs : List ℕ) (k : Links l (d ∷ ds) cs) (h : Node) where
  -- The store once nothing is behind the head.
  abbrev cut : Store
  cut = put l.store l.head (some (record h { next = none }))

  head_out : mem l.head (l.cycle_head ∷ cs) ≡ false
  head_out = k.apart l.head (rw ((==_iff l.head l.head).1 refl) refl)

  cut_queue : Chain cut (d ∷ ds)
  cut_queue = Chain-put l.store l.head _ (d ∷ ds) (k.distinct.0) (k.queue.1.1.1)

  cut_cycle : Chain cut (l.cycle_head ∷ cs)
  cut_cycle = Chain-put l.store l.head _ (l.cycle_head ∷ cs) head_out k.cycle

  queue_tails : Ends d l.tail ds
  queue_tails = known l.tail k.tails
    where
      known : (t : Option ℕ) → Ends l.head t (d ∷ ds) → Ends d t ds
      known none e = absurd (cons_nil e)
      known (some t) e = e

  retired :
      (free : Bool)
      → (r : CycleList) × ((retire (record l { store = cut }) free ≡ some r)
          × Links (record r { head = d }) ds (cycle_after l.head free cs))
  retired true = (
    record l { store = put cut l.head none },
    (
      refl,
      record {
        queue = Chain-put cut l.head none (d ∷ ds) (k.distinct.0) cut_queue;
        cycle = Chain-put cut l.head none (l.cycle_head ∷ cs) head_out cut_cycle;
        distinct = k.distinct.1;
        cycle_distinct = k.cycle_distinct;
        apart = λ b m. k.apart b (tail_mem l.head b (d ∷ ds) m);
        tails = queue_tails;
        cycle_tails = k.cycle_tails;
      },
    ),
  )
  retired false =
      let hooked =
        hook cut l.cycle_head l.cycle_tail cs l.head (record h { next = none }) k.cycle_tails
          k.cycle_distinct head_out (put_same l.store l.head _) refl cut_cycle in
      (
        record l { store = hooked.after; cycle_tail = some l.head },
        (
          rw (hooked.did) refl,
          record {
            queue = hooked.other (d ∷ ds) (λ b m. cycle_not_queue b m) cut_queue;
            cycle = hooked.chain;
            distinct = k.distinct.1;
            cycle_distinct = Distinct-last (l.cycle_head ∷ cs) l.head k.cycle_distinct head_out;
            apart = λ b m.
                mem_join b (l.cycle_head ∷ cs) (l.head ∷ [])
                  (k.apart b (tail_mem l.head b (d ∷ ds) m)) (single l.head b (head_apart b m));
            tails = queue_tails;
            cycle_tails = sym (last_append l.cycle_head cs l.head);
          },
        ),
      )
    where
      cycle_not_queue : (b : ℕ) → mem b (l.cycle_head ∷ cs) ≡ true → mem b (d ∷ ds) ≡ false
      cycle_not_queue b m = elim (Bool-cases (mem b (d ∷ ds))) [
        | inl both ↦ clash m (k.apart b (tail_mem l.head b (d ∷ ds) both))
        | inr free ↦ free
      ]

      head_apart : (b : ℕ) → mem b (d ∷ ds) ≡ true → l.head == b ≡ false
      head_apart b m = elim (Bool-cases (l.head == b)) [
        | inl same ↦
            clash m (subst (λ c. mem c (d ∷ ds) ≡ false) ((==_iff l.head b).0 same) (k.distinct.0))
        | inr other ↦ other
      ]

      single : (a b : ℕ) → a == b ≡ false → mem b (a ∷ []) ≡ false
      single a b e = rw e refl

-- GetData as its steps.
get_data-steps :
    (l r : CycleList) (h : Node) (d : ℕ) (s : Store)
    → look l.store l.head ≡ some h
    → h.next ≡ some d
    → set_next l.store l.head none ≡ some s
    → retire (record l { store = s }) h.is_free ≡ some r
    → get_data l ≡ some (record r { head = d }, some d)
unfolding get_data
get_data-steps l r h d s at next cleared did = rw (at, next, cleared, did) refl

-- GetData returns the first node that waits, which is the new head.
pub get_data-Links :
    (l : CycleList) (d : ℕ) (ds cs : List ℕ)
    → Links l (d ∷ ds) cs
    → (l' : CycleList) × ((get_data l ≡ some (l', some d))
        × ((l'.head ≡ d) × ((b : Bool) × Links l' ds (cycle_after l.head b cs))))
get_data-Links l d ds cs k =
    let (h, (at, (next, rest))) = k.queue in
    let done = retired l d ds cs k h h.is_free in
    let cleared : set_next l.store l.head none ≡ some (cut l d ds cs k h) = rw at refl in
    (
      record (done.0) { head = d },
      (
        get_data-steps l (done.0) h d (cut l d ds cs k h) at next cleared (done.1.0),
        (refl, (h.is_free, done.1.1)),
      ),
    )
