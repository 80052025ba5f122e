-- ===== src/Cycle/Links.antt =====
-- CycleList (sources/gsdm/include/utils/container.h) as two lists of nodes.
use gsdm.Base.{
  ℕ, ◌≡◌, refl, sym, ap, ◌∙◌, Bool, true, false, Option, none, some, List, [], ◌∷◌, ◌++◌, inl, inr,
  subst, ◌==◌, ==_iff, if◌then◌else◌, length, arith, ◌⊎◌,
}
use gsdm.Base.Order.{mem, Distinct, clash, mem-append}
use gsdm.Base.Distinct.{Distinct-last}
use gsdm.Cycle.{Node, Store, CycleList, look, put, set_next, end_of, insert}
use gsdm.Cycle.Chains.{Chain, last, Chain-put, Chain-last, Chain-append, last_in}

-- The last node is known, or nothing was linked yet.
abbrev pub Ends : ℕ → Option ℕ → List ℕ → Type 0
Ends x none xs = xs ≡ []
Ends x (some t) xs = t ≡ last x xs

-- Behind the head wait the nodes `ds`, behind the head of the cycle the nodes `cs`; no node stands twice.
pub record Links (l : CycleList) (ds cs : List ℕ) : Type 0 where
  pub queue : Chain l.store (l.head ∷ ds)
  pub cycle : Chain l.store (l.cycle_head ∷ cs)
  pub distinct : Distinct (l.head ∷ ds)
  pub cycle_distinct : Distinct (l.cycle_head ∷ cs)
  pub apart : (b : ℕ) → mem b (l.head ∷ ds) ≡ true → mem b (l.cycle_head ∷ cs) ≡ false
  pub tails : Ends l.head l.tail ds
  pub cycle_tails : Ends l.cycle_head l.cycle_tail cs

-- A node that can be inserted: it is not deleted, nothing is behind it, and it is in neither list.
pub record Ready (l : CycleList) (ds cs : List ℕ) (d : ℕ) : Type 0 where
  pub node : Node
  pub there : look l.store d ≡ some node
  pub single : node.next ≡ none
  pub out : mem d (l.head ∷ ds) ≡ false
  pub cycle_out : mem d (l.cycle_head ∷ cs) ≡ false

end_of-Ends : (x : ℕ) (t : Option ℕ) (xs : List ℕ) → Ends x t xs → end_of x t ≡ last x xs
end_of-Ends x none xs h = sym (ap (last x) h)
end_of-Ends x (some t) xs h = h

pub last_append : (x : ℕ) (xs : List ℕ) (a : ℕ) → last x (xs ++ a ∷ []) ≡ a
last_append x [] a = refl
last_append x (y ∷ ys) a = last_append y ys a

pub cons_nil : {x : ℕ} {xs : List ℕ} → x ∷ xs ≡ [] → ⊥
cons_nil e = omega (arith, ap length e)

split_true : (b r : Bool) → (if b then true else r) ≡ true → (b ≡ true) ⊎ (r ≡ true)
split_true true r h = inl refl
split_true false r h = inr h

-- A node linked behind the last one of `x ∷ xs`.
pub record Hooked (s : Store) (x : ℕ) (t : Option ℕ) (xs : List ℕ) (a : ℕ) : Type 0 where
  pub after : Store
  pub did : set_next s (end_of x t) (some a) ≡ some after
  pub chain : Chain after (x ∷ xs ++ a ∷ [])
  pub other :
      (ys : List ℕ)
      → ((b : ℕ) → mem b (x ∷ xs) ≡ true → mem b ys ≡ false)
      → Chain s ys
      → Chain after ys

pub hook :
    (s : Store) (x : ℕ) (t : Option ℕ) (xs : List ℕ) (a : ℕ) (na : Node)
    → Ends x t xs
    → Distinct (x ∷ xs)
    → mem a (x ∷ xs) ≡ false
    → look s a ≡ some na
    → na.next ≡ none
    → Chain s (x ∷ xs)
    → Hooked s x t xs a
hook s x t xs a na e d out ha hn c =
    let (n, (at, ends)) = Chain-last s x xs c in
    let place = end_of-Ends x t xs e in
    record {
      after = put s (last x xs) (some (record n { next = some a }));
      did = rw (place, at) refl;
      chain = Chain-append s x xs a na n d out ha hn at c;
      other = λ ys apart k. Chain-put s (last x xs) _ ys (apart (last x xs) (last_in x xs)) k;
    }

-- Insert puts a node that is ready at the end of what waits.
pub insert-Links :
    (l : CycleList) (ds cs : List ℕ) (d : ℕ)
    → Links l ds cs
    → Ready l ds cs d
    → (l' : CycleList) × ((insert l d ≡ some l') × Links l' (ds ++ d ∷ []) cs)
unfolding insert
insert-Links l ds cs d k r =
    let hooked =
      hook l.store l.head l.tail ds d r.node k.tails k.distinct r.out r.there r.single k.queue in
    (
      record l { store = hooked.after; tail = some d },
      (
        rw (hooked.did) refl,
        record {
          queue = hooked.chain;
          cycle = hooked.other (l.cycle_head ∷ cs) k.apart k.cycle;
          distinct = Distinct-last (l.head ∷ ds) d k.distinct r.out;
          cycle_distinct = k.cycle_distinct;
          apart = λ b h.
              elim (split_true (mem b (l.head ∷ ds)) (mem b (d ∷ []))
                (sym (mem-append b (l.head ∷ ds) (d ∷ [])) ∙ h)) [
                  | inl old ↦ k.apart b old
                  | inr new ↦
                      subst (λ c. mem c (l.cycle_head ∷ cs) ≡ false) (only d b new) r.cycle_out
                ];
          tails = sym (last_append l.head ds d);
          cycle_tails = k.cycle_tails;
        },
      ),
    )
  where
    only : (d b : ℕ) → mem b (d ∷ []) ≡ true → d ≡ b
    only d b h = elim (split_true (d == b) false h) [
      | inl same ↦ (==_iff d b).0 same
      | inr no_more ↦ clash no_more refl
    ]
