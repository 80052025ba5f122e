-- ===== src/Cycle/Fifo.antt =====
-- Commands arrive in the order in which they were sent, with the fields that they were sent with:
-- CycleList (sources/gsdm/include/utils/container.h) as NetWorker uses it
-- (sources/gsdm/src/eventdrive/networker.cpp).
use gsdm.Base.{
  ◌+◌, ℕ, suc, ◌<◌, ◌≤◌, ◌≡◌, refl, sym, ap, ◌∙◌, Bool, true, false, Option, none, some, List, [],
  ◌∷◌, ◌++◌, map, inl, inr, Bool-cases, subst, ◌==◌, ==_iff, length, length-append, arith,
}
use gsdm.Base.Distinct.{==_sym}
use gsdm.Base.Order.{mem, mem_tail}
use gsdm.Cycle.{Node, Store, CycleList, look, put, Mail, Allocator, write, post, send, receive}
use gsdm.Cycle.Chains.{Chain, Chain-put, put_same}
use gsdm.Cycle.Links.{Links, Ready, insert-Links}
use gsdm.Cycle.Taking.{get_data-nothing, get_data-Links, cycle_after}
use gsdm.Cycle.Reuse.{Given, get_cycle-Links}

abbrev IsNone : Option Node → Type 0
IsNone none = Unit {0}
IsNone (some n) = ⊥

-- An address that is not used is in no chain.
pub unused_out : (s : Store) (a : ℕ) (xs : List ℕ) → look s a ≡ none → Chain s xs → mem a xs ≡ false
unused_out s a [] h c = refl
unused_out s a (x ∷ xs) h (n, (at, (next, rest))) = elim (Bool-cases (x == a)) [
  | inl same ↦ absurd (none_some (sym h ∙ sym (ap (look s) ((==_iff x a).0 same)) ∙ at))
  | inr apart ↦ rw apart (unused_out s a xs h rest)
]
  where
    none_some : {n : Node} → none ≡ some n → ⊥
    none_some e = subst IsNone e tt

module _ {M : Type 0} where
  write_other : (f : ℕ → M) (a : ℕ) (v : M) (x : ℕ) → x == a ≡ false → write f a v x ≡ f x
  write_other f a v x e = rw (==_sym x a e) refl

  write_out :
      (f : ℕ → M) (a : ℕ) (v : M) (xs : List ℕ) → mem a xs ≡ false → map (write f a v) xs ≡ map f xs
  write_out f a v [] h = refl
  write_out f a v (x ∷ xs) h =
      let parts = mem_tail x a xs h in
      ap (λ y. y ∷ map (write f a v) xs) (write_other f a v x (parts.0))
      ∙ ap (λ ys. f x ∷ ys) (write_out f a v xs (parts.1))

  write_last :
      (f : ℕ → M) (a : ℕ) (v : M) (xs : List ℕ)
      → mem a xs ≡ false
      → map (write f a v) (xs ++ a ∷ []) ≡ map f xs ++ v ∷ []
  write_last f a v [] h = ap (λ y. y ∷ []) here
    where
      here : write f a v a ≡ v
      here = rw ((==_iff a a).1 refl) refl
  write_last f a v (x ∷ xs) h =
      let parts = mem_tail x a xs h in
      ap (λ y. y ∷ map (write f a v) (xs ++ a ∷ [])) (write_other f a v x (parts.0))
      ∙ ap (λ ys. f x ∷ ys) (write_last f a v xs (parts.1))

  -- What waits in the mail, first the next to be received, with `n` nodes at most behind the heads.
  pub record Waits (b : Mail M) (vs : List M) (n : ℕ) : Type 0 where
    pub ds : List ℕ
    pub cs : List ℕ
    pub links : Links b.list ds cs
    pub values : map b.fields ds ≡ vs
    pub nodes : length ds + length cs ≤ n

  module _ (alloc : Allocator) where
    posted_to :
        (b : Mail M) (v : M) (l : CycleList) (ds cs : List ℕ) (n d : ℕ)
        → Links l ds cs
        → Ready l ds cs d
        → length ds + length cs ≤ n
        → (b' : Mail M) × ((post alloc b v l (some d) ≡ some b')
            × Waits b' (map b.fields ds ++ v ∷ []) (suc n))
    posted_to b v l ds cs n d k ready short =
        let (m, (did, links)) = insert-Links l ds cs d k ready in
        (
          record { list = m; fields = write b.fields d v },
          (
            rw did refl,
            record {
              ds = ds ++ d ∷ [];
              cs = cs;
              links = links;
              values = write_last b.fields d v ds ((mem_tail l.head d ds ready.out).1);
              nodes = omega (arith, short, length-append ds (d ∷ []));
            },
          ),
        )

    posted :
        (b : Mail M) (v : M) (l : CycleList) (ds cs : List ℕ) (n : ℕ) (r : Option ℕ)
        → Links l ds cs
        → Given l ds cs r
        → length ds + length cs ≤ n
        → (b' : Mail M) × ((post alloc b v l r ≡ some b')
            × Waits b' (map b.fields ds ++ v ∷ []) (suc n))
    posted b v l ds cs n (some d) k ready short = posted_to b v l ds cs n d k ready short
    posted b v l ds cs n none k ready short =
        let a = alloc.address l.store in
        let new : Node = record { next = none; is_free = false } in
        let out = unused_out l.store a (l.head ∷ ds) (alloc.unused l.store) k.queue in
        let cycle_out = unused_out l.store a (l.cycle_head ∷ cs) (alloc.unused l.store) k.cycle in
        posted_to b v (record l { store = put l.store a (some new) }) ds cs n a
          (record {
            queue = Chain-put l.store a (some new) (l.head ∷ ds) out k.queue;
            cycle = Chain-put l.store a (some new) (l.cycle_head ∷ cs) cycle_out k.cycle;
            distinct = k.distinct;
            cycle_distinct = k.cycle_distinct;
            apart = k.apart;
            tails = k.tails;
            cycle_tails = k.cycle_tails;
          })
          (record {
            node = new;
            there = put_same l.store a (some new);
            single = refl;
            out = out;
            cycle_out = cycle_out;
          })
          short

    -- What is sent waits behind all that waited.
    pub send-Waits :
        (fuel : ℕ) (b : Mail M) (v : M) (vs : List M) (n : ℕ)
        → Waits b vs n
        → n < fuel
        → (b' : Mail M) × ((send alloc fuel b v ≡ some b') × Waits b' (vs ++ v ∷ []) (suc n))
    unfolding send
    send-Waits fuel b v vs n w h =
        let (l, (r, (cs, (cycled, (short, (links, ready)))))) =
          get_cycle-Links fuel b.list w.ds w.cs w.links (omega (arith, w.nodes, h)) in
        let (b', (did, waits)) =
          posted b v l w.ds cs n r links ready (omega (arith, short, w.nodes)) in
        (b', (rw (cycled, did) refl, subst (λ us. Waits b' (us ++ v ∷ []) (suc n)) w.values waits))

  -- What a call of GetData takes from what waits: the first, or nothing where nothing waits.
  abbrev pub Taken : Option M → List M → List M → Type 0
  Taken none vs rest = (vs ≡ []) × (rest ≡ [])
  Taken (some v) vs rest = vs ≡ v ∷ rest

  received :
      (b : Mail M) (ds cs : List ℕ) (n : ℕ)
      → Links b.list ds cs
      → length ds + length cs ≤ n
      → (b' : Mail M) × ((r : Option M) × ((rest : List M) × ((receive b ≡ some (b', r))
              × (Waits b' rest n × Taken r (map b.fields ds) rest))))
  unfolding receive
  received b [] cs n k short = (
    b,
    (
      none,
      (
        [],
        (
          rw (get_data-nothing b.list cs k) refl,
          (
            record { ds = []; cs = cs; links = k; values = refl; nodes = omega (arith, short) },
            (refl, refl),
          ),
        ),
      ),
    ),
  )
  received b (d ∷ ds) cs n k short =
      let (l, (got, (head, (free, links)))) = get_data-Links b.list d ds cs k in
      (
        record b { list = l },
        (
          some (b.fields d),
          (
            map b.fields ds,
            (
              rw got refl,
              (
                record {
                  ds = ds;
                  cs = cycle_after b.list.head free cs;
                  links = links;
                  values = refl;
                  nodes = length-after b.list.head free cs n short;
                },
                refl,
              ),
            ),
          ),
        ),
      )
    where
      length-after :
          (h : ℕ) (free : Bool) (cs : List ℕ) (n : ℕ)
          → suc (length ds) + length cs ≤ n
          → length ds + length (cycle_after h free cs) ≤ n
      length-after h true cs n q = omega (arith, q)
      length-after h false cs n q = omega (arith, q, length-append cs (h ∷ []))

  pub receive-Waits :
      (b : Mail M) (vs : List M) (n : ℕ)
      → Waits b vs n
      → (b' : Mail M) × ((r : Option M) × ((rest : List M) × ((receive b ≡ some (b', r))
              × (Waits b' rest n × Taken r vs rest))))
  receive-Waits b vs n w =
      subst
        (λ us.
          (b' : Mail M) × ((r : Option M) × ((rest : List M) × ((receive b ≡ some (b', r))
                × (Waits b' rest n × Taken r us rest)))))
        w.values (received b w.ds w.cs n w.links w.nodes)
