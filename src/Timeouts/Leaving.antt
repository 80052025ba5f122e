-- ===== src/Timeouts/Leaving.antt =====
-- The intrusive list against a list of numbers: RemoveTimeoutEvent
-- (sources/gsdm/src/utils/timersmanager.cpp).
use gsdm.Base.{
  ℕ, ◌≡◌, refl, sym, ap, ◌∙◌, false, Option, none, some, List, [], ◌∷◌, ◌++◌, arith, length-append,
  ◌==◌, ==_iff, if◌then◌else◌, length, u32, sub32,
}
use gsdm.Timeouts.{Manager, change, with_add, unlink}
use gsdm.Base.Order.{
  mem, first_or, last_or, behind, ahead, last_or-append, behind-append, ahead-append, mem_tail,
}
use gsdm.Timeouts.Fields.{set_at, keep_at}
use gsdm.Timeouts.Ends.{behind_removed, ahead_removed, mem_removed}
use gsdm.Base.Distinct.{Distinct-without, middle_front}
use gsdm.Timeouts.Unlinked.{unlinked_next, unlinked_prev, unlinked_add}
use gsdm.Timeouts.Linked.{Shows}

-- The list without a number.
abbrev pub without : ℕ → List ℕ → List ℕ
without a [] = []
without a (x ∷ xs) = let rest = without a xs in if x == a then xs else x ∷ rest

pub without_out : (a : ℕ) (xs : List ℕ) → mem a xs ≡ false → without a xs ≡ xs
without_out a [] h = refl
without_out a (x ∷ xs) h =
    let parts = mem_tail x a xs h in rw (parts.0) (ap (λ l. x ∷ l) (without_out a xs (parts.1)))

-- The event `a`, no longer counted but still linked.
abbrev pub discounted : Manager → ℕ → Manager
discounted m a = record m { store = change m.store a (with_add false); count = sub32 m.count 1 }

-- The neighbours of the number in the middle.
behind_middle :
    (ys : List ℕ) (a : ℕ) (zs : List ℕ)
    → mem a ys ≡ false
    → behind none (ys ++ a ∷ zs) a ≡ first_or none zs
behind_middle ys a zs out = behind-append none ys (a ∷ zs) a ∙ rw (out, (==_iff a a).1 refl) refl

ahead_middle :
    (ys : List ℕ) (a : ℕ) (zs : List ℕ)
    → mem a ys ≡ false
    → ahead none (ys ++ a ∷ zs) a ≡ last_or none ys
ahead_middle ys a zs out = ahead-append none ys (a ∷ zs) a ∙ rw (out, (==_iff a a).1 refl) refl

-- The ends of the list after the four cases.
abbrev pick : Option ℕ → Option ℕ → Option ℕ → Option ℕ
pick none n o = n
pick (some p) n o = o

unlinked_head : (m : Manager) (a : ℕ) (p n : Option ℕ) → (unlink m a p n).head ≡ pick p n m.head
unfolding unlink
unlinked_head m a none none = refl
unlinked_head m a none (some n) = refl
unlinked_head m a (some p) none = refl
unlinked_head m a (some p) (some n) = refl

unlinked_tail : (m : Manager) (a : ℕ) (p n : Option ℕ) → (unlink m a p n).tail ≡ pick n p m.tail
unfolding unlink
unlinked_tail m a none none = refl
unlinked_tail m a none (some n) = refl
unlinked_tail m a (some p) none = refl
unlinked_tail m a (some p) (some n) = refl

unlinked_count : (m : Manager) (a : ℕ) (p n : Option ℕ) → (unlink m a p n).count ≡ m.count
unfolding unlink
unlinked_count m a none none = refl
unlinked_count m a none (some n) = refl
unlinked_count m a (some p) none = refl
unlinked_count m a (some p) (some n) = refl

pick_last : (y : ℕ) (ys : List ℕ) (n o : Option ℕ) → pick (last_or (some y) ys) n o ≡ o
pick_last y [] n o = refl
pick_last y (x ∷ xs) n o = pick_last x xs n o

head_left :
    (ys : List ℕ) (a : ℕ) (zs : List ℕ)
    → pick (last_or none ys) (first_or none zs) (first_or none (ys ++ a ∷ zs))
      ≡ first_or none (ys ++ zs)
head_left [] a zs = refl
head_left (y ∷ ys) a zs = pick_last y ys (first_or none zs) (some y)

tail_left :
    (ys : List ℕ) (a : ℕ) (zs : List ℕ)
    → pick (first_or none zs) (last_or none ys) (last_or none (ys ++ a ∷ zs))
      ≡ last_or none (ys ++ zs)
tail_left ys a [] = sym (last_or-append none ys [])
tail_left ys a (z ∷ zs) =
    last_or-append none ys (a ∷ z ∷ zs) ∙ sym (last_or-append none ys (z ∷ zs))

count_left :
    (ys : List ℕ) (a : ℕ) (zs : List ℕ)
    → sub32 (u32 (length (ys ++ a ∷ zs))) 1 ≡ u32 (length (ys ++ zs))
count_left ys a zs = rw (length-append ys (a ∷ zs), length-append ys zs) (omega arith)

-- The event in the middle of the list leaves it.
pub left :
    (m : Manager) (ys : List ℕ) (a : ℕ) (zs : List ℕ)
    → Shows none none m (ys ++ a ∷ zs)
    → Shows none none (unlink (discounted m a) a (m.store a).prev (m.store a).next) (ys ++ zs)
left m ys a zs s =
    let out = middle_front ys a zs s.distinct in
    let at_prev = s.prevs a ∙ ahead_middle ys a zs out in
    let at_next = s.nexts a ∙ behind_middle ys a zs out in
    let k = discounted m a in
    let keep_prev : (b : ℕ) → (k.store b).prev ≡ (m.store b).prev =
      keep_at (λ e. e.prev) (with_add false) (λ e. refl) m.store (some a) in
    let keep_next : (b : ℕ) → (k.store b).next ≡ (m.store b).next =
      keep_at (λ e. e.next) (with_add false) (λ e. refl) m.store (some a) in
    rw (at_prev, at_next)
      (record {
        prevs = λ b.
            unlinked_prev k a (last_or none ys) (first_or none zs) b (keep_prev a ∙ at_prev)
            ∙ rw (keep_prev b, s.prevs b) (ahead_removed ys a zs s.distinct b);
        nexts = λ b.
            unlinked_next k a (last_or none ys) (first_or none zs) b (keep_next a ∙ at_next)
            ∙ rw (keep_next b, s.nexts b) (behind_removed ys a zs s.distinct b);
        adds = λ b.
            unlinked_add k a (last_or none ys) (first_or none zs) b
            ∙ set_at (λ e. e.is_add) false (with_add false) (λ e. refl) m.store (some a) b
            ∙ rw (s.adds b) (mem_removed ys a zs s.distinct b);
        heads =
            unlinked_head k a (last_or none ys) (first_or none zs)
            ∙ rw (s.heads) (head_left ys a zs);
        tails =
            unlinked_tail k a (last_or none ys) (first_or none zs)
            ∙ rw (s.tails) (tail_left ys a zs);
        distinct = Distinct-without ys a zs s.distinct;
        counts =
            unlinked_count k a (last_or none ys) (first_or none zs)
            ∙ rw (s.counts) (count_left ys a zs);
      })
