-- ===== src/Timeouts/Linked.antt =====
-- The intrusive list against a list of numbers: AddTimeoutEvent
-- (sources/gsdm/src/utils/timersmanager.cpp).
use gsdm.Base.{
  ℕ, ◌≡◌, refl, sym, ap, ◌∙◌, true, false, Option, none, some, List, [], ◌∷◌, ◌++◌, arith,
  length-append, ◌==◌, if◌then◌else◌, length, u32, add32,
}
use gsdm.Timeouts.{Manager, change, with_next, with_prev, with_add, link_last}
use gsdm.Base.Order.{mem, Distinct, first_or, last_or, behind, ahead, is, last_or-append}
use gsdm.Timeouts.Fields.{set_at, keep_at}
use gsdm.Timeouts.Ends.{behind_added, ahead_added, mem_added, either}
use gsdm.Base.Distinct.{Distinct-last}

-- The manager and its events show the list `xs`: `p` is in front of the first event, and `t` is the
-- tail when there is none.
pub record Shows (p t : Option ℕ) (m : Manager) (xs : List ℕ) : Type 0 where
  pub prevs : (b : ℕ) → (m.store b).prev ≡ ahead p xs b
  pub nexts : (b : ℕ) → (m.store b).next ≡ behind none xs b
  pub adds : (b : ℕ) → (m.store b).is_add ≡ mem b xs
  pub heads : m.head ≡ first_or none xs
  pub tails : m.tail ≡ last_or t xs
  pub distinct : Distinct xs
  pub counts : m.count ≡ u32 (length xs)

-- What `link_last` does to every event.
linked_next :
    (m : Manager) (a h : ℕ) (t : Option ℕ) (b : ℕ)
    → ((link_last m a (some h) t).store b).next ≡ (if is t b then some a else (m.store b).next)
unfolding link_last
linked_next m a h t b =
    set_at (λ e. e.next) (some a) (with_next (some a)) (λ e. refl) (change m.store a (with_prev t))
      t b
    ∙ ap (λ o. if is t b then some a else o)
        (keep_at (λ e. e.next) (with_prev t) (λ e. refl) m.store (some a) b)

linked_prev :
    (m : Manager) (a h : ℕ) (t : Option ℕ) (b : ℕ)
    → ((link_last m a (some h) t).store b).prev ≡ (if a == b then t else (m.store b).prev)
unfolding link_last
linked_prev m a h t b =
    keep_at (λ e. e.prev) (with_next (some a)) (λ e. refl) (change m.store a (with_prev t)) t b
    ∙ set_at (λ e. e.prev) t (with_prev t) (λ e. refl) m.store (some a) b

linked_add :
    (m : Manager) (a h : ℕ) (t : Option ℕ) (b : ℕ)
    → ((link_last m a (some h) t).store b).is_add ≡ (m.store b).is_add
unfolding link_last
linked_add m a h t b =
    keep_at (λ e. e.is_add) (with_next (some a)) (λ e. refl) (change m.store a (with_prev t)) t b
    ∙ keep_at (λ e. e.is_add) (with_prev t) (λ e. refl) m.store (some a) b

abbrev pub start : Option ℕ → List ℕ → Option ℕ
start p [] = none
start p (x ∷ xs) = p

count_added : (xs : List ℕ) (a : ℕ) → add32 (u32 (length xs)) 1 ≡ u32 (length (xs ++ a ∷ []))
count_added xs a = rw (length-append xs (a ∷ [])) (omega arith)

-- The event `a`, counted but not yet linked.
abbrev pub counted : Manager → ℕ → Manager
counted m a = record m { store = change m.store a (with_add true); count = add32 m.count 1 }

pub joined :
    (p t : Option ℕ) (m : Manager) (a : ℕ) (xs : List ℕ)
    → Shows p t m xs
    → mem a xs ≡ false
    → Shows (start p xs) t (link_last (counted m a) a (first_or none xs) m.tail) (xs ++ a ∷ [])
unfolding link_last
joined p t m a [] s out = record {
  prevs = λ b.
      keep_at (λ e. e.prev) (with_add true) (λ e. refl) m.store (some a) b
      ∙ s.prevs b
      ∙ sym (either (a == b) none);
  nexts = λ b.
      keep_at (λ e. e.next) (with_add true) (λ e. refl) m.store (some a) b
      ∙ s.nexts b
      ∙ sym (either (a == b) none);
  adds = λ b.
      set_at (λ e. e.is_add) true (with_add true) (λ e. refl) m.store (some a) b
      ∙ rw (s.adds b) refl;
  heads = refl;
  tails = refl;
  distinct = (refl, tt);
  counts = rw (s.counts) (count_added [] a);
}
joined p t m a (x ∷ xs) s out = record {
  prevs = λ b.
      linked_prev (counted m a) a x m.tail b
      ∙ rw
          (keep_at (λ e. e.prev) (with_add true) (λ e. refl) m.store (some a) b, s.prevs b, s.tails)
          (ahead_added p x xs a b out);
  nexts = λ b.
      linked_next (counted m a) a x m.tail b
      ∙ rw
          (keep_at (λ e. e.next) (with_add true) (λ e. refl) m.store (some a) b, s.nexts b, s.tails)
          (behind_added x xs a b s.distinct);
  adds = λ b.
      linked_add (counted m a) a x m.tail b
      ∙ set_at (λ e. e.is_add) true (with_add true) (λ e. refl) m.store (some a) b
      ∙ rw (s.adds b) (mem_added (x ∷ xs) a b);
  heads = s.heads;
  tails = sym (last_or-append t (x ∷ xs) (a ∷ []));
  distinct = Distinct-last (x ∷ xs) a s.distinct out;
  counts = rw (s.counts) (count_added (x ∷ xs) a);
}
