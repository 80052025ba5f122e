-- ===== src/Timeouts/Elapse.antt =====
-- The first event and the ends in TimeoutManager::TimeElapsedTimeout (sources/gsdm/src/utils/timersmanager.cpp).
use gsdm.Base.{
  ℕ, ◌≡◌, refl, sym, ◌∙◌, Bool, true, false, Option, none, some, List, [], ◌∷◌, arith, subst, ◌==◌,
  ==_iff, if◌then◌else◌,
}
use gsdm.Timeouts.{Manager, with_prev, out_of, take_first, repair}
use gsdm.Base.Order.{mem, first_or, behind, ahead, behind_out, ahead_out}
use gsdm.Timeouts.Fields.{set_at, keep_at}
use gsdm.Timeouts.Linked.{Shows}
use gsdm.Timeouts.Moves.{Listed}

-- A test that is asked twice.
fallen {ℓ} :
    {A : Type ℓ} (c : Bool) (u v r : A)
    → ((c ≡ true) → r ≡ u)
    → (if c then u else if c then v else r) ≡ r
fallen true u v r h = sym (h refl)
fallen false u v r h = refl

asked {ℓ} :
    {A : Type ℓ} (c : Bool) (u v r : A)
    → (if c then u else if c then v else r) ≡ (if c then u else r)
asked true u v r = refl
asked false u v r = refl

-- The first event is out of the list; the next one still points back to it.
pub take_first-Shows :
    (p t : Option ℕ) (m : Manager) (a : ℕ) (xs : List ℕ)
    → Shows p t m (a ∷ xs)
    → Shows (some a) (some a) (take_first m a) xs
take_first-Shows p t m a xs s = record {
  prevs = λ b.
      set_at (λ e. e.prev) none out_of (λ e. refl) m.store (some a) b
      ∙ rw (s.prevs b) (
          fallen (a == b) none p (ahead (some a) xs b) (λ h.
            ahead_out (some a) xs b
              (subst (λ c. mem c xs ≡ false) ((==_iff a b).0 h) (s.distinct.0))));
  nexts = λ b.
      set_at (λ e. e.next) none out_of (λ e. refl) m.store (some a) b
      ∙ rw (s.nexts b) (
          fallen (a == b) none (first_or none xs) (behind none xs b) (λ h.
            behind_out none xs b
              (subst (λ c. mem c xs ≡ false) ((==_iff a b).0 h) (s.distinct.0))));
  adds = λ b.
      set_at (λ e. e.is_add) false out_of (λ e. refl) m.store (some a) b
      ∙ rw (s.adds b) (
          fallen (a == b) false true (mem b xs)
            (λ h. subst (λ c. mem c xs ≡ false) ((==_iff a b).0 h) (s.distinct.0)));
  heads = s.nexts a ∙ rw ((==_iff a a).1 refl) refl;
  tails = s.tails;
  distinct = s.distinct.1;
  counts = rw (s.counts) (omega arith);
}

-- The ends repaired.
pub repair-Listed :
    (p t : Option ℕ) (m : Manager) (xs : List ℕ)
    → Shows p t m xs
    → Listed (repair m (first_or none xs)) xs
unfolding repair
repair-Listed p t m [] s = record {
  prevs = s.prevs;
  nexts = s.nexts;
  adds = s.adds;
  heads = s.heads;
  tails = refl;
  distinct = tt;
  counts = s.counts;
}
repair-Listed p t m (x ∷ xs) s = record {
  prevs = λ b.
      set_at (λ e. e.prev) none (with_prev none) (λ e. refl) m.store (some x) b
      ∙ rw (s.prevs b) (asked (x == b) none p (ahead (some x) xs b));
  nexts = λ b. keep_at (λ e. e.next) (with_prev none) (λ e. refl) m.store (some x) b ∙ s.nexts b;
  adds = λ b. keep_at (λ e. e.is_add) (with_prev none) (λ e. refl) m.store (some x) b ∙ s.adds b;
  heads = s.heads;
  tails = s.tails;
  distinct = s.distinct;
  counts = s.counts;
}
