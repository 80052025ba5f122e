-- ===== src/Timeouts/Moves.antt =====
-- What AddTimeoutEvent, RemoveTimeoutEvent, ReaddTimeoutEvent and UpdateTimeout
-- (sources/gsdm/src/utils/timersmanager.cpp) do to the list that a manager shows.
use gsdm.Base.{
  ℕ, ◌≡◌, refl, sym, ap, ◌∙◌, true, false, Option, none, List, [], ◌∷◌, ◌++◌, inl, inr, Bool-cases,
  subst, ◌==◌, ==_iff, if◌then◌else◌,
}
use gsdm.Timeouts.{Manager, add_timeout_event, remove_timeout_event, readd_timeout_event, link_last}
use gsdm.Base.Order.{mem, Distinct, rest_true, clash}
use gsdm.Base.Distinct.{middle_front, middle_back, mem_join}
use gsdm.Timeouts.Linked.{Shows, counted, joined, start}
use gsdm.Timeouts.Leaving.{without, without_out, left}

-- A number that is in a list has a place there.
pub record Place (a : ℕ) (xs : List ℕ) : Type 0 where
  pub ys : List ℕ
  pub zs : List ℕ
  pub whole : xs ≡ ys ++ a ∷ zs
  pub rest : without a xs ≡ ys ++ zs

pub Place-of : (a : ℕ) (xs : List ℕ) → mem a xs ≡ true → Place a xs
Place-of a [] h = clash h refl
Place-of a (x ∷ xs) h = elim (Bool-cases (x == a)) [
  | inl same ↦ record {
    ys = [];
    zs = xs;
    whole = ap (λ z. z ∷ xs) ((==_iff x a).0 same);
    rest = rw same refl;
  }
  | inr apart ↦
      let later = Place-of a xs (rest_true (x == a) (mem a xs) apart h) in
      record {
        ys = x ∷ later.ys;
        zs = later.zs;
        whole = ap (λ l. x ∷ l) later.whole;
        rest = rw (apart, later.rest) refl;
      }
]

pub start-none : (xs : List ℕ) → start none xs ≡ none
start-none [] = refl
start-none (x ∷ xs) = refl

pub add-Shows :
    (p t : Option ℕ) (m : Manager) (a : ℕ) (xs : List ℕ)
    → Shows p t m xs
    → mem a xs ≡ false
    → Shows (start p xs) t (add_timeout_event m a) (xs ++ a ∷ [])
unfolding add_timeout_event
add-Shows p t m a xs s out =
    rw (s.adds a, out)
      (subst (λ h. Shows (start p xs) t (link_last (counted m a) a h m.tail) (xs ++ a ∷ []))
        (sym s.heads) (joined p t m a xs s out))

-- A manager outside the loop of TimeElapsedTimeout: no links are left over at the ends.
abbrev pub Listed : Manager → List ℕ → Type 0
Listed m xs = Shows none none m xs

stays :
    (m : Manager) (a : ℕ) (xs : List ℕ)
    → (m.store a).is_add ≡ true
    → Listed m xs
    → Listed (add_timeout_event m a) xs
unfolding add_timeout_event
stays m a xs h s = rw h s

-- An event that is not in the list is put at its end; one that is in it stays where it is.
pub add_timeout_event-Listed :
    (m : Manager) (a : ℕ) (xs : List ℕ)
    → Listed m xs
    → Listed (add_timeout_event m a) (if mem a xs then xs else xs ++ a ∷ [])
add_timeout_event-Listed m a xs s = elim (Bool-cases (mem a xs)) [
  | inl h ↦ rw h (stays m a xs (s.adds a ∙ h) s)
  | inr out ↦ rw out (
      subst (λ p. Shows p none (add_timeout_event m a) (xs ++ a ∷ [])) (start-none xs)
        (add-Shows none none m a xs s out))
]

-- An event that is in the list leaves it, and no other does.
pub remove_timeout_event-Listed :
    (m : Manager) (a : ℕ) (xs : List ℕ)
    → Listed m xs
    → Listed (remove_timeout_event m a) (without a xs)
unfolding remove_timeout_event
remove_timeout_event-Listed m a xs s = elim (Bool-cases (mem a xs)) [
  | inl h ↦
      let place = Place-of a xs h in
      rw (s.adds a, h, place.rest)
        (left m place.ys a place.zs (subst (λ l. Shows none none m l) place.whole s))
  | inr out ↦ rw (s.adds a, out, without_out a xs out) s
]

gone : (a : ℕ) (xs : List ℕ) → Distinct xs → mem a (without a xs) ≡ false
gone a xs d = elim (Bool-cases (mem a xs)) [
  | inl h ↦
      let place = Place-of a xs h in
      let split = subst Distinct place.whole d in
      rw (place.rest) (
        mem_join a place.ys place.zs (middle_front place.ys a place.zs split)
          (middle_back place.ys a place.zs split))
  | inr out ↦ rw (without_out a xs out) out
]

-- The event is put at the end of the list, whether it was in it or not; the others keep their order.
pub readd_timeout_event-Listed :
    (m : Manager) (a : ℕ) (xs : List ℕ)
    → Listed m xs
    → Listed (readd_timeout_event m a) (without a xs ++ a ∷ [])
unfolding readd_timeout_event
readd_timeout_event-Listed m a xs s =
    subst (λ p. Shows p none (readd_timeout_event m a) (without a xs ++ a ∷ []))
      (start-none (without a xs))
      (add-Shows none none (remove_timeout_event m a) a (without a xs)
        (remove_timeout_event-Listed m a xs s) (gone a xs s.distinct))
