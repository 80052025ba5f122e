-- ===== src/Timeouts/Expiry.antt =====
-- TimeoutManager::TimeElapsedTimeout and UpdateTimeout (sources/gsdm/src/utils/timersmanager.cpp) as
-- operations on the list that the manager shows.
use gsdm.Base.{
  ℕ, ◌+◌, ◌^◌, ◌<◌, ◌≡◌, refl, sym, ap, ◌∙◌, Bool, true, not, none, some, List, [], ◌∷◌, ◌++◌, inl,
  inr, Bool-cases, subst, if◌then◌else◌, length, append_assoc, append-nil, add64, leb,
}
use gsdm.Timeouts.{Manager, time_elapsed_timeout, update_timeout, with_heart, change}
use gsdm.Base.Order.{mem, clash}
use gsdm.Timeouts.Fields.{keep_at}
use gsdm.Timeouts.Linked.{Shows}
use gsdm.Timeouts.Leaving.{without}
use gsdm.Timeouts.Moves.{Listed, readd_timeout_event-Listed}
use gsdm.Timeouts.Rounds.{kept}
use gsdm.Timeouts.Loop.{expire, elapse-Going}

-- The list from the first number that does not pass the test on.
abbrev pub drop_while : (ℕ → Bool) → List ℕ → List ℕ
drop_while f [] = []
drop_while f (x ∷ xs) = let rest = drop_while f xs in if f x then rest else x ∷ xs

-- The numbers before it, less those that are freed.
abbrev pub survivors : (ℕ → Bool) → (ℕ → Bool) → List ℕ → List ℕ
survivors f freed [] = []
survivors f freed (x ∷ xs) =
    let rest = survivors f freed xs in if f x then (if freed x then rest else x ∷ rest) else []

kept-append :
    (freed : ℕ → Bool) (x : ℕ) (back rest : List ℕ)
    → kept freed x back ++ rest ≡ back ++ (if freed x then rest else x ∷ rest)
kept-append freed x back rest = elim (Bool-cases (freed x)) [
  | inl goes ↦ rw goes refl
  | inr stays ↦ rw stays (append_assoc back (x ∷ []) rest)
]

expire_lem :
    (f freed : ℕ → Bool) (xs back : List ℕ)
    → expire f freed xs back ≡ drop_while f xs ++ (back ++ survivors f freed xs)
expire_lem f freed [] back = sym (append-nil back)
expire_lem f freed (x ∷ xs) back = elim (Bool-cases (f x)) [
  | inl over ↦ rw over (
      expire_lem f freed xs (kept freed x back)
      ∙ ap (λ l. drop_while f xs ++ l) (kept-append freed x back (survivors f freed xs)))
  | inr alive ↦ rw alive (ap (λ l. x ∷ xs ++ l) (sym (append-nil back)))
]

-- The events of the list that are overdue.
abbrev pub overdue : Manager → ℕ → ℕ → Bool
overdue m now a = not (leb now (add64 m.timeout (m.store a).heart))

-- The loop ends after at most one round for each event and one more. The overdue events in front of the
-- list leave it; those of them that DoTimeout does not free are put at its end in their order.
pub time_elapsed_timeout-Listed :
    (do_timeout : ℕ → Bool) (now : ℕ) (m : Manager) (xs : List ℕ) (fuel : ℕ)
    → Listed m xs
    → ((b : ℕ) → mem b xs ≡ true → (m.store b).managed ≡ true)
    → now + m.timeout < 2 ^ 64
    → length xs < fuel
    → (k : Manager) × ((time_elapsed_timeout do_timeout now fuel m ≡ some k)
        × Listed k (drop_while (overdue m now) xs ++ survivors (overdue m now) do_timeout xs))
time_elapsed_timeout-Listed do_timeout now m xs fuel s managed fits enough =
    let done =
      elapse-Going (λ b. (m.store b).heart) do_timeout now m.timeout fits fuel m xs []
        (record {
          front = none;
          rear = none;
          shows = subst (Shows none none m) (sym (append-nil xs)) s;
          hearts = λ b h. refl;
          fresh = λ b h. clash h refl;
          managed = managed;
          same_period = refl;
        })
        enough in
    (
      done.0,
      (done.1.0, subst (Listed (done.0)) (expire_lem (overdue m now) do_timeout xs []) (done.1.1)),
    )

-- A sign of life of an event moves it to the end of its manager's list; without a manager nothing happens.
pub update_timeout-Listed :
    (m : Manager) (now a : ℕ) (xs : List ℕ)
    → Listed m xs
    → Listed (update_timeout m now a) (if (m.store a).managed then without a xs ++ a ∷ [] else xs)
unfolding update_timeout
update_timeout-Listed m now a xs s = elim (Bool-cases (m.store a).managed) [
  | inl managed ↦ rw managed (
      readd_timeout_event-Listed (record m { store = change m.store a (with_heart now) }) a xs
        (record {
          prevs = λ b.
              keep_at (λ e. e.prev) (with_heart now) (λ e. refl) m.store (some a) b ∙ s.prevs b;
          nexts = λ b.
              keep_at (λ e. e.next) (with_heart now) (λ e. refl) m.store (some a) b ∙ s.nexts b;
          adds = λ b.
              keep_at (λ e. e.is_add) (with_heart now) (λ e. refl) m.store (some a) b ∙ s.adds b;
          heads = s.heads;
          tails = s.tails;
          distinct = s.distinct;
          counts = s.counts;
        }))
  | inr alone ↦ rw alone s
]
