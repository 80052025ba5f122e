-- ===== src/Timeouts/Renewed.antt =====
-- What UpdateTimeout (sources/gsdm/src/utils/timersmanager.cpp) does to an event that is out of the list.
use gsdm.Base.{
  ℕ, ◌≡◌, refl, ap, ◌∙◌, Bool, true, false, Option, none, some, List, [], ◌∷◌, ◌++◌, ◌==◌,
  if◌then◌else◌,
}
use gsdm.Timeouts.{
  Event, Manager, change, with_prev, with_next, with_add, with_heart, link_last, update_timeout,
  add_timeout_event, remove_timeout_event, readd_timeout_event,
}
use gsdm.Base.Order.{mem}
use gsdm.Timeouts.Fields.{set_at, keep_at}
use gsdm.Timeouts.Linked.{Shows, start, counted}
use gsdm.Timeouts.Moves.{add-Shows}

abbrev heart_of : Event → ℕ
heart_of e = e.heart

joined_heart :
    (m : Manager) (a : ℕ) (h t : Option ℕ) (b : ℕ)
    → ((link_last (counted m a) a h t).store b).heart ≡ (m.store b).heart
unfolding link_last
joined_heart m a none t b = keep_at heart_of (with_add true) (λ e. refl) m.store (some a) b
joined_heart m a (some h) t b =
    let s1 = change m.store a (with_add true) in
    let s2 = change s1 a (with_prev t) in
    keep_at heart_of (with_next (some a)) (λ e. refl) s2 t b
    ∙ keep_at heart_of (with_prev t) (λ e. refl) s1 (some a) b
    ∙ keep_at heart_of (with_add true) (λ e. refl) m.store (some a) b

abbrev managed_of : Event → Bool
managed_of e = e.managed

set_or : (c v : Bool) → v ≡ true → (if c then true else v) ≡ true
set_or true v h = refl
set_or false v h = h

joined_managed :
    (m : Manager) (a : ℕ) (h t : Option ℕ) (b : ℕ)
    → (m.store b).managed ≡ true
    → ((link_last (counted m a) a h t).store b).managed ≡ true
unfolding link_last
joined_managed m a none t b k =
    set_at managed_of true (with_add true) (λ e. refl) m.store (some a) b
    ∙ set_or (a == b) (m.store b).managed k
joined_managed m a (some h) t b k =
    let s1 = change m.store a (with_add true) in
    let s2 = change s1 a (with_prev t) in
    keep_at managed_of (with_next (some a)) (λ e. refl) s2 t b
    ∙ keep_at managed_of (with_prev t) (λ e. refl) s1 (some a) b
    ∙ set_at managed_of true (with_add true) (λ e. refl) m.store (some a) b
    ∙ set_or (a == b) (m.store b).managed k

joined_timeout : (m : Manager) (a : ℕ) (h t : Option ℕ) → (link_last m a h t).timeout ≡ m.timeout
unfolding link_last
joined_timeout m a none t = refl
joined_timeout m a (some h) t = refl

-- The event with a new sign of life.
abbrev pub refreshed : Manager → ℕ → ℕ → Manager
refreshed m now a = record m { store = change m.store a (with_heart now) }

absent_stays : (m : Manager) (a : ℕ) → (m.store a).is_add ≡ false → remove_timeout_event m a ≡ m
unfolding remove_timeout_event
absent_stays m a h = rw h refl

absent_joins :
    (m : Manager) (a : ℕ)
    → (m.store a).is_add ≡ false
    → add_timeout_event m a ≡ link_last (counted m a) a m.head m.tail
unfolding add_timeout_event
absent_joins m a h = rw h refl

module _ (m : Manager) (now a : ℕ) (managed : (m.store a).managed ≡ true)
    (absent : (m.store a).is_add ≡ false) where
  refreshed_absent : ((refreshed m now a).store a).is_add ≡ false
  refreshed_absent =
      keep_at (λ e. e.is_add) (with_heart now) (λ e. refl) m.store (some a) a ∙ absent

  update_adds : update_timeout m now a ≡ add_timeout_event (refreshed m now a) a
  unfolding update_timeout readd_timeout_event
  update_adds =
      rw managed
        (ap (λ k. add_timeout_event k a) (absent_stays (refreshed m now a) a refreshed_absent))

  update_joins : update_timeout m now a ≡ link_last (counted (refreshed m now a) a) a m.head m.tail
  update_joins = update_adds ∙ absent_joins (refreshed m now a) a refreshed_absent

  pub update-Shows :
      (p t : Option ℕ) (xs : List ℕ)
      → Shows p t m xs
      → mem a xs ≡ false
      → Shows (start p xs) t (update_timeout m now a) (xs ++ a ∷ [])
  update-Shows p t xs s out = rw update_adds (
      add-Shows p t (refreshed m now a) a xs
        (record {
          prevs = λ b.
              keep_at (λ e. e.prev) (with_heart now) (λ e. refl) m.store (some a) b ∙ s.prevs b;
          nexts = λ b.
              keep_at (λ e. e.next) (with_heart now) (λ e. refl) m.store (some a) b ∙ s.nexts b;
          adds = λ b.
              keep_at (λ e. e.is_add) (with_heart now) (λ e. refl) m.store (some a) b ∙ s.adds b;
          heads = s.heads;
          tails = s.tails;
          distinct = s.distinct;
          counts = s.counts;
        })
        out)

  pub update_heart :
      (b : ℕ)
      → ((update_timeout m now a).store b).heart ≡ (if a == b then now else (m.store b).heart)
  update_heart b = rw update_joins (
      joined_heart (refreshed m now a) a m.head m.tail b
      ∙ set_at heart_of now (with_heart now) (λ e. refl) m.store (some a) b)

  pub update_managed :
      (b : ℕ) → (m.store b).managed ≡ true → ((update_timeout m now a).store b).managed ≡ true
  update_managed b k = rw update_joins (
      joined_managed (refreshed m now a) a m.head m.tail b
        (keep_at managed_of (with_heart now) (λ e. refl) m.store (some a) b ∙ k))

  pub update_period : (update_timeout m now a).timeout ≡ m.timeout
  update_period = rw update_joins (joined_timeout (counted (refreshed m now a) a) a m.head m.tail)
