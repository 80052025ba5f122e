-- ===== src/Timeouts/Unlinked.antt =====
-- What RemoveTimeoutEvent (sources/gsdm/src/utils/timersmanager.cpp) does to the links of every event.
use gsdm.Base.{
  ℕ, ◌≡◌, refl, ap, ◌∙◌, Bool, true, false, Option, none, some, subst, ◌==◌, ==_iff, if◌then◌else◌,
}
use gsdm.Timeouts.{Event, Manager, change, with_next, with_prev, unlink}
use gsdm.Base.Order.{is}
use gsdm.Timeouts.Fields.{set_at, keep_at}

-- A field of the event that is null already.
already : (get : ℕ → Option ℕ) (a b : ℕ) → get a ≡ none → get b ≡ (if a == b then none else get b)
already get a b h = go (a == b) ((==_iff a b).0)
  where
    go : (c : Bool) → ((c ≡ true) → a ≡ b) → get b ≡ (if c then none else get b)
    go true same = subst (λ z. get z ≡ none) (same refl) h
    go false same = refl

emptied : (c : Bool) (o : Option ℕ) → o ≡ none → (if c then none else o) ≡ none
emptied true o h = refl
emptied false o h = h

abbrev next_of : Event → Option ℕ
next_of e = e.next

abbrev prev_of : Event → Option ℕ
prev_of e = e.prev

abbrev added : Event → Bool
added e = e.is_add

pub unlinked_next :
    (m : Manager) (a : ℕ) (p n : Option ℕ) (b : ℕ)
    → (m.store a).next ≡ n
    → ((unlink m a p n).store b).next
      ≡ (if a == b then none else if is p b then n else (m.store b).next)
unfolding unlink
unlinked_next m a (some p) (some n) b h =
    let s1 = change m.store p (with_next (some n)) in
    let s2 = change s1 n (with_prev (some p)) in
    let s3 = change s2 a (with_next none) in
    keep_at next_of (with_prev none) (λ e. refl) s3 (some a) b
    ∙ set_at next_of none (with_next none) (λ e. refl) s2 (some a) b
    ∙ ap (λ o. if a == b then none else o)
        (keep_at next_of (with_prev (some p)) (λ e. refl) s1 (some n) b
          ∙ set_at next_of (some n) (with_next (some n)) (λ e. refl) m.store (some p) b)
unlinked_next m a none none b h = already (λ z. (m.store z).next) a b h
unlinked_next m a none (some n) b h =
    set_at next_of none (with_next none) (λ e. refl) (change m.store n (with_prev none)) (some a) b
    ∙ ap (λ o. if a == b then none else o)
        (keep_at next_of (with_prev none) (λ e. refl) m.store (some n) b)
unlinked_next m a (some p) none b h =
    keep_at next_of (with_prev none) (λ e. refl) (change m.store p (with_next none)) (some a) b
    ∙ set_at next_of none (with_next none) (λ e. refl) m.store (some p) b
    ∙ already (λ z. if p == z then none else (m.store z).next) a b
        (emptied (p == a) (m.store a).next h)

pub unlinked_prev :
    (m : Manager) (a : ℕ) (p n : Option ℕ) (b : ℕ)
    → (m.store a).prev ≡ p
    → ((unlink m a p n).store b).prev
      ≡ (if a == b then none else if is n b then p else (m.store b).prev)
unfolding unlink
unlinked_prev m a (some p) (some n) b h =
    let s1 = change m.store p (with_next (some n)) in
    let s2 = change s1 n (with_prev (some p)) in
    let s3 = change s2 a (with_next none) in
    set_at prev_of none (with_prev none) (λ e. refl) s3 (some a) b
    ∙ ap (λ o. if a == b then none else o)
        (keep_at prev_of (with_next none) (λ e. refl) s2 (some a) b
          ∙ set_at prev_of (some p) (with_prev (some p)) (λ e. refl) s1 (some n) b
          ∙ ap (λ o. if n == b then some p else o)
              (keep_at prev_of (with_next (some n)) (λ e. refl) m.store (some p) b))
unlinked_prev m a none none b h = already (λ z. (m.store z).prev) a b h
unlinked_prev m a (some p) none b h =
    set_at prev_of none (with_prev none) (λ e. refl) (change m.store p (with_next none)) (some a) b
    ∙ ap (λ o. if a == b then none else o)
        (keep_at prev_of (with_next none) (λ e. refl) m.store (some p) b)
unlinked_prev m a none (some n) b h =
    keep_at prev_of (with_next none) (λ e. refl) (change m.store n (with_prev none)) (some a) b
    ∙ set_at prev_of none (with_prev none) (λ e. refl) m.store (some n) b
    ∙ already (λ z. if n == z then none else (m.store z).prev) a b
        (emptied (n == a) (m.store a).prev h)

pub unlinked_add :
    (m : Manager) (a : ℕ) (p n : Option ℕ) (b : ℕ)
    → ((unlink m a p n).store b).is_add ≡ (m.store b).is_add
unfolding unlink
unlinked_add m a (some p) (some n) b =
    let s1 = change m.store p (with_next (some n)) in
    let s2 = change s1 n (with_prev (some p)) in
    let s3 = change s2 a (with_next none) in
    keep_at added (with_prev none) (λ e. refl) s3 (some a) b
    ∙ keep_at added (with_next none) (λ e. refl) s2 (some a) b
    ∙ keep_at added (with_prev (some p)) (λ e. refl) s1 (some n) b
    ∙ keep_at added (with_next (some n)) (λ e. refl) m.store (some p) b
unlinked_add m a none none b = refl
unlinked_add m a (some p) none b =
    keep_at added (with_prev none) (λ e. refl) (change m.store p (with_next none)) (some a) b
    ∙ keep_at added (with_next none) (λ e. refl) m.store (some p) b
unlinked_add m a none (some n) b =
    keep_at added (with_next none) (λ e. refl) (change m.store n (with_prev none)) (some a) b
    ∙ keep_at added (with_prev none) (λ e. refl) m.store (some n) b
