-- ===== src/Timeouts.antt =====
-- Lists of timeouts: TimeoutEvent and TimeoutManager (sources/gsdm/src/utils/timersmanager.cpp).
-- An event is a number, a null pointer is `none`; the store holds the links of every event.
pub mod Ends
pub mod Fields
pub mod Unlinked
pub mod Leaving
pub mod Moves
pub mod Elapse
pub mod Renewed
pub mod Rounds
pub mod Loop
pub mod Expiry
pub mod Linked
use gsdm.Base.{
  ℕ, zero, suc, ◌+◌, ◌-◌, Bool, true, false, not, Option, none, some, List, [], ◌∷◌, ◌++◌, ltb, leb,
  ◌==◌, if◌then◌else◌, add32, sub32, add64,
}

-- The links of an event, whether it is in the list, whether `manager_` is this manager (else it is
-- null), and the time of its last sign of life.
pub record Event : Type 0 where
  pub prev : Option ℕ
  pub next : Option ℕ
  pub is_add : Bool
  pub managed : Bool
  pub heart : ℕ

abbrev pub Store : Type 0
Store = ℕ → Event

-- TimeoutManager with the store of its events.
pub record Manager : Type 0 where
  pub store : Store
  pub head : Option ℕ
  pub tail : Option ℕ
  pub count : ℕ
  pub timeout : ℕ

abbrev pub change : Store → ℕ → (Event → Event) → Store
change s a f b = if a == b then f (s b) else s b

-- `p->field = ...` where p is not null
abbrev pub change_at : Store → Option ℕ → (Event → Event) → Store
change_at s none f = s
change_at s (some a) f = change s a f

abbrev pub with_next : Option ℕ → Event → Event
with_next p e = record e { next = p }

abbrev pub with_prev : Option ℕ → Event → Event
with_prev p e = record e { prev = p }

-- `is_add_` and `manager_` are set together.
abbrev pub with_add : Bool → Event → Event
with_add b e = record e { is_add = b; managed = b }

-- The end of the list, behind its last event if there is one.
unfoldable pub link_last : Manager → ℕ → Option ℕ → Option ℕ → Manager
link_last m a none t = record m { head = some a; tail = some a }
link_last m a (some h) t = record m {
  store = change_at (change m.store a (with_prev t)) t (with_next (some a));
  tail = some a;
}

-- AddTimeoutEvent
unfoldable pub add_timeout_event : Manager → ℕ → Manager
add_timeout_event m a =
    let counted = record m { store = change m.store a (with_add true); count = add32 m.count 1 } in
    if (m.store a).is_add then m else link_last counted a m.head m.tail

-- The four cases of RemoveTimeoutEvent, by the links of the event.
pub unlink : Manager → ℕ → Option ℕ → Option ℕ → Manager
unlink m a (some p) (some n) = record m {
  store =
      change
        (change (change (change m.store p (with_next (some n))) n (with_prev (some p))) a
          (with_next none))
        a (with_prev none);
}
unlink m a none none = record m { head = none; tail = none }
unlink m a none (some n) = record m {
  store = change (change m.store n (with_prev none)) a (with_next none);
  head = some n;
}
unlink m a (some p) none = record m {
  store = change (change m.store p (with_next none)) a (with_prev none);
  tail = some p;
}

-- RemoveTimeoutEvent
pub remove_timeout_event : Manager → ℕ → Manager
remove_timeout_event m a =
    let counted = record m { store = change m.store a (with_add false); count = sub32 m.count 1 } in
    if not (m.store a).is_add then m else unlink counted a (m.store a).prev (m.store a).next

-- ReaddTimeoutEvent
pub readd_timeout_event : Manager → ℕ → Manager
readd_timeout_event m a = add_timeout_event (remove_timeout_event m a) a

abbrev pub with_heart : ℕ → Event → Event
with_heart now e = record e { heart = now }

-- UpdateTimeout at the time `now`
pub update_timeout : Manager → ℕ → ℕ → Manager
update_timeout m now a =
    if (m.store a).managed
    then readd_timeout_event (record m { store = change m.store a (with_heart now) }) a
    else m

-- Check: the event is not overdue.
pub check : Event → ℕ → ℕ → Bool
check e now timeout = leb now (add64 timeout e.heart)

-- ~TimeoutEvent
abbrev pub destroyed : Event → Event
destroyed e = record e { prev = none; next = none; is_add = false; managed = false }

abbrev pub out_of : Event → Event
out_of e = record e { is_add = false; prev = none; next = none }

-- The first event is taken out of the list; the links of the next one and the tail are left for later.
abbrev pub take_first : Manager → ℕ → Manager
take_first m a = record m {
  store = change m.store a out_of;
  head = (m.store a).next;
  count = sub32 m.count 1;
}

-- The event is freed if DoTimeout says so, and else it is given a new life.
abbrev pub done_timeout : (ℕ → Bool) → ℕ → Manager → ℕ → Manager
done_timeout do_timeout now m a =
    if do_timeout a then record m { store = change m.store a destroyed } else update_timeout m now a

-- The ends are repaired after the loop.
pub repair : Manager → Option ℕ → Manager
repair m none = record m { tail = none }
repair m (some a) = record m { store = change m.store a (with_prev none) }

-- The loop of TimeElapsedTimeout at its head: `next_round` goes on without the first event.
abbrev pub elapse_first : Manager → ℕ → (ℕ → Option Manager) → Option ℕ → Option Manager
elapse_first m now next_round none = some (repair m none)
elapse_first m now next_round (some a) =
    if check (m.store a) now m.timeout then some (repair m (some a)) else next_round a

-- TimeElapsedTimeout at the time `now`; DoTimeout answers `do_timeout` and leaves the list alone.
-- Each round of the loop takes a unit of fuel.
pub time_elapsed_timeout : (ℕ → Bool) → ℕ → ℕ → Manager → Option Manager
time_elapsed_timeout do_timeout now zero m = none
time_elapsed_timeout do_timeout now (suc fuel) m =
    elapse_first m now
      (λ a.
        time_elapsed_timeout do_timeout now fuel (done_timeout do_timeout now (take_first m a) a))
      m.head
