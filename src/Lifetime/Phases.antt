-- ===== src/Lifetime/Phases.antt =====
-- The states of a connection that can be reached, and what each act makes of them
-- (sources/gsdm/src/eventdrive/baseprocess.cpp and sources/gsdm/src/eventdrive/epoll).
use mathlib.Core.Bool.{false≢true}
use gsdm.Base.{◌≡◌, refl, Bool, true, false, ◌||◌, Option, none, some}
use gsdm.Process.{NetStatus}
use gsdm.Lifetime.{
  World, Kind, connect, connector_event, carrier_event, time_out, free, set_with_me, free_handler,
  enqueue_for_delete, delete_handler, before_delete, new_handler,
}

-- A status that a process without a handler can have.
abbrev pub is_settled : NetStatus → Bool
is_settled NetStatus.connected = false
is_settled NetStatus.connecting = false
is_settled NetStatus.peer_timeout = false
is_settled _ = true

abbrev pub is_carrier : Kind → Bool
is_carrier Kind.carrier = true
is_carrier Kind.connector = false

abbrev pub up_status : Kind → NetStatus
up_status Kind.carrier = NetStatus.connected
up_status Kind.connector = NetStatus.connecting

-- A handler with its process: the handler deletes the process exactly if `with_me` is set, closes the
-- descriptor, which is open, and epoll knows it; a process that carries is in the list of timeouts.
abbrev pub attached : Kind → Bool → World
attached k with_me = record {
  process = some (record { net_status = up_status k; with_me = with_me; attached = true });
  handler = some (record { kind = k; close_process = with_me; close_fd = true });
  fd_open = true;
  registered = true;
  listed = is_carrier k;
}

-- A process alone: nothing is open, and nothing refers to it.
abbrev pub alone : Bool → NetStatus → World
alone with_me s = record {
  process = some (record { net_status = s; with_me = with_me; attached = false });
  handler = none;
  fd_open = false;
  registered = false;
  listed = false;
}

-- Nothing is left.
abbrev pub released : World
released = record {
  process = none;
  handler = none;
  fd_open = false;
  registered = false;
  listed = false;
}

pub data Phase : World → Type 0 where
  of_attached : (k : Kind) (with_me : Bool) → Phase (attached k with_me)
  of_alone : (with_me : Bool) (s : NetStatus) → is_settled s ≡ true → Phase (alone with_me s)
  of_released : Phase released

-- What happens to a connection.
pub data Act : Type 0 where
  connecting : Bool → Act
  connector_answers : Bool → Act
  carrier_ends : NetStatus → Act
  timing_out freeing : Act
  setting_with_me : Bool → Act

abbrev pub perform : Act → World → Option World
perform (Act.connecting succeeds) = connect succeeds
perform (Act.connector_answers error) = connector_event error
perform (Act.carrier_ends s) = carrier_event s
perform Act.timing_out = time_out
perform Act.freeing = free
perform (Act.setting_with_me b) = set_with_me b

-- When an act can happen, of the three phases. A call of connect that fails at once is left out where
-- the process is not deleted with its handler.
abbrev pub can : {w : World} → Phase w → Act → Bool
can (of_attached k b) (Act.connecting succeeds) = false
can (of_attached Kind.connector b) (Act.connector_answers error) = true
can (of_attached Kind.carrier b) (Act.connector_answers error) = false
can (of_attached Kind.carrier b) (Act.carrier_ends s) = is_settled s
can (of_attached Kind.connector b) (Act.carrier_ends s) = false
can (of_attached Kind.carrier b) Act.timing_out = true
can (of_attached Kind.connector b) Act.timing_out = false
can (of_attached k b) Act.freeing = true
can (of_attached k b) (Act.setting_with_me c) = true
can (of_alone b s h) (Act.connecting succeeds) = succeeds || b
can (of_alone b s h) (Act.connector_answers error) = false
can (of_alone b s h) (Act.carrier_ends t) = false
can (of_alone b s h) Act.timing_out = false
can (of_alone b s h) Act.freeing = true
can (of_alone b s h) (Act.setting_with_me c) = true
can of_released a = false

freed : (b : Bool) (s : NetStatus) → is_settled s ≡ true → free (alone b s) ≡ some released
unfolding free
freed b NetStatus.disconnect h = refl
freed b NetStatus.peer_reset h = refl
freed b NetStatus.sys_error h = refl
freed b NetStatus.connected h = absurd (false≢true h)
freed b NetStatus.connecting h = absurd (false≢true h)
freed b NetStatus.peer_timeout h = absurd (false≢true h)

-- In every phase each act that can happen runs without a use of a null pointer or of an object that is
-- deleted, and leads to a phase again.
pub perform-Phase :
    (w : World) (phase : Phase w) (a : Act)
    → can phase a ≡ true
    → (w' : World) × ((perform a w ≡ some w') × Phase w')
unfolding connect connector_event carrier_event time_out free set_with_me free_handler
    enqueue_for_delete delete_handler before_delete new_handler
perform-Phase w (of_attached Kind.connector true) (Act.connector_answers true) h =
    (released, (refl, of_released))
perform-Phase w (of_attached Kind.connector false) (Act.connector_answers true) h =
    (alone false NetStatus.sys_error, (refl, of_alone false NetStatus.sys_error refl))
perform-Phase w (of_attached Kind.connector b) (Act.connector_answers false) h =
    (attached Kind.carrier b, (refl, of_attached Kind.carrier b))
perform-Phase w (of_attached Kind.carrier true) (Act.carrier_ends s) h =
    (released, (refl, of_released))
perform-Phase w (of_attached Kind.carrier false) (Act.carrier_ends s) h =
    (alone false s, (refl, of_alone false s h))
perform-Phase w (of_attached Kind.carrier b) Act.timing_out h = (released, (refl, of_released))
perform-Phase w (of_attached Kind.carrier b) Act.freeing h = (released, (refl, of_released))
perform-Phase w (of_attached Kind.connector b) Act.freeing h = (released, (refl, of_released))
perform-Phase w (of_attached k b) (Act.setting_with_me c) h =
    (attached k c, (refl, of_attached k c))
perform-Phase w (of_alone b s k) (Act.connecting true) h =
    (attached Kind.connector b, (refl, of_attached Kind.connector b))
perform-Phase w (of_alone true s k) (Act.connecting false) h = (released, (refl, of_released))
perform-Phase w (of_alone b s k) Act.freeing h = (released, (freed b s k, of_released))
perform-Phase w (of_alone b s k) (Act.setting_with_me c) h = (alone c s, (refl, of_alone c s k))
perform-Phase w (of_attached k b) (Act.connecting c) h = absurd (false≢true h)
perform-Phase w (of_attached Kind.carrier b) (Act.connector_answers c) h = absurd (false≢true h)
perform-Phase w (of_attached Kind.connector b) (Act.carrier_ends s) h = absurd (false≢true h)
perform-Phase w (of_attached Kind.connector b) Act.timing_out h = absurd (false≢true h)
perform-Phase w (of_alone false s k) (Act.connecting false) h = absurd (false≢true h)
perform-Phase w (of_alone b s k) (Act.connector_answers c) h = absurd (false≢true h)
perform-Phase w (of_alone b s k) (Act.carrier_ends t) h = absurd (false≢true h)
perform-Phase w (of_alone b s k) Act.timing_out h = absurd (false≢true h)
perform-Phase w of_released a h = absurd (false≢true h)

-- Free of a process that is not deleted, in any phase, deletes it and its handler, once each, closes
-- the descriptor, and leaves nothing of it with epoll or in the list of timeouts.
pub free-released :
    (w : World) (phase : Phase w) → can phase Act.freeing ≡ true → free w ≡ some released
unfolding free set_with_me free_handler enqueue_for_delete delete_handler before_delete
free-released w (of_attached Kind.connector b) h = refl
free-released w (of_attached Kind.carrier b) h = refl
free-released w (of_alone b s k) h = freed b s k
free-released w of_released h = absurd (false≢true h)
