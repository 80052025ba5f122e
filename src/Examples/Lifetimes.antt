-- ===== src/Examples/Lifetimes.antt =====
-- The theorems on lifetimes at a connection that carries.
use gsdm.Base.{◌≡◌, refl, true, false, none, some, ◌>>=◌}
use gsdm.Process.{NetStatus}
use gsdm.Lifetime.{
  World, Kind, free, connect, set_with_me, new_handler, enqueue_for_delete, delete_handler,
  before_delete,
}
use gsdm.Lifetime.Phases.{
  Phase, of_attached, Act, perform, attached, alone, released, perform-Phase, free-released,
}

perform-Phase_example :
    (w : World) × ((perform (Act.carrier_ends NetStatus.peer_reset) (attached Kind.carrier false)
        ≡ some w)
      × Phase w)
perform-Phase_example =
    perform-Phase (attached Kind.carrier false) (of_attached Kind.carrier false)
      (Act.carrier_ends NetStatus.peer_reset) refl

free-released_example : free (attached Kind.carrier false) ≡ some released
free-released_example =
    free-released (attached Kind.carrier false) (of_attached Kind.carrier false) refl

-- The act that is left out: a call of connect that fails at once, of a process that is not deleted with
-- its handler, leaves `io_handler_` pointing at the handler, which is deleted.
dangling : (connect false (alone false NetStatus.disconnect) >>= set_with_me true) ≡ none
unfolding connect set_with_me new_handler enqueue_for_delete delete_handler before_delete
dangling = refl
