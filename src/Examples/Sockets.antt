-- ===== src/Examples/Sockets.antt =====
-- The theorems on sockets with timeouts (sources/gsdm/src/pooldrive/poolworkerex.cpp) in a run
-- of two waits.
use gsdm.Base.{◌≢◌, true, false, [], ◌∷◌, arith, min}
use gsdm.Pool.{Wake, event, Errno, done, minus_one, pending, pool_sys_send_msg, attempt_recv, start}
use gsdm.Pool.Clock.{start-settled}
use gsdm.Pool.Delivery.{Honest, Delivered, pool_sys_send_msg-Delivered}

-- The kernel takes at most two bytes.
abbrev takes_two : Wake
takes_two = record {
  took = 10;
  waited = event false false true;
  call = λ k. done (min 2 k);
  stale = Errno.other;
}

takes_two-Honest : Honest takes_two
takes_two-Honest k = omega arith

-- The kernel has no room.
abbrev no_room : Wake
no_room = record {
  took = 30;
  waited = event false false true;
  call = λ k. minus_one Errno.again;
  stale = Errno.other;
}

pool_sys_send_msg-Delivered_example :
    Delivered
      (1 ∷ 2 ∷ 3 ∷ [])
      (pool_sys_send_msg (1 ∷ 2 ∷ 3 ∷ []) takes_two (no_room ∷ takes_two ∷ []) 50)
pool_sys_send_msg-Delivered_example =
    pool_sys_send_msg-Delivered (1 ∷ 2 ∷ 3 ∷ []) takes_two (no_room ∷ takes_two ∷ []) 50
      takes_two-Honest ((λ k. tt), (takes_two-Honest, tt))

start-settled_example : (start (attempt_recv 16) no_room (no_room ∷ no_room ∷ []) 50 tt).1 ≢ pending
start-settled_example =
    start-settled (attempt_recv 16) no_room (no_room ∷ no_room ∷ []) 50 tt (omega arith)
      (omega arith)
