-- ===== src/Workers/Mailbox.antt =====
-- Any order of calls on a worker (sources/gsdm/src/eventdrive/networker.cpp and
-- sources/gsdm/src/eventdrive/epoll/iohandlermanager.cpp).
use gsdm.Base.{
  ℕ, suc, ◌+◌, ◌<◌, ◌≡◌, refl, sym, ap, ◌∙◌, true, false, Option, none, some, List, [], ◌∷◌, ◌++◌,
  ◌>>=◌, subst, length, arith, append-nil, append_assoc,
}
use gsdm.Cycle.{Allocator}
use gsdm.Workers.{Info, NetWorker, setup_queue, send_cmd, close, pulse}
use gsdm.Workers.Entries.{waiting, from}
use gsdm.Workers.Answered.{from-append}
use gsdm.Workers.Boxes.{told_more, Box, Box-more}
use gsdm.Workers.Pulses.{pulse-Pulsed}
use gsdm.Workers.Acts.{
  Act, sets_up, sends, closes, pulses, step, exec, opens, adds, accepted, Named, is_open, Stepped,
  set_up, sent_to,
}

module _ {M : Type 0} where
  abbrev pub run :
      Allocator → M → ℕ → List (Act M) → NetWorker M → Option (NetWorker M × List (Info × M))
  run alloc blank fuel acts w = do
    (u, out) ← exec alloc blank fuel acts w
    (x, more) ← pulse fuel u
    some (x, out ++ more)

  -- A worker without queues
  abbrev pub unused : NetWorker M
  unused = record { queues = λ s t. none; posts = [] }

  step-Stepped :
      (alloc : Allocator) (blank : M) (fuel : ℕ) (w : NetWorker M) (view : ℕ → ℕ → Option (List M))
      (n : ℕ) (a : Act M)
      → Box w view n
      → n < fuel
      → Named (a ∷ [])
      → Stepped view n a (step alloc blank fuel w a)
  unfolding step setup_queue send_cmd close
  step-Stepped alloc blank fuel w view n (sets_up a b) k h (apart, t) =
      set_up alloc blank w view n a b k apart (w.queues a b) (view a b) refl (k.slots a b)
  step-Stepped alloc blank fuel w view n (sends a b v) k h (apart, t) =
      sent_to alloc fuel w view n a b v k h apart (w.queues a b) (view a b) refl (k.slots a b)
  step-Stepped alloc blank fuel w view n closes k h t = record {
    after = close w true;
    out = [];
    later = view;
    did = refl;
    box = Box-more w view n _ k (λ s u. told_more s u w.posts _);
    up = λ s u. refl;
    all = λ s u. sym (append-nil (waiting (view s u)));
  }
  step-Stepped alloc blank fuel w view n pulses k h t = (pulse-Pulsed fuel w view n k h).stepped

  record Ran (view : ℕ → ℕ → Option (List M)) (n : ℕ) (acts : List (Act M))
      (o : Option (NetWorker M × List (Info × M))) : Type 0 where
    after : NetWorker M
    out : List (Info × M)
    later : ℕ → ℕ → Option (List M)
    did : o ≡ some (after, out)
    box : Box after later (n + length acts)
    all :
        (s t : ℕ)
        → from s t out ++ waiting (later s t)
          ≡ waiting (view s t) ++ accepted s t (is_open (view s t)) acts

  Named-first : (a : Act M) (acts : List (Act M)) → Named (a ∷ acts) → Named (a ∷ []) × Named acts
  Named-first (sets_up a b) acts (h, t) = ((h, tt), t)
  Named-first (sends a b v) acts (h, t) = ((h, tt), t)
  Named-first closes acts t = (tt, t)
  Named-first pulses acts t = (tt, t)

  exec-Ran :
      (alloc : Allocator) (blank : M) (fuel : ℕ) (acts : List (Act M)) (w : NetWorker M)
      (view : ℕ → ℕ → Option (List M)) (n : ℕ)
      → Box w view n
      → n + length acts < fuel
      → Named acts
      → Ran view n acts (exec alloc blank fuel acts w)
  unfolding exec
  exec-Ran alloc blank fuel [] w view n k h named = record {
    after = w;
    out = [];
    later = view;
    did = refl;
    box = subst (λ m. Box w view m) here k;
    all = λ s t. sym (append-nil (waiting (view s t)));
  }
    where
      here : n ≡ n + 0
      here = omega arith
  exec-Ran alloc blank fuel (a ∷ acts) w view n k h named =
      let (first, others) = Named-first a acts named in
      let one = step-Stepped alloc blank fuel w view n a k (omega (arith, h)) first in
      let rest =
        exec-Ran alloc blank fuel acts one.after one.later (suc n) one.box (omega (arith, h))
          others in
      record {
        after = rest.after;
        out = one.out ++ rest.out;
        later = rest.later;
        did = rw (one.did, rest.did) refl;
        box = subst (λ m. Box rest.after rest.later m) there rest.box;
        all = λ s t.
            let before = waiting (view s t) in
            let between = waiting (one.later s t) in
            let left = waiting (rest.later s t) in
            let first_out = from s t one.out in
            let more = from s t rest.out in
            let new = adds a s t (is_open (view s t)) in
            let others = accepted s t (opens a s t (is_open (view s t))) acts in
            ap (λ us. us ++ left) (from-append s t one.out rest.out)
            ∙ append_assoc first_out more left
            ∙ ap (λ us. first_out ++ us)
                (rest.all s t ∙ ap (λ up. between ++ accepted s t up acts) (one.up s t))
            ∙ sym (append_assoc first_out between others)
            ∙ ap (λ us. us ++ others) (one.all s t)
            ∙ append_assoc before new others;
      }
    where
      there : suc n + length acts ≡ n + length (a ∷ acts)
      there = omega arith

  unused-Box : Box unused (λ s t. none) 0
  unused-Box = record { slots = λ s t. tt; heard = λ s t. tt; reserved = λ t. refl }

  -- A worker whose queues are set up, filled and processed in any order, and that processes once more at
  -- the end: nothing faults, and of each queue the commands that were sent to it since it was set up are
  -- processed, each once and in order. The datagrams are taken by the kernel, and no worker has the number
  -- that Close posts.
  pub run-Processed :
      (alloc : Allocator) (blank : M) (fuel : ℕ) (acts : List (Act M))
      → length acts < fuel
      → Named acts
      → (w : NetWorker M) × ((out : List (Info × M)) × ((run alloc blank fuel acts unused
              ≡ some (w, out))
            × ((s t : ℕ) → from s t out ≡ accepted s t false acts)))
  run-Processed alloc blank fuel acts h named =
      let ran =
        exec-Ran alloc blank fuel acts unused (λ s t. none) 0 unused-Box (omega (arith, h)) named in
      let last =
        pulse-Pulsed fuel ran.after ran.later (0 + length acts) ran.box (omega (arith, h)) in
      (
        last.stepped.after,
        (
          ran.out ++ last.stepped.out,
          (
            rw (ran.did, last.stepped.did) refl,
            λ s t.
                from-append s t ran.out last.stepped.out
                ∙ ap (λ us. from s t ran.out ++ us) (last.all s t)
                ∙ ran.all s t,
          ),
        ),
      )
