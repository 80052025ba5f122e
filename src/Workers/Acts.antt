-- ===== src/Workers/Acts.antt =====
-- One call on a worker: SetupQueue, SendCmd and Close of NetWorker
-- (sources/gsdm/src/eventdrive/networker.cpp) by any thread, and Pulse
-- (sources/gsdm/src/eventdrive/epoll/iohandlermanager.cpp) by its own.
use gsdm.Base.{
  ℕ, suc, ◌<◌, ◌≡◌, refl, sym, Bool, true, false, Option, none, some, List, [], ◌∷◌, ◌++◌, ◌==◌,
  if◌then◌else◌, ◌>>=◌, inl, inr, Bool-cases, append-nil,
}
use gsdm.Cycle.{Mail, Allocator}
use gsdm.Cycle.Fifo.{send-Waits}
use gsdm.Workers.{
  Info, NetWorker, same, assign, nobody, new_queue, open_queue, send_into, setup_queue, send_cmd,
  close, pulse,
}
use gsdm.Workers.Entries.{Entry, waiting, from, same_eq}
use gsdm.Workers.Boxes.{
  told_more, told_last, Heard-told, Box, Box-assign, Box-more, new_queue-Waits,
}

pub data Act (M : Type 0) : Type 0 where
  sets_up : ℕ → ℕ → Act M
  sends : ℕ → ℕ → M → Act M
  closes : Act M
  pulses : Act M

module _ {M : Type 0} where
  -- Every datagram is taken by the kernel.
  unfoldable pub step :
      Allocator → M → ℕ → NetWorker M → Act M → Option (NetWorker M × List (Info × M))
  step alloc blank fuel w (sets_up a b) = some (setup_queue alloc blank w a b, [])
  step alloc blank fuel w (sends a b v) = do u ← send_cmd alloc fuel w a b v true; some (u, [])
  step alloc blank fuel w closes = some (close w true, [])
  step alloc blank fuel w pulses = pulse fuel w

  unfoldable pub exec :
      Allocator → M → ℕ → List (Act M) → NetWorker M → Option (NetWorker M × List (Info × M))
  exec alloc blank fuel [] w = some (w, [])
  exec alloc blank fuel (a ∷ acts) w = do
    (u, out) ← step alloc blank fuel w a
    (x, more) ← exec alloc blank fuel acts u
    some (x, out ++ more)

  -- What an act does to one queue: it is set up, and one command comes.
  abbrev pub opens : Act M → ℕ → ℕ → Bool → Bool
  opens (sets_up a b) s t up = if same a b s t then true else up
  opens (sends a b v) s t up = up
  opens closes s t up = up
  opens pulses s t up = up

  abbrev pub adds : Act M → ℕ → ℕ → Bool → List M
  adds (sets_up a b) s t up = []
  adds (sends a b v) s t up = if same a b s t then (if up then v ∷ [] else []) else []
  adds closes s t up = []
  adds pulses s t up = []

  -- The commands that were sent to a queue since it was set up
  abbrev pub accepted : ℕ → ℕ → Bool → List (Act M) → List M
  accepted s t up [] = []
  accepted s t up (a ∷ acts) = adds a s t up ++ accepted s t (opens a s t up) acts

  -- No worker has the number that Close posts.
  abbrev pub Named : List (Act M) → Type 0
  Named [] = Unit {0}
  Named (sets_up a b ∷ acts) = ((a == nobody) ≡ false) × Named acts
  Named (sends a b v ∷ acts) = ((a == nobody) ≡ false) × Named acts
  Named (closes ∷ acts) = Named acts
  Named (pulses ∷ acts) = Named acts

  abbrev pub is_open : Option (List M) → Bool
  is_open none = false
  is_open (some vs) = true

  pub record Stepped (view : ℕ → ℕ → Option (List M)) (n : ℕ) (a : Act M)
      (o : Option (NetWorker M × List (Info × M))) : Type 0 where
    pub after : NetWorker M
    pub out : List (Info × M)
    pub later : ℕ → ℕ → Option (List M)
    pub did : o ≡ some (after, out)
    pub box : Box after later (suc n)
    pub up : (s t : ℕ) → is_open (later s t) ≡ opens a s t (is_open (view s t))
    pub all :
        (s t : ℕ)
        → from s t out ++ waiting (later s t)
          ≡ waiting (view s t) ++ adds a s t (is_open (view s t))

  at :
      (view : ℕ → ℕ → Option (List M)) (a b s t : ℕ) (x : Option (List M))
      → view a b ≡ x
      → same a b s t ≡ true
      → view s t ≡ x
  at view a b s t x e here = let (h, k) = same_eq a b s t here in rw⁻¹ (h, k) e

  pub set_up :
      (alloc : Allocator) (blank : M) (w : NetWorker M) (view : ℕ → ℕ → Option (List M)) (n a b : ℕ)
      → Box w view n
      → (a == nobody) ≡ false
      → (q : Option (Mail M)) (x : Option (List M)) → view a b ≡ x
      → Entry q x n
      → Stepped view n (sets_up a b) (some (open_queue alloc blank w a b q, []))
  set_up alloc blank w view n a b k apart none none e slot = record {
    after = open_queue alloc blank w a b none;
    out = [];
    later = assign view a b (some []);
    did = refl;
    box =
        Box-assign w view n a b (some (new_queue alloc blank)) (some []) w.posts k apart
          (new_queue-Waits alloc blank (suc n)) (λ s t h. h) tt;
    up = λ s t. elim (Bool-cases (same a b s t)) [
      | inl here ↦ rw here refl
      | inr other ↦ rw other refl
    ];
    all = λ s t. elim (Bool-cases (same a b s t)) [
      | inl here ↦ rw (here, at view a b s t none e here) refl
      | inr other ↦ rw other (sym (append-nil (waiting (view s t))))
    ];
  }
  set_up alloc blank w view n a b k apart none (some vs) e slot = absurd slot
  set_up alloc blank w view n a b k apart (some q) none e slot = absurd slot
  set_up alloc blank w view n a b k apart (some q) (some vs) e slot = record {
    after = w;
    out = [];
    later = view;
    did = refl;
    box = Box-more w view n w.posts k (λ s t h. h);
    up = λ s t. elim (Bool-cases (same a b s t)) [
      | inl here ↦ rw (here, at view a b s t (some vs) e here) refl
      | inr other ↦ rw other refl
    ];
    all = λ s t. sym (append-nil (waiting (view s t)));
  }

  pub sent_to :
      (alloc : Allocator) (fuel : ℕ) (w : NetWorker M) (view : ℕ → ℕ → Option (List M)) (n a b : ℕ)
      (v : M)
      → Box w view n
      → n < fuel
      → (a == nobody) ≡ false
      → (q : Option (Mail M)) (x : Option (List M)) → view a b ≡ x
      → Entry q x n
      → Stepped view n (sends a b v) (send_into alloc fuel w a b v true q >>= λ u. some (u, []))
  sent_to alloc fuel w view n a b v k h apart none none e slot = record {
    after = w;
    out = [];
    later = view;
    did = refl;
    box = Box-more w view n w.posts k (λ s t h. h);
    up = λ s t. refl;
    all = λ s t. elim (Bool-cases (same a b s t)) [
      | inl here ↦ rw (here, at view a b s t none e here) refl
      | inr other ↦ rw other (sym (append-nil (waiting (view s t))))
    ];
  }
  sent_to alloc fuel w view n a b v k h apart none (some vs) e slot = absurd slot
  sent_to alloc fuel w view n a b v k h apart (some q) none e slot = absurd slot
  sent_to alloc fuel w view n a b v k h apart (some q) (some vs) e slot =
      let (m, (did, waits)) = send-Waits alloc fuel q v vs n slot h in
      let i : Info = record { worker_id = a; cmd_type = b } in
      record {
        after = record { queues = assign w.queues a b (some m); posts = w.posts ++ i ∷ [] };
        out = [];
        later = assign view a b (some (vs ++ v ∷ []));
        did = rw did refl;
        box =
            Box-assign w view n a b (some m) (some (vs ++ v ∷ [])) (w.posts ++ i ∷ []) k apart waits
              (λ s t. told_more s t w.posts i)
              (Heard-told (w.posts ++ i ∷ []) a b (some (vs ++ v ∷ [])) (told_last a b w.posts));
        up = λ s t. elim (Bool-cases (same a b s t)) [
          | inl here ↦ rw (here, at view a b s t (some vs) e here) refl
          | inr other ↦ rw other refl
        ];
        all = λ s t. elim (Bool-cases (same a b s t)) [
          | inl here ↦ rw (here, at view a b s t (some vs) e here) refl
          | inr other ↦ rw other (sym (append-nil (waiting (view s t))))
        ];
      }
