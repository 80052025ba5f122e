-- ===== src/Workers/Entries.antt =====
-- The queues of a worker and what waits in each (sources/gsdm/src/eventdrive/networker.cpp).
use gsdm.Base.{
  ℕ, ◌<◌, ◌≡◌, refl, sym, ap, ◌∙◌, true, Option, none, some, List, [], ◌∷◌, ◌==◌, ==_iff,
  if◌then◌else◌, inl, inr, Bool-cases, subst, arith,
}
use gsdm.Base.Order.{clash}
use gsdm.Cycle.{Mail}
use gsdm.Cycle.Fifo.{Waits}
use gsdm.Cycle.Delivery.{process_cmd-Emptied, length-Waits}
use gsdm.Workers.{Info, NetWorker, same, assign, nobody, tag, process_queue, process_info}

pub same_eq : (a b s t : ℕ) → same a b s t ≡ true → (a ≡ s) × (b ≡ t)
same_eq a b s t h = elim (Bool-cases (a == s)) [
  | inl here ↦ ((==_iff a s).0 here, (==_iff b t).0 (sym (rw here refl) ∙ h))
  | inr other ↦ clash h (rw other refl)
]

module _ {M : Type 0} where
  -- A queue that is set up, and what waits in it
  abbrev pub Entry : Option (Mail M) → Option (List M) → ℕ → Type 0
  Entry none none n = Unit {0}
  Entry none (some vs) n = ⊥
  Entry (some b) none n = ⊥
  Entry (some b) (some vs) n = Waits b vs n

  abbrev pub Entries : NetWorker M → (ℕ → ℕ → Option (List M)) → ℕ → Type 0
  Entries w view n = (s t : ℕ) → Entry (w.queues s t) (view s t) n

  -- What is left of a queue when all that waits is processed
  abbrev pub cleared : Option (List M) → Option (List M)
  cleared none = none
  cleared (some vs) = some []

  abbrev pub waiting : Option (List M) → List M
  waiting none = []
  waiting (some vs) = vs

  -- The commands of one queue among those that were processed
  abbrev pub from : ℕ → ℕ → List (Info × M) → List M
  from s t [] = []
  from s t ((i, v) ∷ out) =
      let rest = from s t out in if same i.worker_id i.cmd_type s t then v ∷ rest else rest

  abbrev pub cleared_at : Info → (ℕ → ℕ → Option (List M)) → ℕ → ℕ → Option (List M)
  cleared_at i view s t = if same i.worker_id i.cmd_type s t then cleared (view s t) else view s t

  pub from-tag :
      (i : Info) (s t : ℕ) (vs : List M)
      → from s t (tag i vs) ≡ (if same i.worker_id i.cmd_type s t then vs else [])
  from-tag i s t [] = elim (Bool-cases (same i.worker_id i.cmd_type s t)) [
    | inl here ↦ rw here refl
    | inr other ↦ rw other refl
  ]
  from-tag i s t (v ∷ vs) = elim (Bool-cases (same i.worker_id i.cmd_type s t)) [
    | inl here ↦ rw here (ap (λ us. v ∷ us) (from-tag i s t vs ∙ rw here refl))
    | inr other ↦ rw other (from-tag i s t vs ∙ rw other refl)
  ]

  -- The outcome of ProcessCmd: the queue that it was told of is empty, the others are as they were.
  pub record Processed (view : ℕ → ℕ → Option (List M)) (n : ℕ) (i : Info) (w : NetWorker M)
      (o : Option (NetWorker M × List (Info × M))) : Type 0 where
    pub after : NetWorker M
    pub out : List (Info × M)
    pub did : o ≡ some (after, out)
    pub posts : after.posts ≡ w.posts
    pub slots : Entries after (cleared_at i view) n
    pub all :
        (s t : ℕ)
        → from s t out ≡ (if same i.worker_id i.cmd_type s t then waiting (view s t) else [])

  -- Nothing happens where no queue is set up.
  Processed-nothing :
      (view : ℕ → ℕ → Option (List M)) (n : ℕ) (i : Info) (w : NetWorker M)
      → Entries w view n
      → view i.worker_id i.cmd_type ≡ none
      → Processed view n i w (some (w, []))
  Processed-nothing view n i w slots absent = record {
    after = w;
    out = [];
    did = refl;
    posts = refl;
    slots = λ s t. elim (Bool-cases (same i.worker_id i.cmd_type s t)) [
      | inl here ↦
          rw (here, gone s t here)
            (subst (λ x. Entry (w.queues s t) x n) (gone s t here) (slots s t))
      | inr other ↦ rw other (slots s t)
    ];
    all = λ s t. elim (Bool-cases (same i.worker_id i.cmd_type s t)) [
      | inl here ↦ rw (here, gone s t here) refl
      | inr other ↦ rw other refl
    ];
  }
    where
      gone : (s t : ℕ) → same i.worker_id i.cmd_type s t ≡ true → view s t ≡ none
      gone s t here = let (a, b) = same_eq i.worker_id i.cmd_type s t here in rw⁻¹ (a, b) absent

  Processed-queue :
      (fuel : ℕ) (view : ℕ → ℕ → Option (List M)) (n : ℕ) (i : Info) (w : NetWorker M)
      → Entries w view n
      → n < fuel
      → (q : Option (Mail M)) (x : Option (List M)) → view i.worker_id i.cmd_type ≡ x
      → Entry q x n
      → Processed view n i w (process_queue fuel w i q)
  Processed-queue fuel view n i w slots h none none absent at =
      Processed-nothing view n i w slots absent
  Processed-queue fuel view n i w slots h none (some vs) e at = absurd at
  Processed-queue fuel view n i w slots h (some b) none e at = absurd at
  Processed-queue fuel view n i w slots h (some b) (some vs) e at =
      let (b', (did, empty)) =
        process_cmd-Emptied fuel b vs n at (omega (arith, length-Waits b vs n at, h)) in
      record {
        after = record w { queues = assign w.queues i.worker_id i.cmd_type (some b') };
        out = tag i vs;
        did = rw did refl;
        posts = refl;
        slots = λ s t. elim (Bool-cases (same i.worker_id i.cmd_type s t)) [
          | inl here ↦ rw (here, found s t here) empty
          | inr other ↦ rw other (slots s t)
        ];
        all = λ s t. elim (Bool-cases (same i.worker_id i.cmd_type s t)) [
          | inl here ↦ rw (found s t here) (from-tag i s t vs ∙ rw here refl)
          | inr other ↦ from-tag i s t vs ∙ rw other refl
        ];
      }
    where
      found : (s t : ℕ) → same i.worker_id i.cmd_type s t ≡ true → view s t ≡ some vs
      found s t here = let (a, b) = same_eq i.worker_id i.cmd_type s t here in rw⁻¹ (a, b) e

  pub process_info-Processed :
      (fuel : ℕ) (view : ℕ → ℕ → Option (List M)) (n : ℕ) (i : Info) (w : NetWorker M)
      → Entries w view n
      → n < fuel
      → ((t : ℕ) → view nobody t ≡ none)
      → Processed view n i w (process_info fuel w i)
  unfolding process_info
  process_info-Processed fuel view n i w slots h reserved =
      elim (Bool-cases (i.worker_id == nobody)) [
        | inl close_it ↦ rw close_it (
            Processed-nothing view n i w slots
              (rw ((==_iff i.worker_id nobody).0 close_it) (reserved i.cmd_type)))
        | inr open_it ↦ rw open_it (
            Processed-queue fuel view n i w slots h (w.queues i.worker_id i.cmd_type)
              (view i.worker_id i.cmd_type) refl (slots i.worker_id i.cmd_type))
      ]
