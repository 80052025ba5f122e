-- ===== src/Workers/Answered.antt =====
-- The datagrams that Pulse receives (sources/gsdm/src/eventdrive/epoll/iohandlermanager.cpp), each
-- processed in turn.
use gsdm.Base.{
  ℕ, ◌<◌, ◌≡◌, refl, ap, ◌∙◌, Bool, true, false, Option, none, some, List, [], ◌∷◌, ◌++◌,
  if◌then◌else◌, inl, inr, Bool-cases, subst, append-nil,
}
use gsdm.Workers.{Info, NetWorker, same, nobody, process_infos}
use gsdm.Workers.Entries.{
  Entries, Entry, cleared, waiting, from, cleared_at, process_info-Processed,
}

-- A datagram tells of this queue.
abbrev pub told : ℕ → ℕ → List Info → Bool
told s t [] = false
told s t (i ∷ is) = let rest = told s t is in if same i.worker_id i.cmd_type s t then true else rest

module _ {M : Type 0} where
  abbrev pub emptied : List Info → (ℕ → ℕ → Option (List M)) → ℕ → ℕ → Option (List M)
  emptied is view s t = if told s t is then cleared (view s t) else view s t

  pub from-append :
      (s t : ℕ) (xs ys : List (Info × M)) → from s t (xs ++ ys) ≡ from s t xs ++ from s t ys
  from-append s t [] ys = refl
  from-append s t ((i, v) ∷ xs) ys = elim (Bool-cases (same i.worker_id i.cmd_type s t)) [
    | inl here ↦ rw here (ap (λ us. v ∷ us) (from-append s t xs ys))
    | inr other ↦ rw other (from-append s t xs ys)
  ]

  -- All the queues that the datagrams tell of are empty then, and what waited there was processed.
  pub record Answered (view : ℕ → ℕ → Option (List M)) (n : ℕ) (is : List Info) (w : NetWorker M)
      (o : Option (NetWorker M × List (Info × M))) : Type 0 where
    pub after : NetWorker M
    pub out : List (Info × M)
    pub did : o ≡ some (after, out)
    pub posts : after.posts ≡ w.posts
    pub slots : Entries after (emptied is view) n
    pub all : (s t : ℕ) → from s t out ≡ (if told s t is then waiting (view s t) else [])

  cleared_twice :
      (x : Option (List M)) (b : Bool) → (if b then cleared (cleared x) else cleared x) ≡ cleared x
  cleared_twice none true = refl
  cleared_twice none false = refl
  cleared_twice (some vs) true = refl
  cleared_twice (some vs) false = refl

  waiting-cleared : (x : Option (List M)) (b : Bool) → (if b then waiting (cleared x) else []) ≡ []
  waiting-cleared none true = refl
  waiting-cleared none false = refl
  waiting-cleared (some vs) true = refl
  waiting-cleared (some vs) false = refl

  emptied_next :
      (i : Info) (is : List Info) (view : ℕ → ℕ → Option (List M)) (s t : ℕ)
      → emptied is (cleared_at i view) s t ≡ emptied (i ∷ is) view s t
  emptied_next i is view s t = elim (Bool-cases (same i.worker_id i.cmd_type s t)) [
    | inl here ↦ rw here (cleared_twice (view s t) (told s t is))
    | inr other ↦ rw other refl
  ]

  out_next :
      (i : Info) (is : List Info) (view : ℕ → ℕ → Option (List M)) (s t : ℕ)
      → (if same i.worker_id i.cmd_type s t then waiting (view s t) else [])
          ++ (if told s t is then waiting (cleared_at i view s t) else [])
        ≡ (if told s t (i ∷ is) then waiting (view s t) else [])
  out_next i is view s t = elim (Bool-cases (same i.worker_id i.cmd_type s t)) [
    | inl here ↦ rw here (
        ap (λ us. waiting (view s t) ++ us) (waiting-cleared (view s t) (told s t is))
        ∙ append-nil _)
    | inr other ↦ rw other refl
  ]

  cleared_none :
      (i : Info) (view : ℕ → ℕ → Option (List M)) (s t : ℕ)
      → view s t ≡ none
      → cleared_at i view s t ≡ none
  cleared_none i view s t h = elim (Bool-cases (same i.worker_id i.cmd_type s t)) [
    | inl here ↦ rw (here, h) refl
    | inr other ↦ rw other h
  ]

  pub process_infos-Answered :
      (fuel : ℕ) (view : ℕ → ℕ → Option (List M)) (n : ℕ) (is : List Info) (w : NetWorker M)
      → Entries w view n
      → n < fuel
      → ((t : ℕ) → view nobody t ≡ none)
      → Answered view n is w (process_infos fuel w is)
  unfolding process_infos
  process_infos-Answered fuel view n [] w slots h reserved = record {
    after = w;
    out = [];
    did = refl;
    posts = refl;
    slots = slots;
    all = λ s t. refl;
  }
  process_infos-Answered fuel view n (i ∷ is) w slots h reserved =
      let one = process_info-Processed fuel view n i w slots h reserved in
      let rest =
        process_infos-Answered fuel (cleared_at i view) n is one.after one.slots h
          (λ t. cleared_none i view nobody t (reserved t)) in
      record {
        after = rest.after;
        out = one.out ++ rest.out;
        did = rw (one.did, rest.did) refl;
        posts = rest.posts ∙ one.posts;
        slots = λ s t.
            subst (λ x. Entry (rest.after.queues s t) x n) (emptied_next i is view s t)
              (rest.slots s t);
        all = λ s t.
            from-append s t one.out rest.out
            ∙ rw (one.all s t, rest.all s t) (out_next i is view s t);
      }
