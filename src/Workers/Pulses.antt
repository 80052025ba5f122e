-- ===== src/Workers/Pulses.antt =====
-- Pulse (sources/gsdm/src/eventdrive/epoll/iohandlermanager.cpp) processes every command that waits.
use gsdm.Base.{
  ℕ, suc, ◌<◌, ◌≡◌, refl, ap, ◌∙◌, Bool, true, false, Option, none, some, List, [], ◌∷◌, ◌++◌,
  if◌then◌else◌, inl, inr, Bool-cases, length, arith,
}
use gsdm.Workers.{Info, NetWorker, nobody, pulse}
use gsdm.Workers.Entries.{cleared, waiting, from}
use gsdm.Workers.Answered.{told, emptied, process_infos-Answered}
use gsdm.Workers.Boxes.{Heard, Box, Entry-more}
use gsdm.Workers.Acts.{pulses, is_open, Stepped}

module _ {M : Type 0} where
  -- What the datagrams do not tell of does not wait.
  told-waiting :
      (ps : List Info) (s t : ℕ) (x : Option (List M))
      → Heard ps s t x
      → (if told s t ps then waiting x else []) ≡ waiting x
  told-waiting ps s t none h = elim (Bool-cases (told s t ps)) [
    | inl e ↦ rw e refl
    | inr e ↦ rw e refl
  ]
  told-waiting ps s t (some []) h = elim (Bool-cases (told s t ps)) [
    | inl e ↦ rw e refl
    | inr e ↦ rw e refl
  ]
  told-waiting ps s t (some (v ∷ vs)) h = rw h refl

  quiet :
      (ps : List Info) (s t : ℕ) (x : Option (List M))
      → Heard ps s t x
      → waiting (if told s t ps then cleared x else x) ≡ []
  quiet ps s t none h = elim (Bool-cases (told s t ps)) [ inl e ↦ rw e refl | inr e ↦ rw e refl ]
  quiet ps s t (some []) h = elim (Bool-cases (told s t ps)) [
    | inl e ↦ rw e refl
    | inr e ↦ rw e refl
  ]
  quiet ps s t (some (v ∷ vs)) h = rw h refl

  still_open : (b : Bool) (x : Option (List M)) → is_open (if b then cleared x else x) ≡ is_open x
  still_open true none = refl
  still_open true (some vs) = refl
  still_open false x = refl

  still_none : (b : Bool) (x : Option (List M)) → x ≡ none → (if b then cleared x else x) ≡ none
  still_none true x h = rw h refl
  still_none false x h = h

  Heard-quiet : (ps : List Info) (s t : ℕ) (x : Option (List M)) → waiting x ≡ [] → Heard ps s t x
  Heard-quiet ps s t none h = tt
  Heard-quiet ps s t (some []) h = tt
  Heard-quiet ps s t (some (v ∷ vs)) h = absurd (omega (arith, ap length h))

  -- Pulse processes all that waits.
  pub record Pulsed (view : ℕ → ℕ → Option (List M)) (n : ℕ)
      (o : Option (NetWorker M × List (Info × M))) : Type 0 where
    pub stepped : Stepped view n pulses o
    pub all : (s t : ℕ) → from s t stepped.out ≡ waiting (view s t)

  pub pulse-Pulsed :
      (fuel : ℕ) (w : NetWorker M) (view : ℕ → ℕ → Option (List M)) (n : ℕ)
      → Box w view n
      → n < fuel
      → Pulsed view n (pulse fuel w)
  unfolding pulse
  pulse-Pulsed fuel w view n k h =
      let done =
        process_infos-Answered fuel view n w.posts (record w { posts = [] }) k.slots h k.reserved in
      record {
        stepped = record {
          after = done.after;
          out = done.out;
          later = emptied w.posts view;
          did = done.did;
          box = record {
            slots = λ s t.
                Entry-more (done.after.queues s t) (emptied w.posts view s t) n (suc n)
                  (omega arith) (done.slots s t);
            heard = λ s t.
                Heard-quiet done.after.posts s t (emptied w.posts view s t)
                  (quiet w.posts s t (view s t) (k.heard s t));
            reserved = λ t. still_none (told nobody t w.posts) (view nobody t) (k.reserved t);
          };
          up = λ s t. still_open (told s t w.posts) (view s t);
          all = λ s t.
              rw (done.all s t, quiet w.posts s t (view s t) (k.heard s t))
                (ap (λ us. us ++ []) (told-waiting w.posts s t (view s t) (k.heard s t)));
        };
        all = λ s t. done.all s t ∙ told-waiting w.posts s t (view s t) (k.heard s t);
      }
