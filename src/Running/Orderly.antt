-- ===== src/Running/Orderly.antt =====
-- The order of the calls that a worker makes when it ends (sources/gsdm/src/eventdrive/networker.cpp).
use gsdm.Base.{
  ℕ, ◌≡◌, refl, ◌∙◌, Bool, true, false, Option, none, some, List, [], ◌∷◌, ◌++◌, ◌==◌,
  if◌then◌else◌, ◌>>=◌, inl, inr, Bool-cases,
}
use gsdm.Base.Order.{clash}
use gsdm.Running.{
  Status, running, closing, clearing, stopped, Call, closes, clears, Loop, started, body, test,
  round, ask_close,
}

-- A round of the loop, or a call of Close
pub data Step : Loop → Loop → Type 0 where
  rounds : (l : Loop) (pause : ℕ) (answer : Bool) → Step l (round l pause answer)
  closed : (l : Loop) → Step l (ask_close l)

pub data Reachable : Loop → Type 0 where
  at_start : Reachable started
  later : {l m : Loop} → Reachable l → Step l m → Reachable m

-- How far the end has come: not begun, closed, or done
pub data Phase : Type 0 where
  open_phase : Phase
  close_phase : Phase
  done_phase : Phase

-- Clear is called behind Close only, and nothing is called once Clear has answered true.
abbrev pub next_phase : Phase → Call → Option Phase
next_phase open_phase closes = some close_phase
next_phase open_phase (clears b) = none
next_phase close_phase closes = some close_phase
next_phase close_phase (clears true) = some done_phase
next_phase close_phase (clears false) = some close_phase
next_phase done_phase c = none

abbrev pub phase_of : Phase → List Call → Option Phase
phase_of p [] = some p
phase_of p (c ∷ cs) = next_phase p c >>= λ q. phase_of q cs

-- What the status says of the phase: the loop runs on in every phase but the last, and Clear is called in
-- the middle one.
abbrev pub Agrees : Phase → Status → Bool → Type 0
Agrees open_phase running ended = Unit {0}
Agrees open_phase closing ended = Unit {0}
Agrees open_phase clearing ended = ⊥
Agrees open_phase stopped ended = ⊥
Agrees close_phase running ended = ⊥
Agrees close_phase closing ended = Unit {0}
Agrees close_phase clearing ended = Unit {0}
Agrees close_phase stopped ended = ⊥
Agrees done_phase status ended = ended ≡ true

pub record Orderly (l : Loop) : Type 0 where
  pub phase : Phase
  pub calls : phase_of open_phase l.calls ≡ some phase
  pub agrees : Agrees phase l.status l.ended

both_phases :
    (o : Option Phase) (cs : List Call) (c : Call)
    → ((r : Phase) → phase_of r (cs ++ c ∷ []) ≡ (phase_of r cs >>= λ q. next_phase q c))
    → (o >>= λ r. phase_of r (cs ++ c ∷ [])) ≡ ((o >>= λ r. phase_of r cs) >>= λ q. next_phase q c)
both_phases none cs c again = refl
both_phases (some r) cs c again = again r

last_phase : (o : Option Phase) → (o >>= λ q. some q) ≡ o
last_phase none = refl
last_phase (some q) = refl

phase_of-append :
    (cs : List Call) (c : Call) (p : Phase)
    → phase_of p (cs ++ c ∷ []) ≡ (phase_of p cs >>= λ q. next_phase q c)
phase_of-append [] c p = last_phase (next_phase p c)
phase_of-append (d ∷ cs) c p = both_phases (next_phase p d) cs c (λ r. phase_of-append cs c r)

phase_of-last :
    (q : Phase) (cs : List Call) (c : Call)
    → phase_of open_phase cs ≡ some q
    → phase_of open_phase (cs ++ c ∷ []) ≡ next_phase q c
phase_of-last q cs c h = phase_of-append cs c open_phase ∙ rw h refl

ended-Agrees : (p : Phase) (s : Status) (b : Bool) → Agrees p s b → Agrees p s true
ended-Agrees open_phase running b h = tt
ended-Agrees open_phase closing b h = tt
ended-Agrees open_phase clearing b h = h
ended-Agrees open_phase stopped b h = h
ended-Agrees close_phase running b h = h
ended-Agrees close_phase closing b h = tt
ended-Agrees close_phase clearing b h = tt
ended-Agrees close_phase stopped b h = h
ended-Agrees done_phase s b h = refl

closing-Agrees : (p : Phase) (s : Status) (b : Bool) → Agrees p s b → Agrees p closing b
closing-Agrees open_phase s b h = tt
closing-Agrees close_phase s b h = tt
closing-Agrees done_phase s b h = h

body-Orderly :
    (cs : List Call) (b answer : Bool) (p : Phase) (s : Status)
    → phase_of open_phase cs ≡ some p
    → b ≡ false
    → Agrees p s b
    → Orderly (body (record { status = s; ended = b; calls = cs }) answer s)
body-Orderly cs b answer open_phase running c n h = record {
  phase = open_phase;
  calls = c;
  agrees = tt;
}
body-Orderly cs b answer open_phase closing c n h = record {
  phase = close_phase;
  calls = phase_of-last open_phase cs closes c;
  agrees = tt;
}
body-Orderly cs b answer open_phase clearing c n h = absurd h
body-Orderly cs b answer open_phase stopped c n h = absurd h
body-Orderly cs b answer close_phase running c n h = absurd h
body-Orderly cs b answer close_phase closing c n h = record {
  phase = close_phase;
  calls = phase_of-last close_phase cs closes c;
  agrees = tt;
}
body-Orderly cs b true close_phase clearing c n h = record {
  phase = done_phase;
  calls = phase_of-last close_phase cs (clears true) c;
  agrees = refl;
}
body-Orderly cs b false close_phase clearing c n h = record {
  phase = close_phase;
  calls = phase_of-last close_phase cs (clears false) c;
  agrees = tt;
}
body-Orderly cs b answer close_phase stopped c n h = absurd h
body-Orderly cs b answer done_phase s c n h = clash h n

ended-Orderly : (l : Loop) → Orderly l → Orderly (record l { ended = true })
ended-Orderly l o = record {
  phase = o.phase;
  calls = o.calls;
  agrees = ended-Agrees o.phase l.status l.ended o.agrees;
}

paused-Orderly :
    (l m : Loop) (pause : ℕ)
    → Orderly l
    → Orderly m
    → Orderly (if pause == 0 then record l { ended = true } else m)
paused-Orderly l m pause o k = elim (Bool-cases (pause == 0)) [
  | inl over ↦ rw over (ended-Orderly l o)
  | inr on ↦ rw on k
]

test-Orderly :
    (l : Loop) (pause : ℕ) (answer : Bool) (s : Status)
    → Orderly l
    → Orderly (body l answer s)
    → Orderly (test l pause answer s)
test-Orderly l pause answer stopped o k = ended-Orderly l o
test-Orderly l pause answer running o k = paused-Orderly l (body l answer running) pause o k
test-Orderly l pause answer closing o k = paused-Orderly l (body l answer closing) pause o k
test-Orderly l pause answer clearing o k = paused-Orderly l (body l answer clearing) pause o k

either-Orderly :
    (b : Bool) (l m : Loop) → Orderly l → (b ≡ false → Orderly m) → Orderly (if b then l else m)
either-Orderly true l m o k = o
either-Orderly false l m o k = k refl

round-Orderly : (l : Loop) (pause : ℕ) (answer : Bool) → Orderly l → Orderly (round l pause answer)
unfolding round
round-Orderly l pause answer o = either-Orderly l.ended l (test l pause answer l.status) o (λ on.
    test-Orderly l pause answer l.status o
      (body-Orderly l.calls l.ended answer o.phase l.status o.calls on o.agrees))

Step-Orderly : {l m : Loop} → Step l m → Orderly l → Orderly m
unfolding ask_close
Step-Orderly (rounds l pause answer) o = round-Orderly l pause answer o
Step-Orderly (closed l) o = record {
  phase = o.phase;
  calls = o.calls;
  agrees = closing-Agrees o.phase l.status l.ended o.agrees;
}

-- Whenever threads call Close, and whatever Pulse returns, a worker calls Clear of its class behind Close
-- only, calls nothing once Clear has answered true, and is then out of its loop.
pub Reachable-Orderly : {l : Loop} → Reachable l → Orderly l
Reachable-Orderly at_start = record { phase = open_phase; calls = refl; agrees = tt }
Reachable-Orderly (later r s) = Step-Orderly s (Reachable-Orderly r)
