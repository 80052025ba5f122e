-- ===== src/Running/Stopping.antt =====
-- A worker that is closed stops (sources/gsdm/src/eventdrive/networker.cpp).
use gsdm.Base.{
  ℕ, ◌<◌, ◌≡◌, sym, ap, ◌∙◌, Bool, true, false, List, [], ◌∷◌, ◌++◌, ◌==◌, ==_iff, inl, inr,
  Bool-cases, arith, append_assoc, append-nil,
}
use gsdm.Running.{clearing, stopped, Call, closes, clears, Loop, round, ask_close}

-- Rounds of the loop, each with what Pulse returned, in which Clear answers false
abbrev pub tries : List ℕ → Loop → Loop
tries [] l = l
tries (pause ∷ ps) l = tries ps (round l pause false)

abbrev pub AllPositive : List ℕ → Type 0
AllPositive [] = Unit {0}
AllPositive (p ∷ ps) = (0 < p) × AllPositive ps

-- The answers of Clear, one for each round
abbrev pub refusals : List ℕ → List Call
refusals [] = []
refusals (p ∷ ps) = clears false ∷ refusals ps

positive_test : (p : ℕ) → 0 < p → p == 0 ≡ false
positive_test p h = elim (Bool-cases (p == 0)) [
  | inl over ↦ absurd (omega (arith, (==_iff p 0).0 over, h))
  | inr on ↦ on
]

tries-clearing :
    (ps : List ℕ) (cs : List Call)
    → AllPositive ps
    → tries ps (record { status = clearing; ended = false; calls = cs })
      ≡ record { status = clearing; ended = false; calls = cs ++ refusals ps }
unfolding round
tries-clearing [] cs h =
    ap (λ ds. record { status = clearing; ended = false; calls = ds }) (sym (append-nil cs))
tries-clearing (p ∷ ps) cs (here, h) = rw (positive_test p here) (
    tries-clearing ps (cs ++ clears false ∷ []) h
    ∙ ap (λ ds. record { status = clearing; ended = false; calls = ds })
        (append_assoc cs (clears false ∷ []) (refusals ps)))

-- A worker that is closed calls Close of its class in the next round, then Clear in each round until it
-- answers true, and leaves its loop then: if Pulse does not return 0, and Close is not called again.
pub ask_close-stops :
    (l : Loop) (first last : ℕ) (answer : Bool) (ps : List ℕ)
    → l.ended ≡ false
    → 0 < first
    → 0 < last
    → AllPositive ps
    → round (tries ps (round (ask_close l) first answer)) last true ≡ record {
      status = stopped;
      ended = true;
      calls = l.calls ++ closes ∷ (refusals ps ++ clears true ∷ []);
    }
unfolding ask_close round
ask_close-stops l first last answer ps on f t h =
    rw
      (
        on,
        positive_test first f,
        tries-clearing ps (l.calls ++ closes ∷ []) h,
        positive_test last t,
      )
      (ap (λ ds. record { status = stopped; ended = true; calls = ds })
        (append_assoc (l.calls ++ closes ∷ []) (refusals ps) (clears true ∷ [])
          ∙ append_assoc l.calls (closes ∷ []) (refusals ps ++ clears true ∷ [])))
