-- ===== src/Timeouts/Loop.antt =====
-- The loop of TimeoutManager::TimeElapsedTimeout (sources/gsdm/src/utils/timersmanager.cpp), to its end.
use gsdm.Base.{
  ℕ, zero, suc, ◌+◌, ◌^◌, ◌<◌, ◌≡◌, refl, Bool, true, not, none, some, List, [], ◌∷◌, ◌++◌, arith,
  inl, inr, Bool-cases, ==_iff, if◌then◌else◌, length, add64, leb, le→leb,
}
use gsdm.Timeouts.{Manager, check, take_first, done_timeout, repair, time_elapsed_timeout}
use gsdm.Timeouts.Moves.{Listed}
use gsdm.Timeouts.Elapse.{repair-Listed}
use gsdm.Timeouts.Rounds.{Going, kept, round-Going}

-- Which events are overdue, and what is left of a list: the overdue ones in front go, and those that
-- are not freed come back at the end.
abbrev pub expire : (ℕ → Bool) → (ℕ → Bool) → List ℕ → List ℕ → List ℕ
expire overdue do_timeout [] back = back
expire overdue do_timeout (x ∷ xs) back =
    let rest = expire overdue do_timeout xs (kept do_timeout x back) in
    if overdue x then rest else x ∷ xs ++ back

module _ (heart : ℕ → ℕ) (do_timeout : ℕ → Bool) (now period : ℕ)
    (fits : now + period < 2 ^ 64) where
  abbrev pub late : ℕ → Bool
  late x = not (leb now (add64 period (heart x)))

  -- An event with a new life is not overdue.
  fresh_checked :
      (m : Manager) (x : ℕ) (xs : List ℕ)
      → Going heart now period m [] (x ∷ xs)
      → check (m.store x) now m.timeout ≡ true
  unfolding check
  fresh_checked m x xs g =
      rw (g.fresh x (rw ((==_iff x x).1 refl) refl), g.same_period)
        (le→leb now (add64 period now) (omega (arith, fits)))

  checked :
      (m : Manager) (x : ℕ) (xs back : List ℕ)
      → Going heart now period m (x ∷ xs) back
      → check (m.store x) now m.timeout ≡ leb now (add64 period (heart x))
  unfolding check
  checked m x xs back g = rw (g.hearts x (rw ((==_iff x x).1 refl) refl), g.same_period) refl

  pub elapse-Going :
      (fuel : ℕ) (m : Manager) (todo back : List ℕ)
      → Going heart now period m todo back
      → length todo < fuel
      → (k : Manager) × ((time_elapsed_timeout do_timeout now fuel m ≡ some k)
          × Listed k (expire late do_timeout todo back))
  unfolding time_elapsed_timeout
  elapse-Going zero m todo back g h = absurd (omega (arith, h))
  elapse-Going (suc fuel) m [] [] g h =
      (repair m none, (rw (g.shows.heads) refl, repair-Listed g.front g.rear m [] g.shows))
  elapse-Going (suc fuel) m [] (x ∷ xs) g h = (
    repair m (some x),
    (
      rw (g.shows.heads, fresh_checked m x xs g) refl,
      repair-Listed g.front g.rear m (x ∷ xs) g.shows,
    ),
  )
  elapse-Going (suc fuel) m (x ∷ xs) back g h =
      elim (Bool-cases (leb now (add64 period (heart x)))) [
        | inl alive ↦ (
          repair m (some x),
          (
            rw (g.shows.heads, checked m x xs back g, alive) refl,
            rw alive (repair-Listed g.front g.rear m (x ∷ xs ++ back) g.shows),
          ),
        )
        | inr overdue ↦
            let done =
              elapse-Going fuel (done_timeout do_timeout now (take_first m x) x) xs
                (kept do_timeout x back) (round-Going heart now period m x xs back g do_timeout)
                (omega (arith, h)) in
            (
              done.0,
              (
                rw (g.shows.heads, checked m x xs back g, overdue) (done.1.0),
                rw overdue (done.1.1),
              ),
            )
      ]
