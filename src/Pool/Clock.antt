-- ===== src/Pool/Clock.antt =====
-- The timeouts of the PoolSys functions (sources/gsdm/src/pooldrive/poolworkerex.cpp).
use gsdm.Base.{ℕ, ◌+◌, ◌-◌, ◌≤◌, ◌<◌, ◌≢◌, List, [], ◌∷◌, arith, inl, inr, Bool-cases, leb, leb→lt}
use gsdm.Pool.{
  Wake, Step, finished, broken, late, retry, Result, pending, round, next, wait_loop, carry_on,
  start,
}

-- The milliseconds that the waits take together.
abbrev pub total : List Wake → ℕ
total [] = 0
total (w ∷ ws) = w.took + total ws

module _ {S : Type 0} (attempt : S → Wake → Step S) where
  retry-settled :
      (rest : ℕ → S → S × Result) (timeout took : ℕ) (s : S)
      → ((s : S) → took < timeout → (rest (timeout - took) s).1 ≢ pending)
      → (next attempt rest timeout took (retry s)).1 ≢ pending
  unfolding next
  retry-settled rest timeout took s h = elim (Bool-cases (leb timeout took)) [
    | inl over ↦ rw over (λ e. cc)
    | inr early ↦ rw early (h s (leb→lt _ _ early))
  ]

  next-settled :
      (rest : ℕ → S → S × Result) (timeout took : ℕ) (step : Step S)
      → ((s : S) → took < timeout → (rest (timeout - took) s).1 ≢ pending)
      → (next attempt rest timeout took step).1 ≢ pending
  unfolding next
  next-settled rest timeout took (finished s n) h e = cc
  next-settled rest timeout took (broken s) h e = cc
  next-settled rest timeout took (late s) h e = cc
  next-settled rest timeout took (retry s) h e = absurd (retry-settled rest timeout took s h e)

  pub wait_loop-settled :
      (wakes : List Wake) (timeout : ℕ) (s : S)
      → 0 < timeout
      → timeout ≤ total wakes
      → (wait_loop attempt wakes timeout s).1 ≢ pending
  unfolding wait_loop
  wait_loop-settled [] timeout s pos h = absurd (omega arith)
  wait_loop-settled (w ∷ ws) timeout s pos h =
      next-settled (wait_loop attempt ws) timeout w.took (round attempt s w w.waited)
        (λ s' less. wait_loop-settled ws (timeout - w.took) s' (omega arith) (omega arith))

  carry_on-settled :
      (wakes : List Wake) (timeout : ℕ) (step : Step S)
      → 0 < timeout
      → timeout ≤ total wakes
      → (carry_on attempt wakes timeout step).1 ≢ pending
  unfolding carry_on
  carry_on-settled wakes timeout (finished s n) pos h e = cc
  carry_on-settled wakes timeout (broken s) pos h e = cc
  carry_on-settled wakes timeout (late s) pos h e = cc
  carry_on-settled wakes timeout (retry s) pos h e =
      absurd (wait_loop-settled wakes timeout s pos h e)

  -- A call of one of the functions, with a timeout that is not 0, is over when its waits have
  -- taken that time together, whatever the kernel answers.
  pub start-settled :
      (first : Wake) (wakes : List Wake) (timeout : ℕ) (s : S)
      → 0 < timeout
      → timeout ≤ total wakes
      → (start attempt first wakes timeout s).1 ≢ pending
  unfolding start
  start-settled first wakes timeout s pos h = carry_on-settled wakes timeout (attempt s first) pos h
