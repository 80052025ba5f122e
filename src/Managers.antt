-- ===== src/Managers.antt =====
-- How EventManager (sources/gsdm/src/eventdrive/manager.cpp) spreads its workers over the processors.
pub mod Least
pub mod Balance
use gsdm.Base.{
  ℕ, zero, suc, Bool, Option, none, some, List, [], ◌∷◌, ◌++◌, if◌then◌else◌, ◌>>=◌, ltb, u32,
}
use gsdm.Base.Int.{ℤ, pos, negsuc}

-- INT32_MAX, the count of a processor that is detached
abbrev pub int_max : ℕ
int_max = 2147483647

-- The counts of the processors (none if workers are not bound), and the workers, each with its number and
-- the processor that it is bound to.
pub record Manager : Type 0 where
  pub cpu : List ℕ
  pub worker_id : ℕ
  pub worker : List (ℕ × ℤ)

-- The loop for the least count
pub least : List ℕ → (min i index : ℕ) → ℕ
least [] min i index = index
least (c ∷ cs) min i index =
    let better = ltb c min in
    least cs (if better then c else min) (suc i) (if better then i else index)

-- `cpu_[index]++`, which must not overflow
pub increment : List ℕ → ℕ → Option (List ℕ)
increment [] index = none
increment (c ∷ cs) zero = if ltb c int_max then some (suc c ∷ cs) else none
increment (c ∷ cs) (suc index) = do rest ← increment cs index; some (c ∷ rest)

abbrev pub new_worker : Manager → ℤ → Manager
new_worker m index = record m {
  worker_id = u32 (suc m.worker_id);
  worker = m.worker ++ (m.worker_id, index) ∷ [];
}

abbrev pub choose : Manager → List ℕ → Option Manager
choose m [] = some (new_worker m (negsuc 0))
choose m (c ∷ cs) = do
  let index = least (c ∷ cs) int_max 0 0
  counts ← increment (c ∷ cs) index
  some (new_worker (record m { cpu = counts }) (pos index))

-- AddWorker
pub add_worker : Manager → Option Manager
add_worker m = choose m m.cpu

pub add_workers : ℕ → Manager → Option Manager
add_workers zero m = some m
add_workers (suc n) m = do m' ← add_worker m; add_workers n m'
