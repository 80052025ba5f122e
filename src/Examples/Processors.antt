-- ===== src/Examples/Processors.antt =====
-- The theorem on the processors at three, one of them detached.
use gsdm.Base.{◌≡◌, refl, some, [], ◌∷◌, arith, inl, inr}
use gsdm.Managers.{Manager, int_max, add_workers}
use gsdm.Managers.Balance.{Balanced, Added, add_workers-Balanced}

abbrev three_processors : Manager
three_processors = record { cpu = 0 ∷ int_max ∷ 0 ∷ []; worker_id = 0; worker = [] }

three_processors-Balanced : Balanced 0 three_processors.cpu
three_processors-Balanced = record {
  near = (inl refl, (inr (inl refl), (inl refl, tt)));
  found = refl;
}

add_workers-Balanced_example :
    (m : Manager) × ((add_workers 5 three_processors ≡ some m) × Added 5 three_processors m)
add_workers-Balanced_example =
    add_workers-Balanced 5 three_processors 0 three_processors-Balanced (omega arith)
