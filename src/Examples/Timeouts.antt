-- ===== src/Examples/Timeouts.antt =====
-- The theorems on lists of timeouts at concrete managers.
use gsdm.Base.{
  ℕ, ◌≡◌, refl, true, false, none, some, [], ◌∷◌, arith, inl, inr, Bool-cases, subst, ◌==◌, ==_iff,
}
use gsdm.Timeouts.{
  Manager, add_timeout_event, remove_timeout_event, update_timeout, time_elapsed_timeout, link_last,
}
use gsdm.Base.Order.{mem, rest_true, clash}
use gsdm.Timeouts.Moves.{Listed, add_timeout_event-Listed, remove_timeout_event-Listed}
use gsdm.Timeouts.Expiry.{time_elapsed_timeout-Listed, update_timeout-Listed}

-- Event number `b` gave its last sign of life at the time `b`.
abbrev pub nobody : Manager
nobody = record {
  store = λ b. record { prev = none; next = none; is_add = false; managed = false; heart = b };
  head = none;
  tail = none;
  count = 0;
  timeout = 10;
}

pub nobody-Listed : Listed nobody []
nobody-Listed = record {
  prevs = λ b. refl;
  nexts = λ b. refl;
  adds = λ b. refl;
  heads = refl;
  tails = refl;
  distinct = tt;
  counts = refl;
}

abbrev pub pair : Manager
pair = add_timeout_event (add_timeout_event nobody 1) 7

pub pair-Listed : Listed pair (1 ∷ 7 ∷ [])
pair-Listed =
    add_timeout_event-Listed (add_timeout_event nobody 1) 7 (1 ∷ [])
      (add_timeout_event-Listed nobody 1 [] nobody-Listed)

pub pair_managed : (b : ℕ) → mem b (1 ∷ 7 ∷ []) ≡ true → (pair.store b).managed ≡ true
unfolding add_timeout_event link_last
pair_managed b h = elim (Bool-cases (1 == b)) [
  | inl same ↦ subst (λ c. (pair.store c).managed ≡ true) ((==_iff 1 b).0 same) refl
  | inr apart ↦ elim (Bool-cases (7 == b)) [
    | inl same ↦ subst (λ c. (pair.store c).managed ≡ true) ((==_iff 7 b).0 same) refl
    | inr other ↦
        clash (rest_true (7 == b) false other (rest_true (1 == b) (mem b (7 ∷ [])) apart h)) refl
  ]
]

-- The first event leaves.
remove_timeout_event-Listed_example : Listed (remove_timeout_event pair 1) (7 ∷ [])
remove_timeout_event-Listed_example = remove_timeout_event-Listed pair 1 (1 ∷ 7 ∷ []) pair-Listed

-- The first event becomes the last one.
update_timeout-Listed_example : Listed (update_timeout pair 9 1) (7 ∷ 1 ∷ [])
unfolding add_timeout_event link_last
update_timeout-Listed_example = update_timeout-Listed pair 9 1 (1 ∷ 7 ∷ []) pair-Listed

-- At the time 12, with a period of 10, only the first event is overdue; it is not freed.
time_elapsed_timeout-Listed_example :
    (k : Manager) × ((time_elapsed_timeout (λ b. false) 12 3 pair ≡ some k) × Listed k (7 ∷ 1 ∷ []))
unfolding add_timeout_event link_last
time_elapsed_timeout-Listed_example =
    time_elapsed_timeout-Listed (λ b. false) 12 pair (1 ∷ 7 ∷ []) 3 pair-Listed pair_managed
      (omega arith) (omega arith)
