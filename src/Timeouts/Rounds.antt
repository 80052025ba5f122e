-- ===== src/Timeouts/Rounds.antt =====
-- The rounds of TimeoutManager::TimeElapsedTimeout (sources/gsdm/src/utils/timersmanager.cpp).
use gsdm.Base.{
  ℕ, ◌≡◌, refl, sym, ap, ◌∙◌, Bool, true, false, Option, none, some, List, [], ◌∷◌, ◌++◌, inl, inr,
  Bool-cases, subst, ◌==◌, ==_iff, if◌then◌else◌, append_assoc,
}
use gsdm.Timeouts.{Manager, change, destroyed, out_of, take_first, done_timeout, update_timeout}
use gsdm.Base.Order.{mem, ahead, behind, behind_out, ahead_out, rest_true, clash}
use gsdm.Timeouts.Ends.{mem_added}
use gsdm.Timeouts.Fields.{set_at, keep_at}
use gsdm.Base.Distinct.{mem_split}
use gsdm.Timeouts.Linked.{Shows, start}
use gsdm.Timeouts.Elapse.{take_first-Shows}
use gsdm.Timeouts.Renewed.{update-Shows, update_heart, update_managed, update_period}

-- What the loop works on: `todo` is still as it was before the loop, `back` was given a new life.
pub record Going (heart : ℕ → ℕ) (now period : ℕ) (m : Manager) (todo back : List ℕ) : Type 0 where
  pub front : Option ℕ
  pub rear : Option ℕ
  pub shows : Shows front rear m (todo ++ back)
  pub hearts : (b : ℕ) → mem b todo ≡ true → (m.store b).heart ≡ heart b
  pub fresh : (b : ℕ) → mem b back ≡ true → (m.store b).heart ≡ now
  pub managed : (b : ℕ) → mem b todo ≡ true → (m.store b).managed ≡ true
  pub same_period : m.timeout ≡ period

later : (x b : ℕ) (xs : List ℕ) → mem b xs ≡ true → mem b (x ∷ xs) ≡ true
later x b xs h = elim (Bool-cases (x == b)) [
  | inl same ↦ rw same refl
  | inr apart ↦ rw (apart, h) refl
]

unlike : (x b : ℕ) (xs : List ℕ) → mem x xs ≡ false → mem b xs ≡ true → x == b ≡ false
unlike x b xs out h = elim (Bool-cases (x == b)) [
  | inl same ↦ clash h (subst (λ c. mem c xs ≡ false) ((==_iff x b).0 same) out)
  | inr apart ↦ apart
]

absent {ℓ} :
    {A : Type ℓ} (x b : ℕ) (get : ℕ → A) (u : A) → get x ≡ u → (if x == b then u else get b) ≡ get b
absent x b get u h = elim (Bool-cases (x == b)) [
  | inl same ↦ rw same (sym (subst (λ c. get c ≡ u) ((==_iff x b).0 same) h))
  | inr apart ↦ rw apart refl
]

-- An event that is out of the list is freed.
destroyed-Shows :
    (p t : Option ℕ) (m : Manager) (x : ℕ) (xs : List ℕ)
    → Shows p t m xs
    → mem x xs ≡ false
    → Shows p t (record m { store = change m.store x destroyed }) xs
destroyed-Shows p t m x xs s out = record {
  prevs = λ b.
      set_at (λ e. e.prev) none destroyed (λ e. refl) m.store (some x) b
      ∙ rw (s.prevs b) (absent x b (ahead p xs) none (ahead_out p xs x out));
  nexts = λ b.
      set_at (λ e. e.next) none destroyed (λ e. refl) m.store (some x) b
      ∙ rw (s.nexts b) (absent x b (behind none xs) none (behind_out none xs x out));
  adds = λ b.
      set_at (λ e. e.is_add) false destroyed (λ e. refl) m.store (some x) b
      ∙ rw (s.adds b) (absent x b (λ c. mem c xs) false out);
  heads = s.heads;
  tails = s.tails;
  distinct = s.distinct;
  counts = s.counts;
}

heart_taken : (m : Manager) (x b : ℕ) → ((take_first m x).store b).heart ≡ (m.store b).heart
heart_taken m x b = keep_at (λ e. e.heart) out_of (λ e. refl) m.store (some x) b

managed_taken : (m : Manager) (x b : ℕ) → ((take_first m x).store b).managed ≡ (m.store b).managed
managed_taken m x b = keep_at (λ e. e.managed) out_of (λ e. refl) m.store (some x) b

-- The list of those with a new life after the round of `x`.
abbrev pub kept : (ℕ → Bool) → ℕ → List ℕ → List ℕ
kept do_timeout x back = if do_timeout x then back else back ++ x ∷ []

module _ (heart : ℕ → ℕ) (now period : ℕ) (m : Manager) (x : ℕ) (xs back : List ℕ)
    (g : Going heart now period m (x ∷ xs) back) where
  taken : Shows (some x) (some x) (take_first m x) (xs ++ back)
  taken = take_first-Shows g.front g.rear m x (xs ++ back) g.shows

  not_later : mem x xs ≡ false
  not_later = (mem_split x xs back (g.shows.distinct.0)).0

  freed_round :
      Going heart now period
        (record (take_first m x) { store = change (take_first m x).store x destroyed })
        xs
        back
  freed_round = record {
    front = some x;
    rear = some x;
    shows =
        destroyed-Shows (some x) (some x) (take_first m x) x (xs ++ back) taken
          (g.shows.distinct.0);
    hearts = λ b h.
        keep_at (λ e. e.heart) destroyed (λ e. refl) (take_first m x).store (some x) b
        ∙ heart_taken m x b
        ∙ g.hearts b (later x b xs h);
    fresh = λ b h.
        keep_at (λ e. e.heart) destroyed (λ e. refl) (take_first m x).store (some x) b
        ∙ heart_taken m x b
        ∙ g.fresh b h;
    managed = λ b h.
        set_at (λ e. e.managed) false destroyed (λ e. refl) (take_first m x).store (some x) b
        ∙ ap (λ c. if c then false else ((take_first m x).store b).managed)
            (unlike x b xs not_later h)
        ∙ managed_taken m x b
        ∙ g.managed b (later x b xs h);
    same_period = g.same_period;
  }

  still_managed : ((take_first m x).store x).managed ≡ true
  still_managed = managed_taken m x x ∙ g.managed x (rw ((==_iff x x).1 refl) refl)

  not_listed : ((take_first m x).store x).is_add ≡ false
  not_listed = taken.adds x ∙ g.shows.distinct.0

  heart_after :
      (b : ℕ)
      → ((update_timeout (take_first m x) now x).store b).heart
        ≡ (if x == b then now else (m.store b).heart)
  heart_after b =
      update_heart (take_first m x) now x still_managed not_listed b ∙ rw (heart_taken m x b) refl

  renewed_round : Going heart now period (update_timeout (take_first m x) now x) xs (back ++ x ∷ [])
  renewed_round = record {
    front = start (some x) (xs ++ back);
    rear = some x;
    shows =
        subst
          (λ l.
            Shows (start (some x) (xs ++ back)) (some x) (update_timeout (take_first m x) now x) l)
          (append_assoc xs back (x ∷ []))
          (update-Shows (take_first m x) now x still_managed not_listed (some x) (some x)
            (xs ++ back) taken (g.shows.distinct.0));
    hearts = λ b h. heart_after b ∙ rw (unlike x b xs not_later h) (g.hearts b (later x b xs h));
    fresh = λ b h. heart_after b ∙ now_or b h;
    managed = λ b h.
        update_managed (take_first m x) now x still_managed not_listed b
          (managed_taken m x b ∙ g.managed b (later x b xs h));
    same_period = update_period (take_first m x) now x still_managed not_listed ∙ g.same_period;
  }
    where
      now_or :
          (b : ℕ)
          → mem b (back ++ x ∷ []) ≡ true
          → (if x == b then now else (m.store b).heart) ≡ now
      now_or b h = elim (Bool-cases (x == b)) [
        | inl same ↦ rw same refl
        | inr apart ↦
            rw apart (g.fresh b (rest_true (x == b) (mem b back) apart (mem_added back x b ∙ h)))
      ]

  pub round-Going :
      (do_timeout : ℕ → Bool)
      → Going heart now period
          (done_timeout do_timeout now (take_first m x) x)
          xs
          (kept do_timeout x back)
  round-Going do_timeout = elim (Bool-cases (do_timeout x)) [
    | inl freed ↦ rw freed freed_round
    | inr lives ↦ rw lives renewed_round
  ]
