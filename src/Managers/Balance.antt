-- ===== src/Managers/Balance.antt =====
-- AddWorker (sources/gsdm/src/eventdrive/manager.cpp) keeps the counts of the processors even.
use gsdm.Base.{
  ℕ, zero, suc, ◌+◌, ◌<◌, ◌≡◌, refl, sym, ap, ◌∙◌, true, false, some, List, [], ◌∷◌, ◌++◌,
  if◌then◌else◌, ◌==◌, ==_iff, inl, inr, ◌⊎◌, Bool-cases, length, arith, subst, append_assoc,
  append-nil,
}
use gsdm.Base.Int.{ℤ, pos, negsuc}
use gsdm.Base.Order.{mem, mem-append, clash}
use gsdm.Managers.{int_max, Manager, least, increment, new_worker, choose, add_worker, add_workers}
use gsdm.Managers.Least.{AllHigh, AllNear, Split, first_low, least-front, increment-front}

-- The processors that are not detached have `low` or `low + 1` workers, one of them `low`.
pub record Balanced (low : ℕ) (cpu : List ℕ) : Type 0 where
  pub near : AllNear low cpu
  pub found : mem low cpu ≡ true

AllNear-append :
    (low : ℕ) (xs ys : List ℕ) → AllNear low xs → AllNear low ys → AllNear low (xs ++ ys)
AllNear-append low [] ys h k = k
AllNear-append low (x ∷ xs) ys (here, h) k = (here, AllNear-append low xs ys h k)

AllNear-high : (low : ℕ) (xs : List ℕ) → AllHigh low xs → AllNear low xs
AllNear-high low [] h = tt
AllNear-high low (x ∷ xs) (here, h) = (inr here, AllNear-high low xs h)

AllNear-next : (low : ℕ) (xs : List ℕ) → AllHigh low xs → AllNear (suc low) xs
AllNear-next low [] h = tt
AllNear-next low (x ∷ xs) (inl top, h) = (inr (inl top), AllNear-next low xs h)
AllNear-next low (x ∷ xs) (inr next, h) = (inl next, AllNear-next low xs h)

high_left : (low : ℕ) (xs : List ℕ) → AllNear low xs → mem low xs ≡ false → AllHigh low xs
high_left low [] near h = tt
high_left low (x ∷ xs) (inl here, near) h = clash (rw ((==_iff x low).1 here) refl) h
high_left low (x ∷ xs) (inr high, near) h = elim (Bool-cases (x == low)) [
  | inl here ↦ clash (rw here refl) h
  | inr other ↦ (high, high_left low xs near (sym (rw other refl) ∙ h))
]

mem_behind : (a : ℕ) (xs ys : List ℕ) → mem a ys ≡ true → mem a (xs ++ ys) ≡ true
mem_behind a xs ys h =
    mem-append a xs ys
    ∙ elim (Bool-cases (mem a xs)) [ inl here ↦ rw here refl | inr other ↦ rw (other, h) refl ]

-- With one worker more on the first of the processors that have fewest.
Balanced-split :
    (low : ℕ) (front back : List ℕ)
    → AllHigh low front
    → AllNear low back
    → Balanced low (front ++ suc low ∷ back) ⊎ Balanced (suc low) (front ++ suc low ∷ back)
Balanced-split low front back high near = elim (Bool-cases (mem low back)) [
  | inl more ↦ inl (record {
    near =
        AllNear-append low front (suc low ∷ back) (AllNear-high low front high)
          (inr (inr refl), near);
    found = mem_behind low front (suc low ∷ back) (mem_behind low (suc low ∷ []) back more);
  })
  | inr last ↦ inr (record {
    near =
        AllNear-append (suc low) front (suc low ∷ back) (AllNear-next low front high)
          (inl refl, AllNear-next low back (high_left low back near last));
    found =
        mem_behind (suc low) front (suc low ∷ back) (rw ((==_iff (suc low) (suc low)).1 refl) refl);
  })
]

-- The workers that are bound to the processors that are not detached
abbrev pub total : List ℕ → ℕ
total [] = 0
total (c ∷ cs) = (if c == int_max then 0 else c) + total cs

total-front :
    (low : ℕ) (front back : List ℕ)
    → suc low < int_max
    → total (front ++ suc low ∷ back) ≡ suc (total (front ++ low ∷ back))
total-front low [] back h = rw (below low (omega (arith, h)), below (suc low) h) (omega arith)
  where
    below : (c : ℕ) → c < int_max → (c == int_max) ≡ false
    below c less = elim (Bool-cases (c == int_max)) [
      | inl top ↦ absurd (omega (arith, (==_iff c int_max).0 top, less))
      | inr other ↦ other
    ]
total-front low (c ∷ front) back h = omega (arith, total-front low front back h)

-- The processor is there and not detached.
abbrev pub IsAttached : List ℕ → ℕ → Type 0
IsAttached [] i = ⊥
IsAttached (c ∷ cs) zero = c < int_max
IsAttached (c ∷ cs) (suc i) = IsAttached cs i

abbrev pub AllAttached : List ℕ → List (ℕ × ℤ) → Type 0
AllAttached cpu [] = Unit {0}
AllAttached cpu ((id, pos i) ∷ ws) = IsAttached cpu i × AllAttached cpu ws
AllAttached cpu ((id, negsuc i) ∷ ws) = ⊥

IsAttached-front :
    (low : ℕ) (front back : List ℕ)
    → low < int_max
    → IsAttached (front ++ low ∷ back) (length front)
IsAttached-front low [] back h = h
IsAttached-front low (c ∷ front) back h = IsAttached-front low front back h

IsAttached-less :
    (low i : ℕ) (front back : List ℕ)
    → IsAttached (front ++ suc low ∷ back) i
    → IsAttached (front ++ low ∷ back) i
IsAttached-less low zero [] back h = omega (arith, h)
IsAttached-less low (suc i) [] back h = h
IsAttached-less low zero (c ∷ front) back h = h
IsAttached-less low (suc i) (c ∷ front) back h = IsAttached-less low i front back h

AllAttached-back :
    (before after : List ℕ) (ws : List (ℕ × ℤ))
    → ((i : ℕ) → IsAttached after i → IsAttached before i)
    → AllAttached after ws
    → AllAttached before ws
AllAttached-back before after [] back h = tt
AllAttached-back before after ((id, pos i) ∷ ws) back (here, h) =
    (back i here, AllAttached-back before after ws back h)
AllAttached-back before after ((id, negsuc i) ∷ ws) back h = absurd h

-- One worker more, on a processor that has fewest.
record Evened (low : ℕ) (m m' : Manager) : Type 0 where
  sum : total m'.cpu ≡ suc (total m.cpu)
  even : Balanced low m'.cpu ⊎ Balanced (suc low) m'.cpu
  place : ℕ
  told : m'.worker ≡ m.worker ++ (m.worker_id, pos place) ∷ []
  here : IsAttached m.cpu place
  kept : (i : ℕ) → IsAttached m'.cpu i → IsAttached m.cpu i

choose-Split :
    (m : Manager) (low : ℕ) (cs : List ℕ)
    → m.cpu ≡ cs
    → suc low < int_max
    → Split low cs
    → (m' : Manager) × ((choose m cs ≡ some m') × Evened low m m')
choose-Split m low [] same h s = absurd (not_empty s.front s.back s.parts)
  where
    not_empty : (front back : List ℕ) → [] ≡ front ++ low ∷ back → ⊥
    not_empty [] back e = omega (arith, ap length e)
    not_empty (x ∷ front) back e = omega (arith, ap length e)
choose-Split m low (c ∷ cs) same more s =
    let h : low < int_max = omega (arith, more) in
    let place : least (c ∷ cs) int_max 0 0 ≡ length s.front =
      ap (λ ds. least ds int_max 0 0) s.parts
      ∙ least-front low s.front s.back int_max 0 0 h h s.high s.near
      ∙ omega arith in
    let counted : increment (c ∷ cs) (length s.front) ≡ some (s.front ++ suc low ∷ s.back) =
      ap (λ ds. increment ds (length s.front)) s.parts ∙ increment-front low s.front s.back h in
    let parts : s.front ++ low ∷ s.back ≡ m.cpu = sym (same ∙ s.parts) in
    (
      new_worker (record m { cpu = s.front ++ suc low ∷ s.back }) (pos (length s.front)),
      (
        rw (place, counted) refl,
        record {
          sum = total-front low s.front s.back more ∙ ap (λ ds. suc (total ds)) parts;
          even = Balanced-split low s.front s.back s.high s.near;
          place = length s.front;
          told = refl;
          here =
              subst (λ ds. IsAttached ds (length s.front)) parts
                (IsAttached-front low s.front s.back h);
          kept =
              λ i a. subst (λ ds. IsAttached ds i) parts (IsAttached-less low i s.front s.back a);
        },
      ),
    )

-- What `n` calls of AddWorker come to: new workers behind the old ones, each on a processor that is not
-- detached, and counts that are even.
pub record Added (n : ℕ) (m m' : Manager) : Type 0 where
  pub low : ℕ
  pub even : Balanced low m'.cpu
  pub sum : total m'.cpu ≡ total m.cpu + n
  pub added : List (ℕ × ℤ)
  pub workers : m'.worker ≡ m.worker ++ added
  pub number : length added ≡ n
  pub bound : AllAttached m.cpu added

Added-first : (n low : ℕ) (m m' k : Manager) → Evened low m m' → Added n m' k → Added (suc n) m k
Added-first n low m m' k e a = record {
  low = a.low;
  even = a.even;
  sum = omega (arith, a.sum, e.sum);
  added = (m.worker_id, pos e.place) ∷ a.added;
  workers =
      a.workers
      ∙ ap (λ ws. ws ++ a.added) e.told
      ∙ append_assoc m.worker ((m.worker_id, pos e.place) ∷ []) a.added;
  number = ap suc a.number;
  bound = (e.here, AllAttached-back m.cpu m'.cpu a.added e.kept a.bound);
}

-- Workers are added as evenly as can be: as long as no count reaches the limit of its type, calls of
-- AddWorker do not overflow, each puts a worker behind the others that is bound to a processor that is not
-- detached, and the counts of these processors differ by one at most.
pub add_workers-Balanced :
    (n : ℕ) (m : Manager) (low : ℕ)
    → Balanced low m.cpu
    → suc (low + n) < int_max
    → (m' : Manager) × ((add_workers n m ≡ some m') × Added n m m')
unfolding add_workers add_worker
add_workers-Balanced zero m low k h = (
  m,
  (
    refl,
    record {
      low = low;
      even = k;
      sum = omega arith;
      added = [];
      workers = sym (append-nil m.worker);
      number = refl;
      bound = tt;
    },
  ),
)
add_workers-Balanced (suc n) m low k h =
    let small : low < int_max = omega (arith, h) in
    let (m', (did, one)) =
      choose-Split m low m.cpu refl (omega (arith, h)) (first_low low m.cpu small k.near k.found) in
    rw did (elim one.even [
      | inl same ↦ counted m' one (add_workers-Balanced n m' low same (omega (arith, h)))
      | inr next ↦ counted m' one (add_workers-Balanced n m' (suc low) next (omega (arith, h)))
    ])
  where
    counted :
        (m' : Manager)
        → Evened low m m'
        → (k : Manager) × ((add_workers n m' ≡ some k) × Added n m' k)
        → (k : Manager) × ((add_workers n m' ≡ some k) × Added (suc n) m k)
    counted m' one (k, (did, a)) = (k, (did, Added-first n low m m' k one a))
