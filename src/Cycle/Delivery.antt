-- ===== src/Cycle/Delivery.antt =====
-- Any order of sends and receives (sources/gsdm/src/eventdrive/networker.cpp and
-- sources/gsdm/include/utils/container.h).
use gsdm.Base.{
  map, ◌≤◌, ℕ, zero, suc, ◌+◌, ◌<◌, ◌≡◌, refl, sym, ap, ◌∙◌, Option, none, some, List, [], ◌∷◌,
  ◌++◌, ◌>>=◌, length, arith, append_assoc, append-nil, subst,
}
use gsdm.Cycle.{Mail, Allocator, send, receive, process_cmd, process_next}
use gsdm.Cycle.Fifo.{Waits, Taken, send-Waits, receive-Waits}

pub data Op (M : Type 0) : Type 0 where
  sending : M → Op M
  receiving : Op M

module _ {M : Type 0} where
  -- What the sender has sent.
  abbrev pub sent : List (Op M) → List M
  sent [] = []
  sent (sending v ∷ ops) = v ∷ sent ops
  sent (receiving ∷ ops) = sent ops

  abbrev pub process_on : Option (Mail M × List M) → Option M → Option (Mail M × List M)
  process_on rest none = rest
  process_on rest (some v) = do (b, vs) ← rest; some (b, v ∷ vs)

  -- The two workers in any order: the queue at the end, and what was received.
  pub exec : Allocator → ℕ → List (Op M) → Mail M → Option (Mail M × List M)
  exec alloc fuel [] b = some (b, [])
  exec alloc fuel (sending v ∷ ops) b = do b' ← send alloc fuel b v; exec alloc fuel ops b'
  exec alloc fuel (receiving ∷ ops) b = do
    (b', r) ← receive b
    process_on (exec alloc fuel ops b') r

  -- What was received and sent, in order: all that was received, followed by what still waits.
  abbrev pub Delivered : List M → Option (Mail M × List M) → Type 0
  Delivered all o =
      (b : Mail M) × ((got : List M) × ((rest : List M) × ((n : ℕ) × ((o ≡ some (b, got))
              × (Waits b rest n × (got ++ rest ≡ all))))))

  Delivered-process_on :
      (r : Option M) (o : Option (Mail M × List M)) (vs rest later : List M)
      → Taken r vs rest
      → Delivered (rest ++ later) o
      → Delivered (vs ++ later) (process_on o r)
  Delivered-process_on none o vs rest later (empty, gone) d =
      subst (λ us. Delivered (us ++ later) o) (gone ∙ sym empty) d
  Delivered-process_on (some v) o vs rest later e (b, (got, (left, (n, (did, (w, all)))))) = (
    b,
    (v ∷ got, (left, (n, (rw did refl, (w, ap (λ l. v ∷ l) all ∙ ap (λ l. l ++ later) (sym e)))))),
  )

  module _ (alloc : Allocator) (fuel : ℕ) where
    -- Two workers send and receive in any order: nothing faults, and the commands are received in the order
    -- in which they were sent, each once and with its fields; the others still wait, in order.
    pub exec-Delivered :
        (ops : List (Op M)) (b : Mail M) (vs : List M) (n : ℕ)
        → Waits b vs n
        → n + length ops < fuel
        → Delivered (vs ++ sent ops) (exec alloc fuel ops b)
    unfolding exec
    exec-Delivered [] b vs n w h = (b, ([], (vs, (n, (refl, (w, sym (append-nil vs)))))))
    exec-Delivered (sending v ∷ ops) b vs n w h =
        let (b', (did, waits)) = send-Waits alloc fuel b v vs n w (omega (arith, h)) in
        rw did (
          subst (λ us. Delivered us (exec alloc fuel ops b')) (append_assoc vs (v ∷ []) (sent ops))
            (exec-Delivered ops b' (vs ++ v ∷ []) (suc n) waits (omega (arith, h))))
    exec-Delivered (receiving ∷ ops) b vs n w h =
        let (b', (r, (rest, (did, (waits, taken))))) = receive-Waits b vs n w in
        rw did (
          Delivered-process_on r (exec alloc fuel ops b') vs rest (sent ops) taken
            (exec-Delivered ops b' rest n waits (omega (arith, h))))

  abbrev Emptied : ℕ → List M → Option (Mail M × List M) → Type 0
  Emptied n vs o = (b' : Mail M) × ((o ≡ some (b', vs)) × Waits b' [] n)

  Emptied-process_next :
      (o : Option (Mail M × List M)) (b : Mail M) (vs rest : List M) (n : ℕ) (r : Option M)
      → Taken r vs rest
      → Waits b rest n
      → (length rest < length vs → Emptied n rest o)
      → Emptied n vs (process_next o b r)
  Emptied-process_next o b vs rest n none (empty, gone) w again =
      (b, (rw empty refl, subst (λ us. Waits b us n) gone w))
  Emptied-process_next o b vs rest n (some v) e w again =
      let (k, (all, done)) = again (omega (arith, ap length e)) in (k, (rw (all, e) refl, done))

  -- ProcessCmd ends, with one round more than commands wait, and processes all of them in order.
  pub process_cmd-Emptied :
      (fuel : ℕ) (b : Mail M) (vs : List M) (n : ℕ)
      → Waits b vs n
      → length vs < fuel
      → (b' : Mail M) × ((process_cmd fuel b ≡ some (b', vs)) × Waits b' [] n)
  unfolding process_cmd
  process_cmd-Emptied zero b vs n w h = absurd (omega (arith, h))
  process_cmd-Emptied (suc fuel) b vs n w h =
      let (b', (r, (rest, (did, (waits, taken))))) = receive-Waits b vs n w in
      rw did (
        Emptied-process_next (process_cmd fuel b') b' vs rest n r taken waits
          (λ less. process_cmd-Emptied fuel b' rest n waits (omega (arith, h, less))))

  length-map : (f : ℕ → M) (xs : List ℕ) → length (map f xs) ≡ length xs
  length-map f [] = refl
  length-map f (x ∷ xs) = ap suc (length-map f xs)

  pub length-Waits : (b : Mail M) (vs : List M) (n : ℕ) → Waits b vs n → length vs ≤ n
  length-Waits b vs n w = omega (arith, ap length w.values, length-map b.fields w.ds, w.nodes)
