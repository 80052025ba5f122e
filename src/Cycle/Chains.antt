-- ===== src/Cycle/Chains.antt =====
-- Nodes that are linked one behind the other (sources/gsdm/include/utils/container.h).
use gsdm.Base.{
  ℕ, ◌≡◌, refl, sym, ◌∙◌, true, false, Option, none, some, List, [], ◌∷◌, ◌++◌, inl, inr,
  Bool-cases, subst, ◌==◌, ==_iff,
}
use gsdm.Base.Order.{mem, Distinct, first_or, mem_tail, clash}
use gsdm.Cycle.{Node, Store, look, put}

abbrev pub last : ℕ → List ℕ → ℕ
last x [] = x
last x (y ∷ ys) = last y ys

abbrev pub Chain : Store → List ℕ → Type 0
Chain s [] = Unit {0}
Chain s (x ∷ xs) = (n : Node) × ((look s x ≡ some n) × ((n.next ≡ first_or none xs) × Chain s xs))

pub put_other :
    (s : Store) (a b : ℕ) (o : Option Node) → a == b ≡ false → look (put s a o) b ≡ look s b
put_other s a b o h = rw h refl

pub put_same : (s : Store) (a : ℕ) (o : Option Node) → look (put s a o) a ≡ o
put_same s a o = rw ((==_iff a a).1 refl) refl

not_equal : (a x : ℕ) (xs : List ℕ) → mem a (x ∷ xs) ≡ false → a == x ≡ false
not_equal a x xs h = elim (Bool-cases (a == x)) [
  | inl same ↦ clash ((==_iff x a).1 (sym ((==_iff a x).0 same))) ((mem_tail x a xs h).0)
  | inr apart ↦ apart
]

-- A change of another node leaves a chain.
pub Chain-put :
    (s : Store) (a : ℕ) (o : Option Node) (xs : List ℕ)
    → mem a xs ≡ false
    → Chain s xs
    → Chain (put s a o) xs
Chain-put s a o [] h c = c
Chain-put s a o (x ∷ xs) h (n, (at, (next, rest))) = (
  n,
  (
    put_other s a x o (not_equal a x xs h) ∙ at,
    (next, Chain-put s a o xs ((mem_tail x a xs h).1) rest),
  ),
)

-- The last node is there, and nothing is behind it.
pub Chain-last :
    (s : Store) (x : ℕ) (xs : List ℕ)
    → Chain s (x ∷ xs)
    → (n : Node) × ((look s (last x xs) ≡ some n) × (n.next ≡ none))
Chain-last s x [] (n, (at, (next, rest))) = (n, (at, next))
Chain-last s x (y ∷ ys) (n, (at, (next, rest))) = Chain-last s y ys rest

pub last_in : (x : ℕ) (xs : List ℕ) → mem (last x xs) (x ∷ xs) ≡ true
last_in x [] = rw ((==_iff x x).1 refl) refl
last_in x (y ∷ ys) = elim (Bool-cases (x == last y ys)) [
  | inl same ↦ rw same refl
  | inr apart ↦ rw apart (last_in y ys)
]

apart_from : (a b : ℕ) (xs : List ℕ) → mem a xs ≡ false → mem b xs ≡ true → b == a ≡ false
apart_from a b xs out h = elim (Bool-cases (b == a)) [
  | inl same ↦ clash h (subst (λ c. mem c xs ≡ false) (sym ((==_iff b a).0 same)) out)
  | inr apart ↦ apart
]

-- A node that is linked behind the last one.
pub Chain-append :
    (s : Store) (x : ℕ) (xs : List ℕ) (a : ℕ) (na n : Node)
    → Distinct (x ∷ xs)
    → mem a (x ∷ xs) ≡ false
    → look s a ≡ some na
    → na.next ≡ none
    → look s (last x xs) ≡ some n
    → Chain s (x ∷ xs)
    → Chain (put s (last x xs) (some (record n { next = some a }))) (x ∷ xs ++ a ∷ [])
Chain-append s x [] a na n d out ha hn hl (m, (at, (next, rest))) = (
  record n { next = some a },
  (put_same s x _, (refl, (na, (put_other s x a _ ((mem_tail x a [] out).0) ∙ ha, (hn, tt))))),
)
Chain-append s x (y ∷ ys) a na n d out ha hn hl (m, (at, (next, rest))) = (
  m,
  (
    put_other s (last y ys) x _ (apart_from x (last y ys) (y ∷ ys) (d.0) (last_in y ys)) ∙ at,
    (next, Chain-append s y ys a na n (d.1) ((mem_tail x a (y ∷ ys) out).1) ha hn hl rest),
  ),
)
