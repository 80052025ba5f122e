-- ===== src/Text/Backwards.antt =====
-- rstrstr (sources/gsdm/src/platform/linuxplatform.cpp).  It steps back through the text and the
-- needle at once, and so reads what stands in front of the needle in memory: `front`, the
-- nearest first.  `none` is a read in front of the text, or further than `front` reaches.
use gsdm.Base.{
  ℕ, suc, ◌+◌, ◌-◌, ◌≡◌, refl, ap, ◌∙◌, Bool, true, false, Option, none, some, List, [], ◌∷◌, ◌++◌,
  ◌||◌, arith, ltb, le→ltb, ◌==◌, ==_iff, if◌then◌else◌, length, length-append, take, ◌<◌, ◌≤◌, ◌^◌,
  Bool-cases, inl, inr,
}
use gsdm.Base.Int.{ℤ, pos, negsuc, int32, int32_small}
use gsdm.Base.Slices.{take_all}

-- The inner loop, from a place of the text on: true at the 0 of the needle's side.
pub compare_back : List ℕ → List ℕ → Option Bool
compare_back [] bp = none
compare_back (s ∷ sp) [] = if s == 0 then some true else none
compare_back (s ∷ sp) (b ∷ bp) =
    let rest = compare_back sp bp in
    if s == 0 then some true else if b == s then rest else some false

-- What the inner loop at a place decides; `rest` is the rest of the search.
pub after_compare : ℕ → Option (Option ℕ) → Option Bool → Option (Option ℕ)
after_compare place rest none = none
after_compare place rest (some true) = some (some place)
after_compare place rest (some false) = rest

-- The outer loop over the text from a place back to its start; `some none` is NULL.
pub search_back : List ℕ → List ℕ → Option (Option ℕ)
search_back sp [] = some none
search_back sp (b ∷ bp) = after_compare (length bp) (search_back sp bp) (compare_back sp (b ∷ bp))

abbrev pub backwards : List ℕ → List ℕ → List ℕ
backwards [] acc = acc
backwards (x ∷ xs) acc = backwards xs (x ∷ acc)

-- The places where the needle has room, from the last one on.
pub from_last : List ℕ → List ℕ → List ℕ
from_last needle text = backwards (take (suc (length text - length needle)) text) []

-- rstrstr, on the length of the text as an `int`; the needle is a literal, whose length fits one.
abbrev pub search_in : List ℕ → List ℕ → List ℕ → ℤ → Option (Option ℕ)
search_in front [] text size = some none
search_in front (n ∷ ns) text (negsuc size) = some none
search_in front (n ∷ ns) text (pos size) =
    if (size == 0) || ltb size (length (n ∷ ns))
    then some none
    else search_back (n ∷ front) (from_last (n ∷ ns) (take size text))

pub rstrstr : List ℕ → List ℕ → List ℕ → Option (Option ℕ)
rstrstr front needle text = search_in front needle text (int32 (length text))

backwards-snoc : (xs acc : List ℕ) (c : ℕ) → backwards (xs ++ c ∷ []) acc ≡ c ∷ backwards xs acc
backwards-snoc [] acc c = refl
backwards-snoc (x ∷ xs) acc c = backwards-snoc xs (x ∷ acc) c

length-backwards : (xs acc : List ℕ) → length (backwards xs acc) ≡ length xs + length acc
length-backwards [] acc = omega arith
length-backwards (x ∷ xs) acc = omega (arith, length-backwards xs (x ∷ acc))

take_snoc : (a : List ℕ) (n : ℕ) (ns : List ℕ) → take (suc (length a)) (a ++ (n ∷ ns)) ≡ a ++ n ∷ []
take_snoc [] n ns = refl
take_snoc (x ∷ xs) n ns = ap (λ r. x ∷ r) (take_snoc xs n ns)

compare_zero : (front bp : List ℕ) → compare_back (0 ∷ front) bp ≡ some true
unfolding compare_back
compare_zero front [] = refl
compare_zero front (b ∷ bp) = refl

search_here :
    (front : List ℕ) (n : ℕ) (bp : List ℕ)
    → (n == 0) ≡ false
    → search_back (n ∷ 0 ∷ front) (n ∷ bp) ≡ some (some (length bp))
unfolding search_back compare_back after_compare
search_here front n bp h = rw (h, (==_iff n n).1 refl, compare_zero front bp) refl

last_places : (n : ℕ) (ns a : List ℕ) → from_last (n ∷ ns) (a ++ (n ∷ ns)) ≡ n ∷ backwards a []
unfolding from_last
last_places n ns a =
    let size : suc (length (a ++ (n ∷ ns)) - length (n ∷ ns)) ≡ suc (length a) =
      omega (arith, length-append {0} a (n ∷ ns)) in
    ap (λ k. backwards (take k (a ++ (n ∷ ns))) []) size
    ∙ ap (λ t. backwards t []) (take_snoc a n ns)
    ∙ backwards-snoc a [] n

-- Where a 0 stands in front of the needle, a text that ends with the needle is found to do so.
pub rstrstr-append :
    (front : List ℕ) (n : ℕ) (ns a : List ℕ)
    → (n == 0) ≡ false
    → length (a ++ (n ∷ ns)) < 2 ^ 31
    → rstrstr (0 ∷ front) (n ∷ ns) (a ++ (n ∷ ns)) ≡ some (some (length a))
unfolding rstrstr
rstrstr-append front n ns a h fits =
    let size = length-append {0} a (n ∷ ns) in
    let some_text : (length (a ++ (n ∷ ns)) == 0) ≡ false = ground (arith, size) in
    let room : ltb (length (a ++ (n ∷ ns))) (length (n ∷ ns)) ≡ false =
      le→ltb _ _ (omega (arith, size)) in
    let place : length (backwards a []) ≡ length a = omega (arith, length-backwards a []) in
    let whole = take_all (length (a ++ (n ∷ ns))) (a ++ (n ∷ ns)) (omega arith) in
    rw
      (
        int32_small (length (a ++ (n ∷ ns))) fits,
        some_text,
        room,
        whole,
        last_places n ns a,
        search_here front n (backwards a []) h,
        place,
      )
      refl

-- The last place of a character.
abbrev pub last_of : ℕ → List ℕ → Option ℕ
last_of n [] = none
last_of n (x ∷ xs) = elim (last_of n xs) [
  | some i ↦ some (suc i)
  | none ↦ if x == n then some 0 else none
]

-- The place of the first one in a text that is read backwards.
abbrev nearest : ℕ → List ℕ → Option ℕ
nearest n [] = none
nearest n (b ∷ bp) = let rest = nearest n bp in if b == n then some (length bp) else rest

search_back-nearest :
    (front : List ℕ) (n : ℕ) (bp : List ℕ)
    → (n == 0) ≡ false
    → search_back (n ∷ 0 ∷ front) bp ≡ some (nearest n bp)
unfolding search_back compare_back after_compare
search_back-nearest front n [] h = refl
search_back-nearest front n (b ∷ bp) h = elim (Bool-cases (b == n)) [
  | inl here ↦ rw (h, here, compare_zero front bp) refl
  | inr other ↦ rw (h, other) (search_back-nearest front n bp h)
]

-- A place in a text that stands behind `k` characters, or the one found there.
abbrev or_there : ℕ → Option ℕ → Option ℕ → Option ℕ
or_there k none o = o
or_there k (some i) o = some (i + k)

nearest-backwards :
    (n : ℕ) (xs acc : List ℕ)
    → nearest n (backwards xs acc) ≡ or_there (length acc) (last_of n xs) (nearest n acc)
nearest-backwards n [] acc = refl
nearest-backwards n (x ∷ xs) acc = nearest-backwards n xs (x ∷ acc) ∙ step (last_of n xs)
  where
    step :
        (o : Option ℕ)
        → or_there (length (x ∷ acc)) o (nearest n (x ∷ acc))
          ≡ or_there
              (length acc)
              (elim o [ some i ↦ some (suc i) | none ↦ if x == n then some 0 else none ])
              (nearest n acc)
    step (some i) = ap some (omega arith)
    step none = elim (Bool-cases (x == n)) [
      | inl here ↦ rw here (ap some (omega arith))
      | inr other ↦ rw other refl
    ]

alone : (o : Option ℕ) → or_there 0 o none ≡ o
alone none = refl
alone (some i) = ap some (omega arith)

-- Where a 0 stands in front of the needle, rstrstr in a text of fewer than 2 ^ 31 characters, not shorter
-- than the needle, finds the last place of the needle's first character among those where the needle has
-- room, whatever its other characters are.
pub rstrstr-last_of :
    (front : List ℕ) (n : ℕ) (ns text : List ℕ)
    → (n == 0) ≡ false
    → length text < 2 ^ 31
    → length (n ∷ ns) ≤ length text
    → rstrstr (0 ∷ front) (n ∷ ns) text
      ≡ some (last_of n (take (suc (length text - length (n ∷ ns))) text))
unfolding rstrstr from_last
rstrstr-last_of front n ns text h fits room =
    let some_text : (length text == 0) ≡ false = ground (arith, room) in
    let there : ltb (length text) (length (n ∷ ns)) ≡ false = le→ltb _ _ (omega (arith, room)) in
    let whole = take_all (length text) text (omega arith) in
    let places : List ℕ = take (suc (length text - length (n ∷ ns))) text in
    rw (int32_small (length text) fits, some_text, there, whole)
      (search_back-nearest front n (backwards places []) h
        ∙ ap some (nearest-backwards n places [] ∙ alone (last_of n places)))
