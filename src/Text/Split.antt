-- ===== src/Text/Split.antt =====
-- split (sources/gsdm/src/platform/linuxplatform.cpp) takes a text apart without loss.
use gsdm.Base.{
  ℕ, zero, suc, ◌+◌, ◌≤◌, ◌<◌, ◌^◌, ◌≡◌, refl, ap, ◌∙◌, Option, none, some, List, [], ◌∷◌, ◌++◌,
  ◌>>=◌, arith, length, take, drop, length-append, u32,
}
use gsdm.Text.{find, after_find, split_from, split}
use gsdm.Text.Search.{At, Found, find-Found}

-- The parts with the separator between them.
abbrev pub join : List ℕ → List (List ℕ) → List ℕ
join separator [] = []
join separator (p ∷ []) = p
join separator (p ∷ q ∷ ps) = p ++ (separator ++ join separator (q ∷ ps))

-- No part has the separator in it.
abbrev pub AllFree : List ℕ → List (List ℕ) → Type 0
AllFree separator [] = Unit {0}
AllFree separator (p ∷ ps) = (find separator p ≡ none) × AllFree separator ps

pub record Parts (separator text : List ℕ) (parts : List (List ℕ)) : Type 0 where
  pub some_part : 1 ≤ length parts
  pub joined : join separator parts ≡ text
  pub free : AllFree separator parts

abbrev pub Splits : List ℕ → List ℕ → Option (List (List ℕ)) → Type 0
Splits separator text o = (parts : List (List ℕ)) × ((o ≡ some parts) × Parts separator text parts)

join_cons :
    (separator p : List ℕ) (ps : List (List ℕ))
    → 1 ≤ length ps
    → join separator (p ∷ ps) ≡ p ++ (separator ++ join separator ps)
join_cons separator p [] h = absurd (omega arith)
join_cons separator p (q ∷ ps) h = refl

module _ (n : ℕ) (ns : List ℕ) (fits : length (n ∷ ns) < 2 ^ 32) where
  abbrev separator : List ℕ
  separator = n ∷ ns

  size_kept : u32 (length separator) ≡ length separator
  size_kept = omega (arith, fits)

  one_part : (text : List ℕ) → find separator text ≡ none → Parts separator text (text ∷ [])
  one_part text h = record { some_part = omega arith; joined = refl; free = (h, tt) }

  more_parts :
      (text : List ℕ) (i : ℕ) (o : Option (List (List ℕ)))
      → At separator text i
      → Splits separator (drop (i + length separator) text) o
      → Splits separator text (o >>= λ parts. some (take i text ∷ parts))
  more_parts text i o at (parts, (e, p)) = (
    take i text ∷ parts,
    (
      rw e refl,
      record {
        some_part = omega arith;
        joined =
            join_cons separator (take i text) parts p.some_part
            ∙ ap (λ t. take i text ++ (separator ++ t)) p.joined
            ∙ at.parts;
        free = (at.free, p.free);
      },
    ),
  )

  -- The rest behind a separator is shorter.
  shorter :
      (text : List ℕ) (i : ℕ)
      → At separator text i
      → length (drop (i + length separator) text) < length text
  shorter text i at =
      let rest = drop (i + length separator) text in
      omega (
        arith,
        ap length at.parts,
        length-append {0} (take i text) (separator ++ rest),
        length-append {0} separator rest,
      )

  after_find-Splits :
      (next : List ℕ → Option (List (List ℕ))) (text : List ℕ) (o : Option ℕ)
      → ((rest : List ℕ) → length rest < length text → Splits separator rest (next rest))
      → find separator text ≡ o
      → Found separator text o
      → Splits separator text (after_find next separator text o)
  unfolding after_find
  after_find-Splits next text none h nowhere found = (text ∷ [], (refl, one_part text nowhere))
  after_find-Splits next text (some i) h there at = rw size_kept (
      more_parts text i (next (drop (i + length separator) text)) at
        (h (drop (i + length separator) text) (shorter text i at)))

  split_from-Splits :
      (fuel : ℕ) (text : List ℕ)
      → length text < fuel
      → Splits separator text (split_from fuel separator text)
  unfolding split_from
  split_from-Splits zero text h = absurd (omega arith)
  split_from-Splits (suc fuel) text h =
      after_find-Splits (split_from fuel separator) text (find separator text)
        (λ rest less. split_from-Splits fuel rest (omega arith)) refl (find-Found n ns text)

  -- split with a separator that is not empty and has fewer than 2 ^ 32 characters ends; the parts that it yields, joined by the
  -- separator, are the text, there is one part at least, and none has the separator in it.
  pub split-Splits : (text : List ℕ) → Splits separator text (split text separator)
  unfolding split
  split-Splits text = split_from-Splits (suc (length text)) text (omega arith)
