-- ===== src/Headers/Lines.antt =====
-- The loops over lines and arguments (sources/gsdm/src/protocols/httpprotocol.cpp and
-- wsprotocol.cpp) read back what is written line by line and argument by argument.
use gsdm.Base.{
  ℕ, zero, suc, ◌≤◌, ◌<◌, ◌≡◌, refl, Bool, true, Option, some, List, [], ◌∷◌, ◌++◌, arith, length,
  length-append,
}
use gsdm.Text.Cut.{cut_at, Without, Without-append, cut_at-append, cut_at-Without}
use gsdm.Headers.{
  crlf, colon, ampersand, set_arg, after_ampersand, parse_args, set_field, after_line, parse_lines,
}
use gsdm.Headers.Maps.{Dict, set, set_all}

-- `key: value`
abbrev pub line_of : List ℕ × List ℕ → List ℕ
line_of (k, v) = k ++ (58 ∷ 32 ∷ v)

-- Texts with a separator between them.
abbrev pub joined : List ℕ → (List ℕ × List ℕ → List ℕ) → Dict → List ℕ
joined separator print [] = []
joined separator print (e ∷ []) = print e
joined separator print (e ∷ f ∷ es) = print e ++ (separator ++ joined separator print (f ∷ es))

-- A key without a colon, and no carriage return in key and value.
abbrev pub IsField : List ℕ × List ℕ → Type 0
IsField (k, v) = Without 58 k × (Without 13 k × Without 13 v)

abbrev pub AllFields : Dict → Type 0
AllFields [] = Unit {0}
AllFields (e ∷ es) = IsField e × AllFields es

set_field-line_of :
    (beyond : Option (List ℕ)) (k v : List ℕ) (d : Dict)
    → Without 58 k
    → set_field beyond (cut_at colon (line_of (k, v))) d ≡ some (set k v d, true)
unfolding set_field
set_field-line_of beyond k v d h = rw (cut_at-append 58 [] k (32 ∷ v) h) refl

line_of-Without : (e : List ℕ × List ℕ) → IsField e → Without 13 (line_of e)
line_of-Without (k, v) (h, (hk, hv)) = Without-append 13 k (58 ∷ 32 ∷ v) hk (refl, (refl, hv))

-- The lines of any header with fields are read in order.
pub parse_lines-joined :
    (fuel : ℕ) (lenient : Bool) (beyond : Option (List ℕ)) (e : List ℕ × List ℕ) (es d : Dict)
    → AllFields (e ∷ es)
    → length es < fuel
    → parse_lines fuel lenient beyond (joined crlf line_of (e ∷ es)) d
      ≡ some (set_all (e ∷ es) d, true)
unfolding parse_lines after_line
parse_lines-joined zero lenient beyond e es d h room = absurd (omega arith)
parse_lines-joined (suc fuel) lenient beyond (k, v) [] d (h, hs) room =
    rw
      (
        cut_at-Without 13 (10 ∷ []) (line_of (k, v)) (line_of-Without (k, v) h),
        set_field-line_of beyond k v d h.0,
      )
      refl
parse_lines-joined (suc fuel) lenient beyond (k, v) (f ∷ es) d (h, hs) room =
    rw
      (
        cut_at-append 13 (10 ∷ []) (line_of (k, v)) (joined crlf line_of (f ∷ es))
            (line_of-Without (k, v) h),
        set_field-line_of (some (10 ∷ joined crlf line_of (f ∷ es))) k v d h.0,
      )
      (parse_lines-joined fuel lenient beyond f es (set k v d) hs (omega arith))

-- `key=value`
abbrev pub arg_of : List ℕ × List ℕ → List ℕ
arg_of (k, v) = k ++ (61 ∷ v)

abbrev pub IsArg : List ℕ × List ℕ → Type 0
IsArg (k, v) = Without 61 k × (Without 38 k × Without 38 v)

abbrev pub AllArgs : Dict → Type 0
AllArgs [] = Unit {0}
AllArgs (e ∷ es) = IsArg e × AllArgs es

set_arg-arg_of : (k v : List ℕ) (d : Dict) → Without 61 k → set_arg (arg_of (k, v)) d ≡ set k v d
unfolding set_arg
set_arg-arg_of k v d h = rw (cut_at-append 61 [] k v h, set_arg) refl

arg_of-Without : (e : List ℕ × List ℕ) → IsArg e → Without 38 (arg_of e)
arg_of-Without (k, v) (h, (hk, hv)) = Without-append 38 k (61 ∷ v) hk (refl, hv)

pub parse_args-joined :
    (fuel : ℕ) (e : List ℕ × List ℕ) (es d : Dict)
    → AllArgs (e ∷ es)
    → length es < fuel
    → parse_args fuel (joined ampersand arg_of (e ∷ es)) d ≡ some (set_all (e ∷ es) d)
unfolding parse_args after_ampersand
parse_args-joined zero e es d h room = absurd (omega arith)
parse_args-joined (suc fuel) (k, v) [] d (h, hs) room =
    rw (cut_at-Without 38 [] (arg_of (k, v)) (arg_of-Without (k, v) h), set_arg-arg_of k v d h.0)
      refl
parse_args-joined (suc fuel) (k, v) (f ∷ es) d (h, hs) room =
    rw
      (
        cut_at-append 38 [] (arg_of (k, v)) (joined ampersand arg_of (f ∷ es))
            (arg_of-Without (k, v) h),
        set_arg-arg_of k v d h.0,
      )
      (parse_args-joined fuel f es (set k v d) hs (omega arith))

-- A text of lines has more characters than lines.
pub length-joined_ge :
    (c : ℕ) (cs : List ℕ) (print : List ℕ × List ℕ → List ℕ) (e : List ℕ × List ℕ) (es : Dict)
    → length es ≤ length (joined (c ∷ cs) print (e ∷ es))
length-joined_ge c cs print e [] = omega arith
length-joined_ge c cs print e (f ∷ es) = omega (
  arith,
  length-append {0} (print e) ((c ∷ cs) ++ joined (c ∷ cs) print (f ∷ es)),
  length-append {0} (c ∷ cs) (joined (c ∷ cs) print (f ∷ es)),
  length-joined_ge c cs print f es,
)
