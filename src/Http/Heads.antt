-- ===== src/Http/Heads.antt =====
-- The head of a request that HTTPGet writes, as ParseHeader reads it
-- (sources/gsdm/src/protocols/httpprotocol.cpp).
use gsdm.Base.{
  ℕ, suc, ◌<◌, ◌≡◌, refl, sym, ap, ◌∙◌, true, false, Option, some, List, [], ◌∷◌, ◌++◌,
  append_assoc, arith, ltb, le→ltb, length,
}
use gsdm.Text.Cut.{codes, Without, Without-of, Without-append, cut_at-append, cut_at-Without}
use gsdm.Headers.{crlf}
use gsdm.Headers.Maps.{Dict, set, set_all}
use gsdm.Headers.Lines.{line_of, joined, AllFields, parse_lines-joined, length-joined_ge}
use gsdm.Http.{
  Http, skip, header_uri, header_version, set_request_header, parse_target, parse_rest, parse_first,
  parse_request_line, parse_header,
}
use gsdm.Http.Writing.{field_lines}
use gsdm.Http.Receiving.{header_end}

two_ends : (a b c d end : List ℕ) → (a ++ (b ++ (c ++ d))) ++ end ≡ (a ++ (b ++ c)) ++ (d ++ end)
two_ends a b c d end = simp append_assoc

field_lines_cons :
    (k v : List ℕ) (d : Dict)
    → field_lines ((k, v) ∷ d) ≡ k ++ (codes ": " ++ (v ++ (crlf ++ field_lines d)))
unfolding field_lines
field_lines_cons k v d = refl

field_lines_nil : field_lines [] ≡ []
unfolding field_lines
field_lines_nil = refl

-- The lines of a map, and an empty line, are the lines with line ends between and two behind.
pub field_lines-joined :
    (e : List ℕ × List ℕ) (es : Dict)
    → field_lines (e ∷ es) ++ crlf ≡ joined crlf line_of (e ∷ es) ++ header_end
field_lines-joined (k, v) [] =
    rw (field_lines_cons k v [], field_lines_nil) (two_ends k (codes ": ") v crlf crlf)
field_lines-joined (k, v) (f ∷ es) = rw (field_lines_cons k v (f ∷ es)) (
    two_ends k (codes ": ") v (crlf ++ field_lines (f ∷ es)) crlf
    ∙ ap (λ t. line_of (k, v) ++ (crlf ++ t)) (field_lines-joined f es)
    ∙ sym (append_assoc (line_of (k, v)) (crlf ++ joined crlf line_of (f ∷ es)) header_end))

-- The request without its end.
abbrev pub request_head : List ℕ → List ℕ × List ℕ → Dict → List ℕ
request_head uri e es =
    codes "GET " ++ (uri ++ (codes " HTTP/1.1" ++ (crlf ++ joined crlf line_of (e ∷ es))))

-- A target without arguments, spaces and line ends.
pub record IsPath (uri : List ℕ) : Type 0 where
  pub no_space : Without 32 uri
  pub no_mark : Without 63 uri
  pub no_return : Without 13 uri

-- The fields that a request leaves in the object.
abbrev pub received : Http → List ℕ → Dict → Http
received h uri es = record h {
  request_header = set_all es (set header_version (codes "HTTP/1.1") (set header_uri uri []));
}

-- The first line has no line end, and the other lines stand behind it.
abbrev pub get_line : List ℕ → List ℕ
get_line uri = codes "GET " ++ (uri ++ (32 ∷ codes "HTTP/1.1"))

pub first_line :
    (uri : List ℕ) (e : List ℕ × List ℕ) (es : Dict)
    → IsPath uri
    → (request_head uri e es ≡ get_line uri ++ (crlf ++ joined crlf line_of (e ∷ es)))
      × Without 13 (get_line uri)
first_line uri e es path = (
  ap (λ t. codes "GET " ++ t)
      (sym (append_assoc uri (32 ∷ codes "HTTP/1.1") (crlf ++ joined crlf line_of (e ∷ es)))),
  Without-append 13 (codes "GET ") (uri ++ (32 ∷ codes "HTTP/1.1"))
      (Without-of 13 (codes "GET ") refl)
      (Without-append 13 uri (32 ∷ codes "HTTP/1.1") path.no_return
        (Without-of 13 (32 ∷ codes "HTTP/1.1") refl)),
)

pub skip_get : (rest : List ℕ) → skip 4 (codes "GET " ++ rest) ≡ some rest
skip_get rest =
    let long : ltb (length (codes "GET " ++ rest)) 4 ≡ false = le→ltb _ _ (omega arith) in
    rw long refl

module _ (h : Http) (uri : List ℕ) (e : List ℕ × List ℕ) (es : Dict) (path : IsPath uri)
    (fields : AllFields (e ∷ es)) where
  abbrev lines : List ℕ
  lines = joined crlf line_of (e ∷ es)

  parse_rest_lem :
      (beyond : Option (List ℕ)) (g : Http)
      → parse_rest beyond g (codes "HTTP/1.1") lines
        ≡ some (
          record g {
            request_header =
                set_all (e ∷ es) (set header_version (codes "HTTP/1.1") g.request_header);
          },
          true,
        )
  unfolding parse_rest
  parse_rest_lem beyond g =
      let room : length es < suc (length lines) =
        omega (arith, length-joined_ge 13 (10 ∷ []) line_of e es) in
      rw
        (parse_lines-joined (suc (length lines)) true beyond e es
          (set header_version (codes "HTTP/1.1") g.request_header) fields room)
        refl

  pub parse_header-request_head :
      (beyond : Option (List ℕ))
      → parse_header beyond h (request_head uri e es) ≡ some (received h uri (e ∷ es), true)
  unfolding parse_header parse_first parse_request_line parse_target set_request_header
  parse_header-request_head beyond =
      let (whole, no_return) = first_line uri e es path in
      rw
        (
          whole,
          cut_at-append 13 (10 ∷ []) (get_line uri) lines no_return,
          skip_get (uri ++ (32 ∷ codes "HTTP/1.1")),
          cut_at-append 32 [] uri (codes "HTTP/1.1") path.no_space,
          cut_at-Without 63 [] uri path.no_mark,
          parse_rest_lem beyond (record h { request_header = set header_uri uri [] }),
        )
        refl
