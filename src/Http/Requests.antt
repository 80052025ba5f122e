-- ===== src/Http/Requests.antt =====
-- A request that HTTPGet writes is read by HandlerProtocol
-- (sources/gsdm/src/protocols/httpprotocol.cpp).
use gsdm.Base.{
  ℕ, ◌+◌, ◌^◌, ◌<◌, ◌≡◌, refl, sym, ap, ◌∙◌, Bool, true, false, Option, some, List, [], ◌∷◌, ◌++◌,
  append_assoc, arith, if◌then◌else◌, length, length-append, take,
}
use gsdm.Base.Int.{pos, int32_small}
use gsdm.Base.Slices.{take-append_le, take_all}
use gsdm.Text.Backwards.{rstrstr-append}
use gsdm.Text.Cut.{codes}
use gsdm.Url.RoundTrip.{NonZero, until_zero-NonZero}
use gsdm.Headers.{crlf, behind_header}
use gsdm.Headers.Maps.{Dict, set, get, same_text, set_all, get-set, same_text_self}
use gsdm.Headers.Lines.{line_of, joined, AllFields}
use gsdm.Http.{Http, header_uri, header_version, is_there, check_header}
use gsdm.Http.Writing.{get_request_header, field_lines, request_fields, http_get}
use gsdm.Http.Receiving.{
  Caller, quiet, used, header_end, after_parse, after_search, handler_protocol,
}
use gsdm.Http.Heads.{request_head, received, field_lines-joined, IsPath, parse_header-request_head}

kept_there :
    (b : Bool) (v : List ℕ) (o : Option (List ℕ))
    → is_there o ≡ true
    → is_there (if b then some v else o) ≡ true
kept_there true v o h = refl
kept_there false v o h = h

is_there-set_all :
    (key : List ℕ) (es d : Dict)
    → is_there (get key d) ≡ true
    → is_there (get key (set_all es d)) ≡ true
is_there-set_all key [] d h = h
is_there-set_all key ((k, v) ∷ es) d h =
    is_there-set_all key es (set k v d)
      (rw (get-set key k v d) (kept_there (same_text key k) v (get key d) h))

check_header-received :
    (h : Http) (uri : List ℕ) (es : Dict) → check_header (received h uri es) ≡ true
check_header-received h uri es =
    let there : is_there
          (get header_version (set header_version (codes "HTTP/1.1") (set header_uri uri [])))
        ≡ true =
      rw
        (
          get-set header_version header_version (codes "HTTP/1.1") (set header_uri uri []),
          same_text_self header_version,
        )
        refl in
    unfold check_header in is_there-set_all header_version es _ there

-- The text of HTTPGet for an object with these fields.
abbrev pub request_text : List ℕ → List ℕ × List ℕ → Dict → List ℕ
request_text uri e es = request_head uri e es ++ header_end

http_get-request_text :
    (g : Http) (uri : List ℕ) (e : List ℕ × List ℕ) (es : Dict)
    → get header_uri g.request_header ≡ some uri
    → request_fields g.request_header ≡ e ∷ es
    → http_get g ≡ (g, request_text uri e es)
unfolding http_get get_request_header
http_get-request_text g uri e es target fields =
    let tail = field_lines-joined e es in
    let whole : codes "GET "
          ++ (uri ++ (codes " HTTP/1.1" ++ (crlf ++ (field_lines (e ∷ es) ++ crlf))))
        ≡ request_text uri e es =
      ap (λ t. codes "GET " ++ (uri ++ (codes " HTTP/1.1" ++ (crlf ++ t)))) tail
      ∙ ap (λ t. codes "GET " ++ t)
          (sym (
            append_assoc uri (codes " HTTP/1.1" ++ (crlf ++ joined crlf line_of (e ∷ es)))
              header_end)) in
    rw (target, fields, whole) refl

-- What HTTPGet of one object writes, HandlerProtocol of another reads in one piece: it uses every
-- byte, sends nothing, and the object has the target, the version and the fields of the request,
-- assigned in order.  The request has a field at least; its target is a path without arguments;
-- keys have no colon, and nothing has a line end or a 0; and it has fewer than 2 ^ 31 bytes.  The caller takes the request, and a 0
-- stands in memory in front of the needle of rstrstr.
pub handler_protocol-http_get :
    (front : List ℕ) (caller : Caller) (date : List ℕ) (g h : Http) (uri : List ℕ)
    (e : List ℕ × List ℕ) (es : Dict)
    → get header_uri g.request_header ≡ some uri
    → request_fields g.request_header ≡ e ∷ es
    → IsPath uri
    → AllFields (e ∷ es)
    → NonZero (request_head uri e es)
    → caller.handler (received h uri (e ∷ es)) ≡ true
    → length (request_text uri e es) < 2 ^ 31
    → handler_protocol (0 ∷ front) caller date h (http_get g).1
      ≡ some (quiet (received h uri (e ∷ es)) (used (pos (length (http_get g).1))))
unfolding handler_protocol after_search after_parse
handler_protocol-http_get front caller date g h uri e es target fields path clean ascii taken fits =
    let head = request_head uri e es in
    let size : length head + 4 ≡ length (head ++ header_end) =
      omega (arith, length-append {0} head header_end) in
    let front_of : take (length head) (head ++ header_end) ≡ head =
      take-append_le (length head) head header_end (omega arith)
      ∙ take_all (length head) head (omega arith) in
    rw
      (
        http_get-request_text g uri e es target fields,
        rstrstr-append front 13 (10 ∷ 13 ∷ 10 ∷ []) head refl fits,
        front_of,
        until_zero-NonZero head ascii,
        parse_header-request_head h uri e es path clean
            (behind_header (length head) (head ++ header_end)),
        check_header-received h uri (e ∷ es),
        taken,
        size,
        int32_small (length (head ++ header_end)) fits,
      )
      refl
