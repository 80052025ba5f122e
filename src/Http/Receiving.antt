-- ===== src/Http/Receiving.antt =====
-- HandlerProtocol and HandlerProtocolRespond of HTTPProtocol
-- (sources/gsdm/src/protocols/httpprotocol.cpp).
use gsdm.Base.{
  ℕ, suc, ◌+◌, ◌-◌, ◌*◌, ◌^◌, Bool, true, false, not, ◌&&◌, Option, none, some, List, [], ◌∷◌,
  ◌>>=◌, if◌then◌else◌, ◌==◌, ltb, leb, length, take, drop,
}
use gsdm.Base.Int.{ℤ, pos, negsuc, int32, is_greater}
use gsdm.Text.{find}
use gsdm.Text.Cut.{codes, cut_at}
use gsdm.Text.Backwards.{rstrstr}
use gsdm.Url.{until_zero}
use gsdm.Headers.{crlf, parse_lines, behind_header}
use gsdm.Headers.Maps.{get}
use gsdm.Http.{Http, skip, parse_header, check_header, content_length_key}
use gsdm.Http.Writing.{send_head}

-- What the class that inherits the protocol does with a request and with the body of an answer.
pub record Caller : Type 0 where
  pub handler : Http → Bool
  pub handler_respond : List ℕ → ℤ → Bool

-- A call ends with a number of bytes used, as an `int`, or with -1; and it may have sent a block, or handed a
-- body to the caller.
pub data Ended : Type 0 where
  used : ℤ → Ended
  error : Ended

pub record Call : Type 0 where
  pub object : Http
  pub sent : List (List ℕ)
  pub bodies : List (List ℕ × ℤ)
  pub result : Ended

abbrev pub quiet : Http → Ended → Call
quiet h r = record { object = h; sent = []; bodies = []; result = r }

abbrev pub header_end : List ℕ
header_end = 13 ∷ 10 ∷ 13 ∷ 10 ∷ []

-- What follows the parsing of a header of `size` bytes.
unfoldable pub after_parse : Caller → List ℕ → ℕ → Http × Bool → Call
after_parse caller date size (h, false) = quiet h error
after_parse caller date size (h, true) =
    let (h', block) = send_head h date (codes "400 Bad Request") (codes "text/html") in
    if not (check_header h)
    then record (quiet h' error) { sent = block ∷ [] }
    else if not (caller.handler h)
    then quiet h error
    else quiet h (used (int32 (size + 4)))

unfoldable pub after_search : Caller → List ℕ → Http → List ℕ → Option ℕ → Option Call
after_search caller date h input none = some (quiet h (used (pos 0)))
after_search caller date h input (some i) =
    parse_header (behind_header i input) h (until_zero (take i input)) >>= λ parsed.
    some (after_parse caller date i parsed)

-- HandlerProtocol; `front` is what stands in memory in front of the needle of rstrstr.
unfoldable pub handler_protocol : List ℕ → Caller → List ℕ → Http → List ℕ → Option Call
handler_protocol front caller date h input =
    rstrstr front header_end input >>= λ place. after_search caller date h input place

-- atoi: blanks, a sign, and digits.
unfoldable pub digits_from : ℕ → List ℕ → ℕ
digits_from acc [] = acc
digits_from acc (c ∷ cs) =
    let rest = digits_from (acc * 10 + (c - 0x30)) cs in
    if leb 0x30 c && leb c 0x39 then rest else acc

-- The value is a `long`, which stops at its limits, and is converted to `int`.
abbrev positive : ℕ → ℤ
positive n = int32 (if leb n (2 ^ 63 - 1) then n else 2 ^ 63 - 1)

abbrev negative : ℕ → ℤ
negative n = int32 (2 ^ 64 - (if leb n (2 ^ 63) then n else 2 ^ 63))

unfoldable pub atoi : List ℕ → ℤ
atoi [] = pos 0
atoi (c ∷ cs) =
    let rest = atoi cs in
    if (c == 0x20)
    then rest
    else if leb 9 c && leb c 13
    then rest
    else if c == 0x2d
    then negative (digits_from 0 cs)
    else if c == 0x2b
    then positive (digits_from 0 cs)
    else positive (digits_from 0 (c ∷ cs))

-- ParseRespondHeader, behind the first line and behind the version.
unfoldable pub parse_status :
    (beyond : Option (List ℕ)) → Http → List ℕ → Option (List ℕ × List ℕ) → Option (Http × Bool)
parse_status beyond h lines none = some (h, false)
parse_status beyond h lines (some (code, reason)) =
    parse_lines (suc (length lines)) false beyond lines h.respond_header >>= λ (fields, good).
    some (record h { respond_header = fields; code = atoi code }, good)

unfoldable pub parse_status_line :
    (beyond : Option (List ℕ)) → Http → Option (List ℕ × List ℕ) → Option (Http × Bool)
parse_status_line beyond h none = some (h, false)
parse_status_line beyond h (some (line, lines)) =
    skip 9 line >>= λ rest. parse_status beyond h lines (cut_at (32 ∷ []) rest)

-- ParseRespondHeader, on a C string: strstr stops at a 0.
unfoldable pub parse_respond_header :
    (beyond : Option (List ℕ)) → Http → List ℕ → Option (Http × Bool)
parse_respond_header beyond h header =
    parse_status_line beyond (record h { respond_header = [] }) (cut_at crlf (until_zero header))

-- The bytes behind `data` that `content_length_` counts; the caller is told a negative number as it is.
abbrev body_of : ℤ → List ℕ → List ℕ
body_of (pos n) input = take n input
body_of (negsuc n) input = input

abbrev is_zero : ℤ → Bool
is_zero (pos n) = n == 0
is_zero (negsuc n) = false

-- The body of `content_length_` bytes; `before` bytes were used for the header, and all bytes
-- behind it are used with the body.
unfoldable pub take_body : Caller → Http → ℕ → List ℕ → ℤ → Call
take_body caller h before input content =
    if is_zero content
    then quiet h error
    else if is_greater content (int32 (length input))
    then quiet h (used (int32 before))
    else if not (caller.handler_respond (body_of content input) content)
    then record (quiet h error) { bodies = (body_of content input, content) ∷ [] }
    else record (quiet h (used (int32 (before + length input)))) {
      bodies = (body_of content input, content) ∷ [];
    }

-- Behind a header that was parsed; the length of the body has to be among its fields.
unfoldable pub after_head : Caller → ℕ → List ℕ → Http × Bool → Call
after_head caller before input (h, false) = quiet h error
after_head caller before input (h, true) = elim (get content_length_key h.respond_header) [
  | none ↦ quiet h error
  | some v ↦ take_body caller (record h { content_length = atoi v }) before input (atoi v)
]

unfoldable pub after_end : Caller → Http → List ℕ → Option ℕ → Option Call
after_end caller h input none = some (quiet h (used (pos 0)))
after_end caller h input (some i) =
    parse_respond_header (behind_header i input) h (take i input) >>= λ parsed.
    some (after_head caller (i + 4) (drop (i + 4) input) parsed)

-- HandlerProtocolRespond; -1 as the length says that no header was read.  The last byte is no
-- part of what is searched.
unfoldable pub handler_protocol_respond : Caller → Http → List ℕ → Option Call
handler_protocol_respond caller h input = elim h.content_length [
  | pos n ↦ some (take_body caller h 0 input (pos n))
  | negsuc n ↦
      if n == 0
      then (if ltb (length input) 4
          then some (quiet h (used (pos 0)))
          else after_end caller h input
              (find (13 ∷ 10 ∷ 13 ∷ []) (until_zero (take (length input - 1) input))))
      else some (take_body caller h 0 input (negsuc n))
]
