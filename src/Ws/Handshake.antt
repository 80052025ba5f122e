-- ===== src/Ws/Handshake.antt =====
-- The handshake of a WebSocket connection: ParseHeader, CheckHeader, Respond101, Respond400 and
-- the handshake state of HandlerProtocol (sources/gsdm/src/protocols/wsprotocol.cpp).  The key of
-- the answer, base64 of SHA-1, is OpenSSL's: a parameter.
pub mod Upgrade
use gsdm.Base.{
  ℕ, zero, suc, ◌+◌, ◌-◌, Bool, true, false, not, ◌&&◌, ◌||◌, Option, none, some, List, [], ◌∷◌,
  ◌++◌, ◌>>=◌, if◌then◌else◌, ◌==◌, ltb, leb, length, take, drop,
}
use gsdm.Base.Int.{ℤ, pos, int32}
use gsdm.Text.{find}
use gsdm.Text.Cut.{codes, cut_at}
use gsdm.Text.Backwards.{rstrstr}
use gsdm.Url.{until_zero}
use gsdm.Headers.{crlf, parse_args, parse_lines, behind_header}
use gsdm.Headers.Maps.{Dict, set, get, get_or_empty, same_text}
use gsdm.Http.{skip}
use gsdm.Http.Writing.{read_key, field_lines}
use gsdm.Http.Receiving.{header_end}

-- The maps of WSProtocol; `is_open` is `ws_state_`.
pub record Peer : Type 0 where
  pub is_open : Bool
  pub request_header : Dict
  pub respond_header : Dict
  pub header_args : Dict

abbrev pub ws_uri : List ℕ
ws_uri = codes "uri"

abbrev pub ws_version : List ℕ
ws_version = codes "ws_version"

abbrev pub ws_upgrade : List ℕ
ws_upgrade = codes "Upgrade"

abbrev pub ws_connection : List ℕ
ws_connection = codes "Connection"

abbrev pub ws_key : List ℕ
ws_key = codes "Sec-WebSocket-Key"

abbrev pub ws_key_version : List ℕ
ws_key_version = codes "Sec-WebSocket-Version"

abbrev pub ws_protocol : List ℕ
ws_protocol = codes "Sec-WebSocket-Protocol"

-- The arguments behind a question mark; the target is the path in both cases.
pub parse_query : Peer → List ℕ → Option (List ℕ × List ℕ) → Option Peer
parse_query p target none = some (record p { request_header = set ws_uri target p.request_header })
parse_query p target (some (path, rest)) =
    parse_args (suc (length rest)) rest p.header_args >>= λ args.
    some (record p { request_header = set ws_uri path p.request_header; header_args = args })

pub parse_fields : (beyond : Option (List ℕ)) → Peer → List ℕ → List ℕ → Option (Peer × Bool)
parse_fields beyond p version lines =
    parse_lines (suc (length lines)) true beyond lines (set ws_version version p.request_header)
    >>= λ (fields, good). some (record p { request_header = fields }, good)

pub parse_target :
    (beyond : Option (List ℕ)) → Peer → List ℕ → Option (List ℕ × List ℕ) → Option (Peer × Bool)
parse_target beyond p lines none = some (p, false)
parse_target beyond p lines (some (target, version)) =
    parse_query p target (cut_at (63 ∷ []) target) >>= λ p'. parse_fields beyond p' version lines

pub parse_first :
    (beyond : Option (List ℕ)) → Peer → Option (List ℕ × List ℕ) → Option (Peer × Bool)
parse_first beyond p none = some (p, false)
parse_first beyond p (some (line, lines)) =
    skip 4 line >>= λ rest. parse_target beyond p lines (cut_at (32 ∷ []) rest)

-- ParseHeader; the maps are not cleared first, and `beyond` is the C string behind the end of the header.
pub parse_header : (beyond : Option (List ℕ)) → Peer → List ℕ → Option (Peer × Bool)
parse_header beyond p header = parse_first beyond p (cut_at crlf header)

-- tolower in the C locale, and strcasestr
pub lower : ℕ → ℕ
lower c = if leb 0x41 c && leb c 0x5a then c + 0x20 else c

abbrev pub lower_all : List ℕ → List ℕ
lower_all [] = []
lower_all (c ∷ cs) = lower c ∷ lower_all cs

abbrev pub is_some : {A : Type 0} → Option A → Bool
is_some none = false
is_some (some a) = true

pub strcasestr : List ℕ → List ℕ → Bool
strcasestr text needle = is_some (find (lower_all needle) (lower_all text))

-- A field that is there and passes the test.
abbrev pub passes : (List ℕ → Bool) → Option (List ℕ) → Bool
passes test none = false
passes test (some v) = test v

-- CheckHeader
unfoldable pub check_header : Peer → Bool
check_header p =
    if not (passes (same_text (codes "HTTP/1.1")) (get ws_version p.request_header))
    then false
    else if not (passes (λ v. strcasestr v (codes "websocket")) (get ws_upgrade p.request_header))
    then false
    else if not (passes (λ v. strcasestr v (codes "upgrade")) (get ws_connection p.request_header))
    then false
    else if not (is_some (get ws_key p.request_header))
    then false
    else passes (same_text (codes "13")) (get ws_key_version p.request_header)

-- HandlerHandshake as the class has it: a protocol is refused.
pub handler_handshake : Peer → Peer × Bool
handler_handshake p =
    let (d, v) = read_key ws_protocol p.request_header in
    (record p { request_header = d }, length v == 0)

-- The key of the answer for the key of the request and the fixed text.
abbrev guid : List ℕ
guid = codes "258EAFA5-E914-47DA-95CA-C5AB0DC85B11"

pub accept_key : (List ℕ → List ℕ) → Peer → Peer × List ℕ
accept_key digest p =
    let (d, v) = read_key ws_key p.request_header in
    (record p { request_header = d }, digest (v ++ guid))

pub respond_101 : (List ℕ → List ℕ) → Peer → Peer × List ℕ
respond_101 digest p =
    let (p', key) = accept_key digest p in
    (
      p',
      codes "HTTP/1.1 101 Switching Protocols"
          ++ (crlf
              ++ (codes "Upgrade: websocket"
                  ++ (crlf
                      ++ (codes "Connection: Upgrade"
                          ++ (crlf
                              ++ (codes "Sec-WebSocket-Accept: "
                                  ++ (key
                                      ++ (crlf ++ (field_lines p'.respond_header ++ crlf))))))))),
    )

-- The two lines of the literal are joined with the blanks between them.
pub respond_400 : (List ℕ → List ℕ) → Peer → Peer × List ℕ
respond_400 digest p =
    let (p', key) = accept_key digest p in
    (
      p',
      codes "HTTP/1.1 400 Bad Request"
          ++ (crlf
              ++ (codes "Upgrade: websocket"
                  ++ (crlf
                      ++ (codes "Connection: Upgrade"
                          ++ (crlf
                              ++ (codes
                                    "                                         Sec-WebSocket-Accept: "
                                  ++ (key
                                      ++ (crlf
                                          ++ (codes "Sec-WebSocket-Version: 13"
                                              ++ (crlf ++ crlf)))))))))),
    )

-- What a call in the handshake comes to: -1 (none) or the bytes used as an `int`, and the block that was sent.
pub data Shaken : Type 0 where
  shaken : Peer → Option (List ℕ) → Option ℤ → Shaken

abbrev refuse : (List ℕ → List ℕ) → Peer → Shaken
refuse digest p = let (p', block) = respond_400 digest p in shaken p' (some block) none

unfoldable pub after_check : (List ℕ → List ℕ) → (Peer → Peer × Bool) → ℕ → Peer → Shaken
after_check digest hook size p =
    if not (check_header p)
    then refuse digest p
    else let (p', fine) = hook p in
      if not fine
      then refuse digest p'
      else let (p'', block) = respond_101 digest p' in
        shaken (record p'' { is_open = true }) (some block) (some (int32 (size + 4)))

unfoldable pub after_header : (List ℕ → List ℕ) → (Peer → Peer × Bool) → ℕ → Peer × Bool → Shaken
after_header digest hook size (p, false) = shaken p none none
after_header digest hook size (p, true) = after_check digest hook size p

unfoldable pub after_find_end :
    (List ℕ → List ℕ) → (Peer → Peer × Bool) → Peer → List ℕ → Option ℕ → Option Shaken
after_find_end digest hook p input none = some (shaken p none (some (pos 0)))
after_find_end digest hook p input (some i) =
    parse_header (behind_header i input) p (until_zero (take i input)) >>= λ parsed.
    some (after_header digest hook i parsed)

-- HandlerProtocol in the handshake state; `hook` is HandlerHandshake of the class, `front` what
-- stands in memory in front of the needle of rstrstr.
unfoldable pub handle_handshake :
    List ℕ → (List ℕ → List ℕ) → (Peer → Peer × Bool) → Peer → List ℕ → Option Shaken
handle_handshake front digest hook p input =
    rstrstr front header_end input >>= λ place. after_find_end digest hook p input place
