-- ===== src/Http/Writing.antt =====
-- What HTTPProtocol writes (sources/gsdm/src/protocols/httpprotocol.cpp): heads of answers,
-- chunks, and requests.  A map is written in the order of its entries.
use gsdm.Base.{
  ℕ, zero, suc, ◌+◌, ◌/◌, ◌%◌, Bool, true, false, not, ◌||◌, Option, none, some, List, [], ◌∷◌,
  ◌++◌, if◌then◌else◌, ◌==◌, ltb, length, take, drop,
}
use gsdm.Base.Int.{pos, negsuc}
use gsdm.Text.Cut.{codes, cut_at}
use gsdm.Headers.{crlf, colon}
use gsdm.Headers.Maps.{Dict, set, get, same_text}
use gsdm.Http.{Http, header_uri, header_version, header_host, header_port, set_request_header}

abbrev read_found : List ℕ → Dict → Option (List ℕ) → Dict × List ℕ
read_found key d none = (set key [] d, [])
read_found key d (some v) = (d, v)

-- GetRequestHeader and GetRequestArgs: reading a key that is not there adds it, with no value.
abbrev pub read_key : List ℕ → Dict → Dict × List ℕ
read_key key d = read_found key d (get key d)

unfoldable pub get_request_header : Http → List ℕ → Http × List ℕ
get_request_header h key =
    let (d, v) = read_key key h.request_header in (record h { request_header = d }, v)

pub get_request_args : Http → List ℕ → Http × List ℕ
get_request_args h key = let (d, v) = read_key key h.args in (record h { args = d }, v)

-- `key: value` and the end of the line, for each entry.
unfoldable pub field_lines : Dict → List ℕ
field_lines [] = []
field_lines ((k, v) ∷ d) = k ++ (codes ": " ++ (v ++ (crlf ++ field_lines d)))

-- The text of SendHead; `date` is the time of now.
unfoldable pub head_text : List ℕ → Dict → (date code content_type : List ℕ) → List ℕ
head_text version fields date code content_type =
    (if length version == 0 then codes "HTTP/1.1" else version)
    ++ (codes " "
        ++ (code
            ++ (crlf
                ++ (codes "Server: libgsdm"
                    ++ (crlf
                        ++ (codes "Date: "
                            ++ (date
                                ++ (crlf
                                    ++ (codes "Content-Type: "
                                        ++ (content_type
                                            ++ (crlf ++ (field_lines fields ++ crlf))))))))))))

-- SendHead: the block that it sends, and the object behind it.
unfoldable pub send_head : Http → (date code content_type : List ℕ) → Http × List ℕ
send_head h date code content_type =
    let (h', version) = get_request_header h header_version in
    (h', head_text version h.respond_header date code content_type)

-- The hexadecimal digits of a number, upper case, as `%X` has them; 8 are enough for 32 bits.
abbrev pub hex_char : ℕ → ℕ
hex_char d = if ltb d 10 then 0x30 + d else 0x37 + d

unfoldable pub hex_onto : ℕ → ℕ → List ℕ → List ℕ
hex_onto zero n acc = acc
hex_onto (suc fuel) n acc =
    let more = hex_onto fuel (n / 16) (hex_char (n % 16) ∷ acc) in
    if ltb n 16 then hex_char n ∷ acc else more

unfoldable pub hex_text : ℕ → List ℕ
hex_text n = hex_onto 8 n []

-- SendChunked: the blocks that it sends, up to the first that fails, and the result.
unfoldable pub send_chunked : (List ℕ → Bool) → List ℕ → List (List ℕ) × Bool
send_chunked send chunk =
    let head = hex_text (length chunk) ++ crlf in
    if not (send head)
    then (head ∷ [], false)
    else if length chunk == 0
    then (head ∷ crlf ∷ [], send crlf)
    else if not (send chunk)
    then (head ∷ chunk ∷ [], false)
    else (head ∷ chunk ∷ crlf ∷ [], send crlf)

-- The fields of a request, less those for the port and the target.
unfoldable pub request_fields : Dict → Dict
request_fields [] = []
request_fields ((k, v) ∷ d) =
    let rest = request_fields d in
    if same_text k header_port || same_text k header_uri then rest else (k, v) ∷ rest

-- The text of HTTPGet, and the object behind it.
unfoldable pub http_get : Http → Http × List ℕ
http_get h =
    let (h', uri) = get_request_header h header_uri in
    (
      h',
      codes "GET "
          ++ (uri
              ++ (codes " HTTP/1.1"
                  ++ (crlf ++ (field_lines (request_fields h'.request_header) ++ crlf)))),
    )

-- The host and the port in front of the path.
pub set_host : Http → List ℕ → Option (List ℕ × List ℕ) → Http
set_host h host none =
    set_request_header (set_request_header h header_host host) header_port (codes "80")
set_host h host (some (name, port)) =
    set_request_header (set_request_header h header_host name) header_port port

-- ParseUrl: what stands behind the first seven characters, at most 4095 of them.
pub parse_url : Http → List ℕ → Option (Http × Bool)
parse_url h url =
    let cleared = record h { request_header = []; content_length = negsuc 0; code = pos 0 } in
    if ltb (length url) 7 then none else elim (cut_at (47 ∷ []) (take 4095 (drop 7 url))) [
      | none ↦ some (cleared, false)
      | some (host, path) ↦
          let named = set_host cleared host (cut_at colon host) in
          some (
            set_request_header
                (set_request_header
                  (set_request_header (set_request_header named header_uri (47 ∷ path))
                    (codes "User-Agent") (codes "libgsdm"))
                  (codes "Accept") (codes "*/*"))
                (codes "Connection") (codes "keep-alive"),
            true,
          )
    ]
