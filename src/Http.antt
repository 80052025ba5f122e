-- ===== src/Http.antt =====
-- HTTPProtocol (sources/gsdm/src/protocols/httpprotocol.cpp): requests and answers of a server,
-- requests and answers of a client.  Texts are C strings, lists of characters other than 0.
pub mod Writing
pub mod Receiving
pub mod Heads
pub mod Requests
pub mod Chunks
pub mod Answers
use gsdm.Base.{
  ℕ, zero, suc, ◌+◌, ◌-◌, ◌*◌, ◌/◌, ◌%◌, Bool, true, false, not, Option, none, some, List, [], ◌∷◌,
  ◌++◌, ◌>>=◌, if◌then◌else◌, ◌==◌, ltb, leb, length, take, drop,
}
use gsdm.Base.Int.{ℤ, pos, negsuc}
use gsdm.Text.{find}
use gsdm.Text.Cut.{codes, cut_at}
use gsdm.Headers.{crlf, colon, parse_args, parse_lines}
use gsdm.Headers.Maps.{Dict, set, get, get_or_empty, same_text}

abbrev pub header_uri : List ℕ
header_uri = codes "uri"

abbrev pub header_args : List ℕ
header_args = codes "args"

abbrev pub header_version : List ℕ
header_version = codes "http_version"

abbrev pub header_host : List ℕ
header_host = codes "Host"

abbrev pub header_port : List ℕ
header_port = codes "Port"

abbrev pub content_length_key : List ℕ
content_length_key = codes "Content-Length"

-- The members of HTTPProtocol.
pub record Http : Type 0 where
  pub request_header : Dict
  pub respond_header : Dict
  pub args : Dict
  pub content_length : ℤ
  pub code : ℤ

-- A new object.
pub new_http : Http
new_http = record {
  request_header = [];
  respond_header = [];
  args = [];
  content_length = negsuc 0;
  code = pos 0;
}

pub set_request_header : Http → List ℕ → List ℕ → Http
set_request_header h key value = record h { request_header = set key value h.request_header }

pub set_respond_header : Http → List ℕ → List ℕ → Http
set_respond_header h key value = record h { respond_header = set key value h.respond_header }

-- The target of a request: the path, and the arguments behind a question mark.
pub parse_target : Http → List ℕ → Option (List ℕ × List ℕ) → Option Http
parse_target h target none = some (set_request_header h header_uri target)
parse_target h target (some (path, rest)) = parse_args (suc (length rest)) rest h.args >>= λ args'.
    some (record h {
      request_header = set header_args rest (set header_uri path h.request_header);
      args = args';
    })

-- Behind the first line; the version is what stands behind the second space of that line.
pub parse_rest : (beyond : Option (List ℕ)) → Http → List ℕ → List ℕ → Option (Http × Bool)
parse_rest beyond h version lines =
    parse_lines (suc (length lines)) true beyond lines (set header_version version h.request_header)
    >>= λ (fields, good). some (record h { request_header = fields }, good)

-- The first line without its first four characters; the arguments stay those of before.
pub parse_request_line :
    (beyond : Option (List ℕ)) → Http → List ℕ → Option (List ℕ × List ℕ) → Option (Http × Bool)
parse_request_line beyond h lines none = some (h, false)
parse_request_line beyond h lines (some (target, version)) =
    parse_target h target (cut_at (63 ∷ []) target) >>= λ h'. parse_rest beyond h' version lines

-- `header += sizeof("GET")`; a line of fewer than four characters, behind whose end the code reads on, is
-- left out.
abbrev pub skip : ℕ → List ℕ → Option (List ℕ)
skip n line = if ltb (length line) n then none else some (drop n line)

-- The header, cut behind its first line.
pub parse_first :
    (beyond : Option (List ℕ)) → Http → Option (List ℕ × List ℕ) → Option (Http × Bool)
parse_first beyond h none = some (h, false)
parse_first beyond h (some (line, lines)) =
    skip 4 line >>= λ rest. parse_request_line beyond h lines (cut_at (32 ∷ []) rest)

-- ParseHeader; `beyond` is the C string behind the end of the header.
pub parse_header : (beyond : Option (List ℕ)) → Http → List ℕ → Option (Http × Bool)
parse_header beyond h header =
    parse_first beyond (record h { request_header = [] }) (cut_at crlf header)

abbrev pub is_there : Option (List ℕ) → Bool
is_there none = false
is_there (some v) = true

-- CheckHeader
unfoldable pub check_header : Http → Bool
check_header h = is_there (get header_version h.request_header)
