-- ===== src/Examples/Exchanges.antt =====
-- The theorems on HTTP (sources/gsdm/src/protocols/httpprotocol.cpp) and on the search that it
-- uses (sources/gsdm/src/platform/linuxplatform.cpp) at a short request and a short answer.
use gsdm.Base.{◌≡◌, refl, true, some, [], ◌∷◌, ◌++◌, length, take, arith}
use gsdm.Base.Int.{pos, negsuc}
use gsdm.Text.Cut.{codes, Without-of}
use gsdm.Url.RoundTrip.{NonZero-of}
use gsdm.Text.Backwards.{rstrstr, last_of, rstrstr-last_of}
use gsdm.Headers.Maps.{get, same_text}
use gsdm.Http.{Http, header_uri}
use gsdm.Http.Writing.{request_fields, http_get}
use gsdm.Http.Receiving.{Caller, quiet, used, handler_protocol}
use gsdm.Http.Heads.{IsPath, request_head, received}
use gsdm.Http.Requests.{handler_protocol-http_get}
use gsdm.Http.Chunks.{read_chunks, body_bytes, concat, read_chunks-body_bytes}

abbrev client : Http
client = record {
  request_header =
      (codes "uri", codes "/a") ∷ (codes "Host", codes "h") ∷ (codes "Port", codes "80") ∷ [];
  respond_header = [];
  args = [];
  content_length = negsuc 0;
  code = pos 0;
}

abbrev server : Http
server = record {
  request_header = [];
  respond_header = [];
  args = [];
  content_length = negsuc 0;
  code = pos 0;
}

abbrev takes_requests : Caller
takes_requests = record { handler = λ _. true; handler_respond = λ _ _. true }

client_uri : get header_uri client.request_header ≡ some (codes "/a")
unfolding get same_text
client_uri = refl

client_fields : request_fields client.request_header ≡ (codes "Host", codes "h") ∷ []
unfolding request_fields same_text
client_fields = refl

a_IsPath : IsPath (codes "/a")
a_IsPath = record {
  no_space = Without-of 32 (codes "/a") refl;
  no_mark = Without-of 63 (codes "/a") refl;
  no_return = Without-of 13 (codes "/a") refl;
}

handler_protocol-http_get_example :
    handler_protocol (0 ∷ []) takes_requests [] server (http_get client).1
    ≡ some (
        quiet
          (received server (codes "/a") ((codes "Host", codes "h") ∷ []))
          (used (pos (length (http_get client).1))))
handler_protocol-http_get_example =
    handler_protocol-http_get [] takes_requests [] client server (codes "/a")
      (codes "Host", codes "h") [] client_uri client_fields a_IsPath
      (
        (
          Without-of 58 (codes "Host") refl,
          (Without-of 13 (codes "Host") refl, Without-of 13 (codes "h") refl),
        ),
        tt,
      )
      (NonZero-of (request_head (codes "/a") (codes "Host", codes "h") []) refl) refl (omega arith)

read_chunks-body_bytes_example :
    read_chunks 3 (body_bytes ((1 ∷ 2 ∷ []) ∷ (3 ∷ []) ∷ []) ++ (9 ∷ []))
    ≡ some (concat ((1 ∷ 2 ∷ []) ∷ (3 ∷ []) ∷ []), 9 ∷ [])
read_chunks-body_bytes_example =
    read_chunks-body_bytes 3 ((1 ∷ 2 ∷ []) ∷ (3 ∷ []) ∷ []) (9 ∷ []) (omega arith) (omega arith)

rstrstr-last_of_example :
    rstrstr (0 ∷ []) (13 ∷ 65 ∷ []) (97 ∷ 13 ∷ 98 ∷ [])
    ≡ some (last_of 13 (take 2 (97 ∷ 13 ∷ 98 ∷ [])))
rstrstr-last_of_example =
    rstrstr-last_of [] 13 (65 ∷ []) (97 ∷ 13 ∷ 98 ∷ []) refl (omega arith) (omega arith)
