-- ===== src/Ws/Handshake/Upgrade.antt =====
-- When a WebSocket connection opens (sources/gsdm/src/protocols/wsprotocol.cpp).
use gsdm.Base.{ℕ, ◌≡◌, Bool, true, false, Option, none, some, List, ◌∷◌, ◌⊎◌}
use gsdm.Base.Int.{pos, ℤ}
use gsdm.Text.Cut.{codes}
use gsdm.Headers.{crlf}
use gsdm.Headers.Maps.{Dict, set, set_all, get, same_text}
use gsdm.Headers.Lines.{line_of, joined, AllFields}
use gsdm.Http.Heads.{IsPath}
use gsdm.Ws.Handshake.{
  Peer, ws_uri, ws_version, ws_upgrade, ws_connection, ws_key, ws_key_version, strcasestr,
  respond_101, respond_400, Shaken, shaken,
}

-- A field of the map passes a test.
abbrev pub Has : List ℕ → (List ℕ → Bool) → Dict → Type 0
Has key test d = (v : List ℕ) × ((get key d ≡ some v) × (test v ≡ true))

-- The fields ask for the upgrade, as RFC 6455 has it.
pub record Asks (d : Dict) : Type 0 where
  pub version : Has ws_version (same_text (codes "HTTP/1.1")) d
  pub upgrade : Has ws_upgrade (λ v. strcasestr v (codes "websocket")) d
  pub connection : Has ws_connection (λ v. strcasestr v (codes "upgrade")) d
  pub key : Has ws_key (λ v. true) d
  pub key_version : Has ws_key_version (same_text (codes "13")) d

-- What the peer holds when it has read a request with this target and these fields.
abbrev pub asked : Peer → List ℕ → Dict → Peer
asked p uri es = record p {
  request_header = set_all es (set ws_version (codes "HTTP/1.1") (set ws_uri uri p.request_header));
}

module _ (p : Peer) (uri : List ℕ) (e : List ℕ × List ℕ) (es : Dict) (path : IsPath uri)
    (fields : AllFields (e ∷ es)) where
  abbrev lines : List ℕ
  lines = joined crlf line_of (e ∷ es)

-- The connection opens: the answer 101 is sent for the peer that the class made of the request, and each
-- byte is used.
pub record Opens (digest : List ℕ → List ℕ) (q : Peer) (size : ℕ) (p' : Peer)
    (block : Option (List ℕ)) (used : Option ℤ) : Type 0 where
  pub is_open : p'.is_open ≡ true
  pub answer : block ≡ some (respond_101 digest q).1
  pub all_used : used ≡ some (pos size)

-- It stays closed: an answer 400 is sent, and the call comes to -1.
pub record Refuses (digest : List ℕ → List ℕ) (q : Peer) (p' : Peer) (block : Option (List ℕ))
    (used : Option ℤ) : Type 0 where
  pub is_closed : p'.is_open ≡ false
  pub answer : block ≡ some (respond_400 digest q).1
  pub none_used : used ≡ none

-- How a peer answers that has read a request.
abbrev pub Answers : (List ℕ → List ℕ) → (Peer → Peer × Bool) → Peer → ℕ → Option Shaken → Type 0
Answers digest hook q size none = ⊥
Answers digest hook q size (some (shaken p' block used)) =
    (Asks q.request_header × (((hook q).1 ≡ true) × Opens digest (hook q).0 size p' block used))
    ⊎ (((Asks q.request_header → ⊥) × Refuses digest q p' block used)
        ⊎ (Asks q.request_header
            × (((hook q).1 ≡ false) × Refuses digest (hook q).0 p' block used)))
