-- ===== src/Examples/Handshakes.antt =====
-- The theorem on the handshake (sources/gsdm/src/protocols/wsprotocol.cpp) at a request.
use gsdm.Base.{ℕ, List, [], ◌∷◌, Bool, true, false}
use gsdm.Text.Cut.{codes}
use gsdm.Headers.Maps.{Dict}
use gsdm.Ws.Handshake.{Peer}

abbrev fresh : Peer
fresh = record { is_open = false; request_header = []; respond_header = []; header_args = [] }

abbrev identity : List ℕ → List ℕ
identity key = key

abbrev first_field : List ℕ × List ℕ
first_field = (codes "Upgrade", codes "websocket")

abbrev other_fields : Dict
other_fields =
    (codes "Connection", codes "Upgrade")
    ∷ (codes "Sec-WebSocket-Key", codes "a")
    ∷ (codes "Sec-WebSocket-Version", codes "13")
    ∷ []

abbrev agree : Peer → Peer × Bool
agree p = (p, true)
