-- ===== src/Examples/WebSockets.antt =====
-- The theorems on WebSocket connections (sources/gsdm/src/protocols/wsprotocol.cpp) at small
-- frames and messages.
use gsdm.Base.{◌≡◌, ◌≢◌, refl, true, false, none, List, [], ◌∷◌, ◌++◌, length, arith, ◌<◌, ◌^◌}
use gsdm.Buffer.{available}
use gsdm.Base.Int.{pos}
use gsdm.Ws.{Frame, extended_length, send_ws, header, scanned, scan_header, mask_from}
use gsdm.Ws.Reading.{read_back, scan_header-header}
use gsdm.Ws.Masking.{AreBytes, unmask_from-mask_from}
use gsdm.Ws.Connection.{Application, Connection, unmask_from, out_of_rounds, handle_open}
use gsdm.Ws.Connection.Rounds.{handle_open-ends}
use gsdm.Ws.Connection.Messages.{Idle}
use gsdm.Ws.Connection.Delivery.{Message, AllValid, delivered, wire, Delivers, handle_open-Delivers}
use gsdm.Examples.Buffers.{zeros}

-- An application that takes every message.
abbrev takes_all : Application
takes_all = record { handle_text = λ _. true; handle_binary = λ _. true; send_data = λ _. true }

abbrev no_frame : Frame
no_frame = record {
  fin = false;
  rsv1 = false;
  rsv2 = false;
  rsv3 = false;
  opcode = 0;
  masked = false;
  masking_key = 0 ∷ 0 ∷ 0 ∷ 0 ∷ [];
  payload_length = 0;
}

abbrev opened : Connection
opened = record {
  fragmentation = record {
    buffer = none;
    size = 0;
    published = 0;
    consumed = 0;
    min_chunk_size = 4096;
  };
  request_frame = no_frame;
  opcode_continue = 0;
  is_send_close = false;
  status_code = 1000;
}

abbrev masked_text : Frame
masked_text = record no_frame {
  fin = true;
  opcode = 1;
  masked = true;
  masking_key = 1 ∷ 2 ∷ 3 ∷ 4 ∷ [];
}

abbrev hello : Message
hello = record {
  is_binary = false;
  masked = true;
  key = 1 ∷ 2 ∷ 3 ∷ 4 ∷ [];
  payload = 104 ∷ 101 ∷ 108 ∷ 108 ∷ 111 ∷ [];
}

abbrev blob : Message
blob = record { is_binary = true; masked = false; key = 0 ∷ 0 ∷ 0 ∷ 0 ∷ []; payload = 0 ∷ 255 ∷ [] }

abbrev two_messages : List Message
two_messages = hello ∷ blob ∷ []

opened-Idle : Idle opened
unfolding available
opened-Idle = record { fresh = refl; alone = refl }

hello-key : AreBytes hello.key
hello-key = (omega arith, (omega arith, (omega arith, (omega arith, tt))))

two_messages-valid : AllValid takes_all two_messages
two_messages-valid = (
  record {
    key_length = refl;
    key_bytes = hello-key;
    payload_bytes = (omega arith, (omega arith, (omega arith, (omega arith, (omega arith, tt)))));
    payload_lt = omega arith;
    accepted = refl;
  },
  (
    record {
      key_length = refl;
      key_bytes = (omega arith, (omega arith, (omega arith, (omega arith, tt))));
      payload_bytes = (omega arith, (omega arith, tt));
      payload_lt = omega arith;
      accepted = refl;
    },
    tt,
  ),
)

two_messages-short : length (wire two_messages) < 2 ^ 31
unfolding send_ws header extended_length mask_from
two_messages-short = omega arith

scan_header-header_example :
    scan_header no_frame (header masked_text 300 ++ 7 ∷ [])
    ≡ scanned (read_back no_frame masked_text 300) (length (header masked_text 300))
scan_header-header_example =
    scan_header-header no_frame masked_text 300 (7 ∷ []) (omega arith) refl (omega arith)

unmask_from-mask_from_example :
    unmask_from 0 (1 ∷ 2 ∷ 3 ∷ 4 ∷ []) (mask_from 0 (1 ∷ 2 ∷ 3 ∷ 4 ∷ []) (104 ∷ 105 ∷ []))
    ≡ 104 ∷ 105 ∷ []
unmask_from-mask_from_example =
    unmask_from-mask_from 0 (1 ∷ 2 ∷ 3 ∷ 4 ∷ []) (104 ∷ 105 ∷ []) (hello-key)
      (omega arith, (omega arith, tt))

handle_open-ends_example : handle_open zeros takes_all opened (wire two_messages) ≢ out_of_rounds
handle_open-ends_example = handle_open-ends zeros takes_all opened (wire two_messages)

handle_open-Delivers_example :
    Delivers opened
      (delivered two_messages)
      (pos (length (wire two_messages)))
      (handle_open zeros takes_all opened (wire two_messages))
handle_open-Delivers_example =
    handle_open-Delivers zeros takes_all opened two_messages opened-Idle two_messages-valid
      two_messages-short
