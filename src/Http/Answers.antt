-- ===== src/Http/Answers.antt =====
-- The head of an answer that SendHead writes is read by ParseRespondHeader
-- (sources/gsdm/src/protocols/httpprotocol.cpp).
use gsdm.Base.{ℕ, List, ◌∷◌, ◌++◌}
use gsdm.Text.Cut.{codes}
use gsdm.Headers.{crlf}
use gsdm.Headers.Maps.{Dict}
use gsdm.Headers.Lines.{line_of, joined}
use gsdm.Http.{Http}

-- The fields of a head.
abbrev pub head_fields : Dict → (date content_type : List ℕ) → Dict
head_fields fields date content_type =
    (codes "Server", codes "libgsdm")
    ∷ (codes "Date", date)
    ∷ (codes "Content-Type", content_type)
    ∷ fields

abbrev pub status_line : (version code reason : List ℕ) → List ℕ
status_line version code reason = version ++ (32 ∷ (code ++ (32 ∷ reason)))

module _ (fields : Dict) (version date code reason content_type : List ℕ) where
  abbrev all_fields : Dict
  all_fields = head_fields fields date content_type

  -- The head without its end.
  abbrev pub answer_head : List ℕ
  answer_head = status_line version code reason ++ (crlf ++ joined crlf line_of all_fields)
