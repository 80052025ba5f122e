-- ===== src/Examples/Settings.antt =====
-- The theorem on a file of settings at five lines: a remark, a plain value with a remark, a value in quotes,
-- the first key once more, and a plain value alone.
use gsdm.Base.{List, [], ◌∷◌}
use gsdm.Text.Cut.{codes}
use gsdm.Config.Lines.{Line, remark, quoted, plain, bare}

abbrev settings : List Line
settings =
    remark (codes "user=root")
    ∷ plain (codes "log_level ") (codes " INFO ") (codes " a level")
    ∷ quoted (codes "log_dir") [] (codes " /tmp#1") (codes " # a folder")
    ∷ plain (codes "log_level") (codes "DEBUG") []
    ∷ bare (codes "log_port") (codes "30005")
    ∷ []
