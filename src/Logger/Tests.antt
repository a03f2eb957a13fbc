-- ===== src/Logger/Tests.antt =====
-- Loggers that are replaced, and what is written meanwhile.
use hotload.Prelude.{◌≡◌, none, some, List, [], ◌∷◌}
use hotload.Logger.{default_logger, default_err_logger, custom, new_loggers}
use hotload.Logger.Writing.{written, run-written, Op, sets, writes, writes_err, run}

abbrev ops : List Op
ops =
    writes "a:" "one"
    ∷ sets (some (custom 7))
    ∷ writes_err "a:" "two"
    ∷ writes "a:" "three"
    ∷ sets none
    ∷ writes "a:" "four"
    ∷ []

run-written_example :
    (run new_loggers ops).calls
    ≡ (default_logger, "a:", "one")
      ∷ (default_err_logger, "a:", "two")
      ∷ (custom 7, "a:", "three")
      ∷ (default_logger, "a:", "four")
      ∷ []
unfolding written
run-written_example = run-written ops
