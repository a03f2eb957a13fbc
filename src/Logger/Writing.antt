-- ===== src/Logger/Writing.antt =====
-- logger/logger.go and logger/errlogger.go: which logger writes what.
use hotload.Prelude.{◌≡◌, refl, sym, ◌∙◌, ◌++◌, arith, String, Option, none, some, List, [], ◌∷◌}
use mathlib.Core.List.{append_assoc, append-nil}
use hotload.Logger.{
  Logger, default_logger, default_err_logger, Loggers, new_loggers, with_logger, logf, get_logger,
  get_err_logger, with_err_logger, err_logf,
}

-- A call of the package.
pub data Op : Type 0 where
  sets sets_err : Option Logger → Op
  writes writes_err : String → String → Op

unfoldable pub run : Loggers → List Op → Loggers
unfolding with_logger with_err_logger logf err_logf
run s [] = s
run s (sets l ∷ os) = run (with_logger s l) os
run s (sets_err l ∷ os) = run (with_err_logger s l) os
run s (writes p m ∷ os) = run (logf s p m) os
run s (writes_err p m ∷ os) = run (err_logf s p m) os

abbrev or_default : Logger → Option Logger → Logger
or_default d none = d
or_default d (some l) = l

-- What is written, oldest first, if `l` and `e` are the loggers at the start.
unfoldable pub written : Logger → Logger → List Op → List (Logger × String × String)
written l e [] = []
written l e (sets o ∷ os) = written (or_default default_logger o) e os
written l e (sets_err o ∷ os) = written l (or_default default_err_logger o) os
written l e (writes p m ∷ os) = (l, p, m) ∷ written l e os
written l e (writes_err p m ∷ os) = (e, p, m) ∷ written l e os

run-calls :
    (s : Loggers) (l e : Logger) (os : List Op)
    → s.std_logger ≡ some l
    → s.err_logger ≡ some e
    → (run s os).calls ≡ s.calls ++ written l e os
unfolding run written with_logger with_err_logger logf err_logf get_logger get_err_logger
run-calls s l e [] h k = sym (append-nil s.calls)
run-calls s l e (sets none ∷ os) h k = run-calls (with_logger s none) default_logger e os refl k
run-calls s l e (sets (some o) ∷ os) h k = run-calls (with_logger s (some o)) o e os refl k
run-calls s l e (sets_err none ∷ os) h k =
    run-calls (with_err_logger s none) l default_err_logger os h refl
run-calls s l e (sets_err (some o) ∷ os) h k = run-calls (with_err_logger s (some o)) l o os h refl
run-calls s l e (writes p m ∷ os) h k =
    let g : get_logger s ≡ l = ground (arith, h) in
    run-calls (logf s p m) l e os h k ∙ simp (g, append_assoc)
run-calls s l e (writes_err p m ∷ os) h k =
    let g : get_err_logger s ≡ e = ground (arith, k) in
    run-calls (err_logf s p m) l e os h k ∙ simp (g, append_assoc)

-- After any calls on the package as it starts, each message went to the logger of its kind that was
-- set last before it, nil standing for the default, and to no other: Logf never calls nil.
pub run-written :
    (os : List Op) → (run new_loggers os).calls ≡ written default_logger default_err_logger os
unfolding new_loggers
run-written os = run-calls new_loggers default_logger default_err_logger os refl refl
