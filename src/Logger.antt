-- ===== src/Logger.antt =====
-- logger/logger.go and logger/errlogger.go: the package's two loggers, which WithLogger and GetLogger
-- of driver.go pass on.
pub mod Writing
mod Tests
use hotload.Prelude.{ℕ, String, Option, none, some, List, [], ◌∷◌, ◌++◌}

-- DefaultLogger writes nothing, DefaultErrLogger prints, and callers have loggers of their own.
pub data Logger : Type 0 where
  default_logger default_err_logger : Logger
  custom : ℕ → Logger

-- `none` is a nil function. `calls` lists which logger was called with which prefix and message,
-- oldest first.
pub record Loggers : Type 0 where
  pub std_logger : Option Logger
  pub err_logger : Option Logger
  pub calls : List (Logger × String × String)

-- The variables as the package initialises them.
unfoldable pub new_loggers : Loggers
new_loggers = record {
  std_logger = some default_logger;
  err_logger = some default_err_logger;
  calls = [];
}

-- `WithLogger`
unfoldable pub with_logger : Loggers → Option Logger → Loggers
with_logger s none = record s { std_logger = some default_logger }
with_logger s (some l) = record s { std_logger = some l }

-- `GetLogger`
unfoldable pub get_logger : Loggers → Logger
get_logger s = elim s.std_logger [ none ↦ default_logger | some l ↦ l ]

-- `Logf`. The message is what fmt.Sprintf makes of the format and the arguments.
unfoldable pub logf : Loggers → String → String → Loggers
unfolding get_logger
logf s prefix message = record s { calls = s.calls ++ ((get_logger s, prefix, message) ∷ []) }

-- `WithErrLogger`
unfoldable pub with_err_logger : Loggers → Option Logger → Loggers
with_err_logger s none = record s { err_logger = some default_err_logger }
with_err_logger s (some l) = record s { err_logger = some l }

-- `GetErrLogger`
unfoldable pub get_err_logger : Loggers → Logger
get_err_logger s = elim s.err_logger [ none ↦ default_err_logger | some l ↦ l ]

-- `ErrLogf`
unfoldable pub err_logf : Loggers → String → String → Loggers
unfolding get_err_logger
err_logf s prefix message = record s {
  calls = s.calls ++ ((get_err_logger s, prefix, message) ∷ []);
}
