-- ===== src/Trace.antt =====
-- go/trace.go: the logger and the metrics of a connection. A logger and a scope are known by
-- their number; what zap and tally do with an entry or a metric is outside of this model.
pub mod Laws
use athenadriver.Base.{ℕ, Bool, true, false, not, List, [], ◌∷◌, if◌then◌else◌, Bytes}
use athenadriver.Config.Flags.{is_logging_enabled, is_metrics_enabled}
use athenadriver.Config.{Config, new_no_ops_config}

-- `zapcore.Level`; `unknown` is a number that names no level.
pub data Level : Type 0 where
  debug info warn error dpanic panic fatal : Level
  unknown : ℕ → Level

-- `zap.NewNop()`, which drops what it is given, or another logger.
pub data Logger : Type 0 where
  nop_logger : Logger
  logger_of : ℕ → Logger

pub data Scope : Type 0 where
  noop_scope : Scope
  scope_of : ℕ → Scope

pub record DriverTracer : Type 0 where
  pub logger : Logger
  pub scope : Scope
  pub config : Config

unfoldable pub new_observability : Config → Logger → Scope → DriverTracer
new_observability c l s = record { logger = l; scope = s; config = c }

unfoldable pub new_default_observability : Config → DriverTracer
new_default_observability c = record { logger = nop_logger; scope = noop_scope; config = c }

unfoldable pub new_no_ops_observability : DriverTracer
new_no_ops_observability = record {
  logger = nop_logger;
  scope = noop_scope;
  config = new_no_ops_config;
}

-- `Logger`
unfoldable pub get_logger : DriverTracer → Logger
get_logger t = if not (is_logging_enabled t.config) then nop_logger else t.logger

unfoldable pub set_logger : DriverTracer → Logger → DriverTracer
set_logger t l = record t { logger = l }

-- `Scope`
unfoldable pub get_scope : DriverTracer → Scope
get_scope t = if not (is_metrics_enabled t.config) then noop_scope else t.scope

unfoldable pub set_scope : DriverTracer → Scope → DriverTracer
set_scope t s = record t { scope = s }

-- What a logger is given: the level and the message.
pub record Entry : Type 0 where
  pub logger : Logger
  pub level : Level
  pub msg : Bytes

abbrev entry : DriverTracer → Level → Bytes → List Entry
entry t lvl msg = record { logger = t.logger; level = lvl; msg = msg } ∷ []

-- The `switch` of `Log`.
abbrev by_level : DriverTracer → Level → Bytes → List Entry
by_level t debug msg = entry t debug msg
by_level t warn msg = entry t warn msg
by_level t info msg = entry t info msg
by_level t error msg = entry t error msg
by_level t dpanic msg = entry t error msg
by_level t panic msg = entry t error msg
by_level t fatal msg = entry t error msg
by_level t (unknown n) msg = []

-- `Log`, as the entries that the logger is given.
unfoldable pub log : DriverTracer → Level → Bytes → List Entry
log t lvl msg = if not (is_logging_enabled t.config) then [] else by_level t lvl msg
