-- ===== src/Logger.antt =====
-- internal/logger/logger.go: the process's one logger by its level. What zap prints is not modelled.
use dploy.Prelude.{ℕ, Bool, true, false, not, Option, none, some, ltb, if◌then◌else◌}

pub data Level : Type 0 where
  debug info warn error fatal : Level

-- Of the development configuration, coloured, or of the production configuration.
pub record Logger : Type 0 where
  pub development : Bool
  pub least : Level

-- Zap's order of levels.
rank : Level → ℕ
rank debug = 0
rank info = 1
rank warn = 2
rank error = 3
rank fatal = 4

-- Only the first call of Init builds a logger.
unfoldable pub init : Bool → Option Logger → Option Logger
init verbose (some l) = some l
init verbose none = some (
    if verbose
    then record { development = true; least = debug }
    else record { development = false; least = info })

-- Whether a message of that level is written. Before Init none is.
unfoldable pub writes : Level → Option Logger → Bool
unfolding rank
writes level none = false
writes level (some l) = not (ltb (rank level) (rank l.least))

-- Fatal ends the process, but only where there is a logger to end it.
unfoldable pub fatal_exits : Option Logger → Bool
fatal_exits none = false
fatal_exits (some l) = true
