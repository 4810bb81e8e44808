-- ===== src/Console.antt =====
-- internal/console: the results of the SQL console, the sessions that keep them and their exports.
-- Text is its bytes.
pub mod Sessions
pub mod Export
pub mod Handlers
pub mod Tests
use lynceus.Prelude.{ℕ, String, List}
use lynceus.Audit.Canonical.{Bytes}

-- A float64 is its bit pattern, as it is only passed on.
pub record ConsoleResult : Type 0 where
  pub columns : List Bytes
  pub rows : List (List Bytes)
  pub duration_ms : ℕ
