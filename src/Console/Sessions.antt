-- ===== src/Console/Sessions.antt =====
-- internal/console/session.go: the ring of recent runs of each actor and cluster.
pub mod History
use lynceus.Prelude.{
  ℕ, zero, suc, ◌<◌, ltb, if◌then◌else◌, Option, none, some, List, [], ◌∷◌, ◌++◌, take, length,
  find, bytes_eq, ◌==◌,
}
use lynceus.Prelude.Int.{ℤ, pos, negsuc}
use lynceus.Prelude.Dict.{Dict, get, put}
use lynceus.Audit.Canonical.{Bytes}
use lynceus.Console.{ConsoleResult}

pub record Run : Type 0 where
  pub id : Bytes
  pub short_hash : Bytes
  pub cluster_id : Bytes
  pub at : ℕ
  pub sql : Bytes
  pub node : Bytes
  pub database : Bytes
  pub result : ConsoleResult
  pub duration_ms : ℕ

pub record Sessions : Type 0 where
  pub by_key : Dict Bytes (List Run)
  pub cap : ℕ

abbrev pub session_key : Bytes → Bytes → Bytes
session_key actor cluster = actor ++ 0 ∷ cluster

abbrev pub capacity : ℤ → ℕ
capacity (pos zero) = 5
capacity (pos (suc n)) = suc n
capacity (negsuc n) = 5

abbrev pub new_sessions : ℤ → Sessions
new_sessions n = record { by_key = []; cap = capacity n }

-- A missing key reads as the nil slice.
abbrev pub runs_or_nil : Option (List Run) → List Run
runs_or_nil none = []
runs_or_nil (some rs) = rs

abbrev pub trimmed : ℕ → List Run → List Run
trimmed cap runs = if ltb cap (length runs) then take cap runs else runs

unfoldable pub append : Sessions → Bytes → Bytes → Run → Sessions
append s actor cluster r =
    let k = session_key actor cluster in
    record s { by_key = put k (trimmed s.cap (r ∷ runs_or_nil (get k s.by_key))) s.by_key }

unfoldable pub recent : Sessions → Bytes → Bytes → List Run
recent s actor cluster = runs_or_nil (get (session_key actor cluster) s.by_key)

abbrev pub first_run : List Run → Option Run
first_run [] = none
first_run (r ∷ rs) = some r

unfoldable pub latest : Sessions → Bytes → Bytes → Option Run
unfolding recent
latest s actor cluster = first_run (recent s actor cluster)

unfoldable pub get_run : Sessions → Bytes → Bytes → Bytes → Option Run
unfolding recent
get_run s actor cluster id = find (λ r. r.id == id) (recent s actor cluster)
