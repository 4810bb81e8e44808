-- ===== src/Collector/Reader.antt =====
-- internal/collector/reader.go (`Read`): query statistics in the tier that the policy gate allows.
-- pg_query's normalisation and fingerprint and the database's answers are arguments.
pub mod Privacy
use lynceus.Prelude.{
  ℕ, String, Bool, true, false, not, Option, none, some, List, [], ◌∷◌, ◌++◌, if◌then◌else◌, ◌==◌,
  string_eq,
}
use lynceus.Prelude.Int.{ℤ}
use lynceus.Prelude.Result.{Error, Result, ok, err, wrap, label}
use lynceus.Caps.{pg_stat_statements, query_text_t2}
use lynceus.Caps.Gate
use lynceus.Ingest.Wire.{Double, QueryStat, QueryStatRaw}

-- internal/normalize/normalize.go, over the pg_query library.
pub data Tier : Type 0 where
  unknown normalized blocked : Tier

abbrev pub is_normalized : Tier → Bool
is_normalized normalized = true
is_normalized _ = false

pub record PgQuery : Type 0 where
  pub normalize_text : String → Result String
  pub fingerprint_text : String → Result String

unfoldable pub normalize : PgQuery → String → String × Tier
normalize pg query =
    if query == ""
    then ("", blocked)
    else elim (pg.normalize_text query) [ err e ↦ ("", blocked) | ok text ↦ (text, normalized) ]

unfoldable pub fingerprint : PgQuery → String → Result String
fingerprint pg query = label "fingerprint" (pg.fingerprint_text query)

-- A row of pg_stat_statements.
pub record Statement : Type 0 where
  pub query : String
  pub calls : ℤ
  pub total_exec_time : Double
  pub mean_exec_time : Double
  pub rows : ℤ
  pub shared_blks_hit : ℤ
  pub shared_blks_read : ℤ

-- The query's error, or the rows as scanned one by one, and the error at their end.
pub record Answer : Type 0 where
  pub rows : Result (List (Result Statement))
  pub rows_err : Option Error

-- The three results of `Read`.
pub record Stats : Type 0 where
  pub stats : List QueryStat
  pub raws : List QueryStatRaw
  pub error : Option Error

abbrev pub no_stats : Option Error → Stats
no_stats e = record { stats = []; raws = []; error = e }

abbrev pub stat_of : Statement → String → String → QueryStat
stat_of s fp norm = record {
  fingerprint = fp;
  normalized_query = norm;
  calls = s.calls;
  total_time_ms = s.total_exec_time;
  mean_time_ms = s.mean_exec_time;
  rows = s.rows;
  shared_blks_hit = s.shared_blks_hit;
  shared_blks_read = s.shared_blks_read;
}

abbrev pub raw_of : Statement → String → String → QueryStatRaw
raw_of s fp norm = record {
  raw_query = s.query;
  fingerprint = fp;
  normalized_query = norm;
  calls = s.calls;
  total_time_ms = s.total_exec_time;
  mean_time_ms = s.mean_exec_time;
  rows = s.rows;
  shared_blks_hit = s.shared_blks_hit;
  shared_blks_read = s.shared_blks_read;
}

-- A text that the parser rejects, or that has no fingerprint, is dropped.
unfoldable pub read_statement :
    PgQuery
    → Bool
    → Statement
    → List QueryStat × List QueryStatRaw
    → List QueryStat × List QueryStatRaw
unfolding normalize fingerprint
read_statement pg ship_raw s acc =
    let norm = normalize pg s.query in
    if not (is_normalized norm.1) then acc else elim (fingerprint pg s.query) [
      | err e ↦ acc
      | ok fp ↦
          if ship_raw
          then (acc.0, acc.1 ++ raw_of s fp norm.0 ∷ [])
          else (acc.0 ++ stat_of s fp norm.0 ∷ [], acc.1)
    ]

unfoldable pub read_rows :
    PgQuery
    → Bool
    → Option Error
    → List (Result Statement)
    → List QueryStat × List QueryStatRaw
    → Stats
unfolding read_statement
read_rows pg ship_raw e [] acc = record { stats = acc.0; raws = acc.1; error = e }
read_rows pg ship_raw e (err x ∷ rs) acc = no_stats (some (wrap "scan" x))
read_rows pg ship_raw e (ok s ∷ rs) acc =
    read_rows pg ship_raw e rs (read_statement pg ship_raw s acc)

unfoldable pub read : PgQuery → Gate.Gate → String → Answer → Stats
unfolding read_rows
read pg g db a = if not (Gate.allowed g db pg_stat_statements) then no_stats none else elim a.rows [
  | err x ↦ no_stats (some (wrap "query pg_stat_statements" x))
  | ok rs ↦ read_rows pg (Gate.allowed_strict g db query_text_t2) a.rows_err rs ([], [])
]
