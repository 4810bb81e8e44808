-- ===== src/LogParse/Csv.antt =====
-- internal/logparse/parser_csv.go, over the row that encoding/csv reads.
use lynceus.Prelude.{ℕ, zero, suc, Option, List, [], ◌∷◌, eqb, if◌then◌else◌}
use lynceus.Prelude.Result.{Error, Result, ok, label, ◌>>=◌}
use lynceus.Ingest.Rows.{Time, zero_time}
use lynceus.LogParse.{Text, RawRecord}
use lynceus.LogParse.Severities.{parse_severity}
use lynceus.LogParse.Scan.{newline_code}
use lynceus.LogParse.Stderr.{Library, millis_layout, seconds_layout, time_or_zero, or_else, atoi64}

-- `csv.Reader` and `csv.Writer`: all rows of a stream with the error that ended it, the row of one
-- line, and a row written out.
pub record CsvLibrary : Type 0 where
  pub rows : Text → List (List Text) × Option Error
  pub read_row : Text → Result (List Text)
  pub write_row : List Text → Text

-- A column that the row does not have is empty.
abbrev pub column : ℕ → List Text → Text
column i [] = []
column zero (x ∷ xs) = x
column (suc i) (x ∷ xs) = column i xs

-- `strings.TrimRight(s, "\n")`
abbrev pub keep_unless_break : ℕ → Text → Text
keep_unless_break c [] = if eqb c newline_code then [] else c ∷ []
keep_unless_break c (d ∷ ds) = c ∷ d ∷ ds

abbrev pub trim_breaks : Text → Text
trim_breaks [] = []
trim_breaks (c ∷ cs) = keep_unless_break c (trim_breaks cs)

module _ (go : Library) where
  abbrev pub parse_csv_timestamp : Text → Time
  parse_csv_timestamp [] = zero_time
  parse_csv_timestamp (c ∷ cs) =
      time_or_zero
        (or_else (go.parse_time millis_layout (c ∷ cs)) (go.parse_time seconds_layout (c ∷ cs)))

  abbrev pub csv_record : Time → List Text → RawRecord
  csv_record logged_at row = record {
    logged_at = logged_at;
    occurred_at = parse_csv_timestamp (column 0 row);
    user_name = column 1 row;
    database_name = column 2 row;
    pid = atoi64 (column 3 row);
    client_addr = column 4 row;
    session_line = atoi64 (column 6 row);
    severity = parse_severity go.to_upper (column 11 row);
    sql_state = column 12 row;
    message = column 13 row;
    detail = column 14 row;
    hint = column 15 row;
    internal_query = column 16 row;
    context_line = column 18 row;
    statement_text = column 19 row;
    app_name = column 22 row;
    backend_type = column 23 row;
    txn_id = atoi64 (column 10 row);
  }

  unfoldable pub parse_csv : CsvLibrary → (line : Text) → Time → Result RawRecord
  parse_csv csv line logged_at =
      label "csv read" (csv.read_row line) >>= λ row. ok (csv_record logged_at row)
