-- ===== src/LogParse/Stream.antt =====
-- internal/logparse/framework.go: `ParseStream`.
pub mod RoundTrip
use lynceus.Prelude.{ℕ, suc, Option, none, some, List, [], ◌∷◌, length, map}
use lynceus.Prelude.Text.{codes}
use lynceus.Prelude.Result.{Error, Result, ok, err}
use lynceus.Ingest.Rows.{Time}
use lynceus.LogParse.{Text, Format, csv, stderr, RawRecord, LogEvent, LogPayload}
use lynceus.LogParse.Scan.{read_lines, scan_all}
use lynceus.LogParse.Stderr.{Library, parse_stderr}
use lynceus.LogParse.Csv.{CsvLibrary, trim_breaks, parse_csv}
use lynceus.LogParse.Classify.{Expressions, default_rules, classify}

-- `logged_at` is the time at the given call of the clock.
pub record Options : Type 0 where
  pub format : Format
  pub stderr_prefix : Text
  pub logged_at : ℕ → Time

-- What the package uses that is outside the repository.
pub record Environment : Type 0 where
  pub go : Library
  pub csv_library : CsvLibrary
  pub expressions : Expressions
  pub hex_sha256 : Text → Text

-- A stream: its content, and what the reader answers after it, if not `io.EOF`.
pub record Source : Type 0 where
  pub content : Text
  pub failure : Option Error

abbrev pub prefix_or_default : Text → Text
prefix_or_default [] = codes "%m [%p] "
prefix_or_default (c ∷ cs) = c ∷ cs

abbrev pub Parsed : Type 0
Parsed = List LogEvent × List LogPayload

abbrev pub and_pair : LogEvent × LogPayload → Parsed → Parsed
and_pair (e, p) (es, ps) = (e ∷ es, p ∷ ps)

module _ (env : Environment) (opts : Options) where
  abbrev pub parse_record : Format → Time → Text → Result RawRecord
  parse_record csv at raw = parse_csv env.go env.csv_library raw at
  parse_record stderr at raw = parse_stderr env.go raw at (prefix_or_default opts.stderr_prefix)

  -- A record that does not parse is dropped.
  abbrev pub classified : Result RawRecord → Parsed → Parsed
  classified (err e) rest = rest
  classified (ok rec) rest =
      and_pair (classify env.hex_sha256 (default_rules env.expressions) rec) rest

  unfoldable pub parse_records : (call : ℕ) → List Text → Parsed
  parse_records n [] = ([], [])
  parse_records n (raw ∷ raws) =
      classified (parse_record opts.format (opts.logged_at n) raw) (parse_records (suc n) raws)

  -- The scanner of a csvlog writes each row out again.
  abbrev pub rewritten : List (List Text) × Option Error → List Text × Option Error
  rewritten (rows, e) = (map (λ row. trim_breaks (env.csv_library.write_row row)) rows, e)

  abbrev pub scan_source : Format → Source → List Text × Option Error
  scan_source csv src = rewritten (env.csv_library.rows src.content)
  scan_source stderr src =
      let ls = read_lines src.content in scan_all (suc (length ls)) src.failure ls

  unfoldable pub parse_stream : Source → Parsed × Option Error
  parse_stream src =
      let scanned = scan_source opts.format src in (parse_records 0 scanned.0, scanned.1)
