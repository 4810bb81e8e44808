-- ===== src/LogParse/Tests.antt =====
-- internal/logparse: a stderr log of two records, of which the first has three lines.
use lynceus.Prelude.{◌≡◌, refl, Bool, true, false, Option, none, some, List, [], ◌∷◌, flat_map}
use lynceus.Prelude.Int.{pos, negsuc}
use lynceus.Prelude.Text.{codes}
use lynceus.Prelude.Result.{ok}
use lynceus.Ingest.Rows.{zero_time}
use lynceus.LogParse.{Text, stderr}
use lynceus.LogParse.Scan.{tab, newline_code, read_lines, scan_all, scan_stderr}
use lynceus.LogParse.Scan.Lossless.{visible, scan_all-IsLossless}
use lynceus.LogParse.Scan.Split.{records_of, records_of-split}
use lynceus.LogParse.Stderr.{Captures, Library, atoi64}
use lynceus.LogParse.Csv.{CsvLibrary}
use lynceus.LogParse.Classify.{Expressions}
use lynceus.LogParse.Stream.{Options, Environment, parse_stream}
use lynceus.LogParse.Stream.RoundTrip.{Logged, written_log, IsReturned, parse_stream-print}

-- Every line is an error whose message is the line.
abbrev pub capture : Text → Captures
capture line = record {
  m = [];
  t = [];
  p = codes "42";
  a = [];
  u = [];
  d = [];
  h = [];
  sev = codes "ERROR";
  msg = line;
}

abbrev pub find_any : Text → Option Captures
find_any line = some (capture line)

abbrev pub go : Library
go = record {
  to_upper = λ t. t;
  quote_meta = λ t. t;
  compile = λ e. ok find_any;
  parse_time = λ l s. none;
}

abbrev pub csv_library : CsvLibrary
csv_library = record { rows = λ t. ([], none); read_row = λ t. ok []; write_row = λ r. [] }

abbrev never : Text → Bool
never t = false

abbrev always : Text → Bool
always t = true

-- Every message is a plan.
abbrev expressions : Expressions
expressions = record {
  auto_explain = always;
  duration = never;
  conn_authorized = never;
  conn_received = never;
  disconnect = never;
  auth_failed = never;
  checkpoint_start = never;
  checkpoint_done = never;
  autovacuum = never;
  manual_vacuum = never;
  deadlock = never;
  lock_acquired = never;
  timeout_cancel = never;
  constraint = never;
  syntax = never;
  temp_file = never;
}

abbrev pub environment : Environment
environment = record {
  go = go;
  csv_library = csv_library;
  expressions = expressions;
  hex_sha256 = λ t. t;
}

abbrev pub options : Options
options = record { format = stderr; stderr_prefix = []; logged_at = λ n. zero_time }

abbrev logged : Text → List Text → Logged
logged head more = record { written = record { head = head; more = more }; captures = capture head }

abbrev log : List Logged
log = logged (codes "a b") (codes "c" ∷ codes "" ∷ []) ∷ logged (codes "d") [] ∷ []

parse_stream-print_example :
    IsReturned environment log (parse_stream environment options (written_log log))
parse_stream-print_example = parse_stream-print environment options find_any refl log refl (
  record {
    written = record {
      head_some = refl;
      head_plain = refl;
      head_line = refl;
      more_lines = (refl, (refl, tt));
    };
    captured = refl;
  },
  (
    record {
      written = record { head_some = refl; head_plain = refl; head_line = refl; more_lines = tt };
      captured = refl;
    },
    tt,
  ),
)

-- A blank line, a record with a further line, and a last line without a newline.
abbrev ragged : Text
ragged = newline_code ∷ b'a' ∷ newline_code ∷ tab ∷ b'b' ∷ newline_code ∷ b'c' ∷ []

ragged-records : records_of ragged ≡ (b'a' ∷ newline_code ∷ tab ∷ b'b' ∷ []) ∷ (b'c' ∷ []) ∷ []
unfolding scan_all scan_stderr read_lines
ragged-records = refl

scan_all-IsLossless_example :
    (flat_map visible (scan_all 5 none (read_lines ragged)).0 ≡ b'a' ∷ tab ∷ b'b' ∷ b'c' ∷ [])
    × ((scan_all 5 none (read_lines ragged)).1 ≡ none)
unfolding read_lines
scan_all-IsLossless_example = scan_all-IsLossless ragged

records_of-split_example :
    (records_of (b'a' ∷ newline_code ∷ []) ≡ (b'a' ∷ []) ∷ [])
    × (records_of (tab ∷ b'b' ∷ newline_code ∷ []) ≡ (tab ∷ b'b' ∷ []) ∷ [])
    × (records_of (b'a' ∷ newline_code ∷ tab ∷ b'b' ∷ newline_code ∷ [])
        ≡ (b'a' ∷ newline_code ∷ tab ∷ b'b' ∷ []) ∷ [])
records_of-split_example = records_of-split (b'a' ∷ []) (b'b' ∷ []) [] [] refl refl refl tt tt

-- A number that does not fit is cut off, also where another character follows, and text is 0.
numbers :
    (atoi64 (codes "-12") ≡ negsuc 11)
    × (atoi64 (codes "99999999999999999999x") ≡ pos 9223372036854775807)
    × (atoi64 (codes "12x") ≡ pos 0)
numbers = (refl, refl, refl)
