-- ===== src/LogPipeline/Tests.antt =====
-- internal/collector/log_pipeline.go: a file of one line, which is a plan.
use lynceus.Prelude.{ℕ, ◌≡◌, refl, false, none, some, List, [], ◌∷◌}
use lynceus.Prelude.Int.{pos, negsuc}
use lynceus.Prelude.Text.{codes}
use lynceus.Prelude.Result.{ok}
use lynceus.Prelude.Numerals.{trim_space}
use lynceus.LogTail.{newline, reopen_if_rotated, read}
use lynceus.LogTail.Tests.{file, narrow}
use lynceus.Checks.Tests.{whole}
use lynceus.PlanExtract.{convert, of_root, extract}
use lynceus.PlanExtract.Tests.{pg, raw}
use lynceus.LogParse.Scan.{read_lines, scan_all, scan_stderr}
use lynceus.LogParse.Stderr.{parse_stderr}
use lynceus.LogParse.Classify.{classify}
use lynceus.LogParse.Stream.{parse_records, parse_stream}
use lynceus.LogParse.Tests.{environment, options}
use lynceus.LogPipeline.{PlanLibrary, DrainResult, drained, LogPipeline, extract_plans, drain}
use lynceus.LogPipeline.QuoteFree.{AreFree, drain-IsQuoteFree}

abbrev library : PlanLibrary
library = record {
  strip_prefix = λ t. t;
  pg_normalize = pg;
  pg_fingerprint = λ t. ok "f1";
  plans_in_array = λ t. none;
  plan_in_object = λ t. some (some raw);
  texts_in_array = λ t. none;
  text_in_object = λ t. some (codes "SELECT");
}

abbrev pipeline : LogPipeline
pipeline = record { src = narrow; opts = options; detect_locally = false }

abbrev one_line : List ℕ
one_line = b'x' ∷ newline ∷ []

abbrev shipped : DrainResult whole.F
shipped = record {
  log_events =
      record {
        event_type = "auto_explain.plan";
        severity = codes "ERROR";
        occurred_at_unix = negsuc 62135596799;
        logged_at_unix = negsuc 62135596799;
        pid = pos 42;
        backend_type = [];
        database_name = [];
        user_name = [];
        application_name = [];
        client_addr_hash = [];
        sql_state = [];
        session_line_num = pos 0;
        transaction_id = pos 0;
      }
      ∷ [];
  query_plans = of_root "f1" (negsuc 62135596799) (convert pg raw) ∷ [];
  insights = some [];
}

shipped-runs : (drain whole library environment (file 7 one_line) pipeline).1 ≡ drained shipped
unfolding drain read parse_stream parse_records parse_stderr classify scan_all scan_stderr
    read_lines extract_plans extract reopen_if_rotated trim_space
shipped-runs = refl

drain-IsQuoteFree_example : AreFree library shipped.query_plans
drain-IsQuoteFree_example =
    drain-IsQuoteFree whole library environment (file 7 one_line) pipeline shipped shipped-runs
