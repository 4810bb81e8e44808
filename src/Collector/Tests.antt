-- ===== src/Collector/Tests.antt =====
-- internal/collector/reader.go: two statements, of which the parser rejects one.
use mathlib.Core.List.Memᴰ
use mathlib.Core.List.Permᴰ
use lynceus.Prelude.{
  String, Bool, true, false, ◌≢◌, refl, none, List, [], ◌∷◌, string_eq, ◌==◌, if◌then◌else◌,
}
use lynceus.Prelude.Int.{pos}
use lynceus.Prelude.Result.{msg, ok, err}
use lynceus.Caps.Gate
use lynceus.Policy.{PolicyRow, IsTable}
use lynceus.Policy.Snapshot.{refresh_policy}
use lynceus.Policy.Resolve.{table_reader, refresh}
use lynceus.Collector.Reader.{PgQuery, Statement, Answer, read}
use lynceus.Collector.Reader.Privacy.{IsTier1, read_after_refresh}

abbrev pg : PgQuery
pg = record {
  normalize_text = λ t. if t == "select 42" then ok "select $1" else err (msg "syntax");
  fingerprint_text = λ t. ok "f1";
}

abbrev statement : String → Statement
statement text = record {
  query = text;
  calls = pos 1;
  total_exec_time = 0;
  mean_exec_time = 0;
  rows = pos 1;
  shared_blks_hit = pos 0;
  shared_blks_read = pos 0;
}

abbrev answer : Answer
answer = record {
  rows = ok (ok (statement "select 42") ∷ ok (statement "selec 'secret'") ∷ []);
  rows_err = none;
}

-- No row is stored, and the server's switch is off.
abbrev stored : List PolicyRow
stored = []

stored-IsTable : IsTable stored
stored-IsTable = record {
  unique = λ a b m n s d c. absurd (Memᴰ.not-nil m);
  named = λ a m q. absurd (Memᴰ.not-nil m);
}

abbrev same_order : List PolicyRow → List PolicyRow
same_order rows = rows

abbrev switch_off : String → Bool × Bool
switch_off s = (false, true)

abbrev no_text : String
no_text = ""

abbrev app_text : String
app_text = "app"

abbrev url_text : String
url_text = "http://api"

app_named : app_text ≢ no_text
app_named h = cc

url_named : url_text ≢ no_text
url_named h = cc

read_after_refresh_example :
    IsTier1 pg
      (read pg
        (refresh_policy "http://api"
          (refresh (table_reader same_order stored switch_off) "srv" "app")
          Gate.new_gate)
        "app"
        answer).stats
      (read pg
        (refresh_policy "http://api"
          (refresh (table_reader same_order stored switch_off) "srv" "app")
          Gate.new_gate)
        "app"
        answer).raws
read_after_refresh_example =
    read_after_refresh same_order (λ rows. Permᴰ.refl rows) stored stored-IsTable switch_off "srv"
      "app" "http://api" app_named url_named Gate.new_gate pg answer refl
