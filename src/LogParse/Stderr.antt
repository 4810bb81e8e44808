-- ===== src/LogParse/Stderr.antt =====
-- internal/logparse/parser_stderr.go, and what both parsers share. Regular expressions, times and
-- upper case are the standard library's.
use lynceus.Prelude.{
  ℕ, zero, suc, ◌-◌, ◌+◌, ◌*◌, ◌^◌, min, ltb, eqb, if◌then◌else◌, Option, none, some, List, [], ◌∷◌,
  ◌++◌, length, bytes_eq,
}
use lynceus.Prelude.Int.{ℤ, pos, minus}
use lynceus.Prelude.Text.{codes}
use lynceus.Prelude.Numerals.{is_digit}
use lynceus.Prelude.Result.{Result, ok, label, ◌>>=◌}
use lynceus.Ingest.Rows.{Time, zero_time}
use lynceus.LogParse.{Text, RawRecord, unknown}
use lynceus.LogParse.Severities.{has_prefix, parse_severity}
use lynceus.LogParse.Scan.{tab, newline_code}

-- What the named groups of the prefix's expression matched; a group that is not there is empty.
pub record Captures : Type 0 where
  pub m : Text
  pub t : Text
  pub p : Text
  pub a : Text
  pub u : Text
  pub d : Text
  pub h : Text
  pub sev : Text
  pub msg : Text

-- What the parsers use of the standard library: `strings.ToUpper`, `regexp.QuoteMeta`,
-- `regexp.Compile` with `FindStringSubmatch`, and `time.Parse` in UTC.
pub record Library : Type 0 where
  pub to_upper : Text → Text
  pub quote_meta : Text → Text
  pub compile : Text → Result (Text → Option Captures)
  pub parse_time : (layout s : Text) → Option Time

-- `strconv.ParseInt` without its error: the number at which it stopped, or 0 at another character.
-- The unsigned number stops growing at 64 bits.
abbrev pub digit_run : ℕ → Text → ℕ
digit_run acc [] = acc
digit_run acc (c ∷ cs) =
    let v = 10 * acc + (c - 48) in
    let rest = digit_run v cs in
    if is_digit c then (if ltb v (2 ^ 64) then rest else 2 ^ 64 - 1) else 0

abbrev pub atoi64 : Text → ℤ
atoi64 [] = pos 0
atoi64 (c ∷ cs) =
    if eqb c b'-'
    then minus 0 (min (digit_run 0 cs) (2 ^ 63))
    else if eqb c b'+'
    then pos (min (digit_run 0 cs) (2 ^ 63 - 1))
    else pos (min (digit_run 0 (c ∷ cs)) (2 ^ 63 - 1))

-- `strings.ReplaceAll`: `skip` characters of a match are still to be passed over.
abbrev pub replace_from : (old new : Text) → (skip : ℕ) → Text → Text
replace_from old new skip [] = []
replace_from old new (suc k) (c ∷ cs) = replace_from old new k cs
replace_from old new zero (c ∷ cs) =
    let kept = replace_from old new zero cs in
    let replaced = replace_from old new (length old - 1) cs in
    if has_prefix (c ∷ cs) old then new ++ replaced else c ∷ kept

unfoldable pub replace_all : (s old new : Text) → Text
replace_all s old new = replace_from old new zero s

-- The escapes of log_line_prefix, each with the expression that takes its place.
abbrev pub stderr_tokens : List (Text × Text)
stderr_tokens =
    (codes "%m", codes "(?P<m>\\d{4}-\\d{2}-\\d{2} \\d{2}:\\d{2}:\\d{2}\\.\\d{3} [A-Z]+)")
    ∷ (codes "%t", codes "(?P<t>\\d{4}-\\d{2}-\\d{2} \\d{2}:\\d{2}:\\d{2} [A-Z]+)")
    ∷ (codes "%p", codes "(?P<p>\\d+)")
    ∷ (codes "%a", codes "(?P<a>[^ \\[]*)")
    ∷ (codes "%u", codes "(?P<u>[^ \\[]*)")
    ∷ (codes "%d", codes "(?P<d>[^ \\[]*)")
    ∷ (codes "%h", codes "(?P<h>[^ \\[]*)")
    ∷ []

-- `strings.Cut(line, "\n")`
abbrev pub before_break : Text → Text
before_break [] = []
before_break (c ∷ cs) = let rest = before_break cs in if eqb c newline_code then [] else c ∷ rest

abbrev pub after_first_break : Text → Text
after_first_break [] = []
after_first_break (c ∷ cs) =
    let rest = after_first_break cs in if eqb c newline_code then cs else rest

-- `strings.TrimPrefix(s, "\t")`
abbrev pub trim_tab : Text → Text
trim_tab [] = []
trim_tab (c ∷ cs) = if eqb c tab then cs else c ∷ cs

unfoldable pub clean_rest : Text → Text
clean_rest rest = trim_tab (replace_all rest (newline_code ∷ tab ∷ []) (newline_code ∷ []))

abbrev pub with_rest : (msg rest : Text) → Text
with_rest msg [] = msg
with_rest msg (c ∷ cs) = msg ++ newline_code ∷ clean_rest (c ∷ cs)

abbrev pub time_or_zero : Option Time → Time
time_or_zero none = zero_time
time_or_zero (some t) = t

abbrev pub or_else : Option Time → Option Time → Option Time
or_else none b = b
or_else (some t) b = some t

abbrev pub millis_layout : Text
millis_layout = codes "2006-01-02 15:04:05.000 MST"

abbrev pub seconds_layout : Text
seconds_layout = codes "2006-01-02 15:04:05 MST"

-- The record of a line that the prefix does not match.
abbrev pub unparsed : Time → Text → RawRecord
unparsed logged_at line = record {
  logged_at = logged_at;
  occurred_at = zero_time;
  severity = unknown;
  sql_state = [];
  pid = pos 0;
  backend_type = [];
  database_name = [];
  user_name = [];
  app_name = [];
  client_addr = [];
  session_line = pos 0;
  txn_id = pos 0;
  message = line;
  detail = [];
  hint = [];
  statement_text = [];
  internal_query = [];
  context_line = [];
}

module _ (go : Library) where
  abbrev pub parse_if_some : (layout s : Text) → Option Time
  parse_if_some layout [] = none
  parse_if_some layout (c ∷ cs) = go.parse_time layout (c ∷ cs)

  abbrev pub parse_stderr_timestamp : (m t : Text) → Time
  parse_stderr_timestamp m t =
      time_or_zero (or_else (parse_if_some millis_layout m) (parse_if_some seconds_layout t))

  abbrev pub replace_tokens : List (Text × Text) → Text → Text
  replace_tokens [] expr = expr
  replace_tokens (x ∷ xs) expr = replace_tokens xs (replace_all expr (go.quote_meta x.0) x.1)

  abbrev pub compile_prefix : Text → Result (Text → Option Captures)
  compile_prefix prefix = go.compile (
      codes "^"
      ++ replace_tokens stderr_tokens (go.quote_meta prefix)
      ++ codes "(?P<sev>PANIC|FATAL|ERROR|WARNING|NOTICE|INFO|LOG|DEBUG[1-5]?):  ?(?P<msg>.*)$")

  abbrev pub stderr_record : Time → (line : Text) → Option Captures → RawRecord
  stderr_record logged_at line none = unparsed logged_at line
  stderr_record logged_at line (some c) = record (unparsed logged_at line) {
    occurred_at = parse_stderr_timestamp c.m c.t;
    pid = atoi64 c.p;
    app_name = c.a;
    user_name = c.u;
    database_name = c.d;
    client_addr = c.h;
    severity = parse_severity go.to_upper c.sev;
    message = with_rest c.msg (after_first_break line);
  }

  unfoldable pub parse_stderr : (line : Text) → Time → (prefix : Text) → Result RawRecord
  parse_stderr line logged_at prefix = label "compile prefix" (compile_prefix prefix) >>= λ find.
      ok (stderr_record logged_at line (find (before_break line)))
