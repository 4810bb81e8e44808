-- ===== src/LogParse/Stream/RoundTrip.antt =====
-- internal/logparse/framework.go: what PostgreSQL wrote to stderr is what `ParseStream` returns.
use lynceus.Prelude.{
  ℕ, zero, suc, ◌≡◌, refl, sym, ap, ap₂, ◌∙◌, subst, false, Option, none, some, List, [], ◌∷◌, ◌++◌,
  map, append-nil, All, eqb,
}
use lynceus.Prelude.Result.{Error, ok}
use lynceus.LogParse.{Text, stderr, RawRecord}
use lynceus.LogParse.Severities.{parse_severity}
use lynceus.LogParse.Scan.{newline_code, tab}
use lynceus.LogParse.Scan.Written.{
  Written, IsWritten, has_break, tail_text, text_of, print, scan_all-print, or_false,
}
use lynceus.LogParse.Stderr.{
  Captures, before_break, after_first_break, replace_from, replace_all, clean_rest, with_rest,
  compile_prefix, parse_stderr, stderr_record,
}
use lynceus.LogParse.Classify.{classify}
use lynceus.LogParse.Stream.{
  Options, Environment, Source, Parsed, prefix_or_default, parse_records, scan_source, parse_stream,
  parse_record,
}

abbrev old_break : Text
old_break = newline_code ∷ tab ∷ []

abbrev new_break : Text
new_break = newline_code ∷ []

-- The further lines of a message, without their tabs.
abbrev pub plain_tail : List Text → Text
plain_tail [] = []
plain_tail (m ∷ ms) = newline_code ∷ m ++ plain_tail ms

replace_from-line :
    (m rest : Text)
    → has_break m ≡ false
    → replace_from old_break new_break zero (m ++ newline_code ∷ tab ∷ rest)
      ≡ m ++ newline_code ∷ replace_from old_break new_break zero rest
replace_from-line [] rest h = refl
replace_from-line (c ∷ cs) rest h =
    let (plain, later) = or_false (eqb c newline_code) (has_break cs) h in
    rw plain (ap (λ t. c ∷ t) (replace_from-line cs rest later))

replace_from-plain : (m : Text) → has_break m ≡ false → replace_from old_break new_break zero m ≡ m
replace_from-plain [] h = refl
replace_from-plain (c ∷ cs) h =
    let (plain, later) = or_false (eqb c newline_code) (has_break cs) h in
    rw plain (ap (λ t. c ∷ t) (replace_from-plain cs later))

replace_from-tail :
    (m : Text) (ms : List Text)
    → has_break m ≡ false
    → All (λ x. has_break x ≡ false) ms
    → replace_from old_break new_break zero (m ++ tail_text ms) ≡ m ++ plain_tail ms
replace_from-tail m [] h k = rw (append-nil m) (replace_from-plain m h)
replace_from-tail m (x ∷ ms) h k =
    replace_from-line m (x ++ tail_text ms) h
    ∙ ap (λ t. m ++ newline_code ∷ t) (replace_from-tail x ms k.0 k.1)

-- The text after the first line, and what the parser makes of it.
before_break-text :
    (t : Text) (ms : List Text) → has_break t ≡ false → before_break (t ++ tail_text ms) ≡ t
before_break-text [] [] h = refl
before_break-text [] (m ∷ ms) h = refl
before_break-text (c ∷ cs) ms h =
    let (plain, later) = or_false (eqb c newline_code) (has_break cs) h in
    rw plain (ap (λ t. c ∷ t) (before_break-text cs ms later))

with_rest-text :
    (msg t : Text) (ms : List Text)
    → has_break t ≡ false
    → All (λ x. has_break x ≡ false) ms
    → with_rest msg (after_first_break (t ++ tail_text ms)) ≡ msg ++ plain_tail ms
unfolding clean_rest replace_all
with_rest-text msg [] [] h k = sym (append-nil msg)
with_rest-text msg [] (m ∷ ms) h k =
    ap (λ x. msg ++ newline_code ∷ x) (replace_from-tail m ms k.0 k.1)
with_rest-text msg (c ∷ cs) ms h k =
    let (plain, later) = or_false (eqb c newline_code) (has_break cs) h in
    rw plain (with_rest-text msg cs ms later k)

-- A record that was written, and what the prefix's expression captures on its first line.
pub record Logged : Type 0 where
  pub written : Written
  pub captures : Captures

pub record IsLogged (find : Text → Option Captures) (x : Logged) : Type 0 where
  pub written : IsWritten x.written
  pub captured : find x.written.head ≡ some x.captures

abbrev pub message_of : Logged → Text
message_of x = x.captures.msg ++ plain_tail x.written.more

all_written :
    (find : Text → Option Captures) (xs : List Logged)
    → All (IsLogged find) xs
    → All IsWritten (map (λ x. x.written) xs)
all_written find [] h = tt
all_written find (x ∷ xs) h = (h.0.written, all_written find xs h.1)

-- The log of these records, and what it is to return them.
abbrev pub written_log : List Logged → Source
written_log xs = record { content = print (map (λ x. x.written) xs); failure = none }

abbrev pub IsReturned : Environment → List Logged → Parsed × Option Error → Type 0
IsReturned env xs ((events, payloads), e) =
    (map (λ p. p.message) payloads ≡ map message_of xs)
    × (map (λ v. v.severity) events ≡ map (λ x. parse_severity env.go.to_upper x.captures.sev) xs)
    × (e ≡ none)

module _ (env : Environment) (opts : Options) (find : Text → Option Captures)
    (compiled : compile_prefix env.go (prefix_or_default opts.stderr_prefix) ≡ ok find) where
  parse_stderr-text :
      (x : Logged) (n : ℕ)
      → IsLogged find x
      → (rec : RawRecord) × (parse_record env opts stderr (opts.logged_at n) (text_of x.written)
          ≡ ok rec)
        × (rec.message ≡ message_of x)
        × (rec.severity ≡ parse_severity env.go.to_upper x.captures.sev)
  unfolding parse_stderr
  parse_stderr-text x n h = (
    stderr_record env.go (opts.logged_at n) (text_of x.written) (some x.captures),
    rw (compiled, before_break-text x.written.head x.written.more h.written.head_line, h.captured)
        refl,
    with_rest-text x.captures.msg x.written.head x.written.more h.written.head_line
        h.written.more_lines,
    refl,
  )

  parse_records-text :
      (xs : List Logged) (n : ℕ)
      → opts.format ≡ stderr
      → All (IsLogged find) xs
      → (map (λ p. p.message) (parse_records env opts n (map text_of (map (λ x. x.written) xs))).1
          ≡ map message_of xs)
        × (map
              (λ e. e.severity)
              (parse_records env opts n (map text_of (map (λ x. x.written) xs))).0
            ≡ map (λ x. parse_severity env.go.to_upper x.captures.sev) xs)
  unfolding parse_records classify
  parse_records-text [] n f h = (refl, refl)
  parse_records-text (x ∷ xs) n f h =
      let (rec, parsed, text, level) = parse_stderr-text x n h.0 in
      let (texts, levels) = parse_records-text xs (suc n) f h.1 in
      rw (f, parsed) (ap₂ (λ a b. a ∷ b) text texts, ap₂ (λ a b. a ∷ b) level levels)

  -- Where a stderr log is what PostgreSQL wrote, each record a first line that the expression of
  -- the configured prefix matches and further lines after a tab each, the messages that come out
  -- are the messages that went in, line by line and in order, each with its severity, and there is
  -- no error.
  pub parse_stream-print :
      (xs : List Logged)
      → opts.format ≡ stderr
      → All (IsLogged find) xs
      → IsReturned env xs (parse_stream env opts (written_log xs))
  unfolding parse_stream
  parse_stream-print xs f h =
      let (texts, levels) = parse_records-text xs 0 f h in
      let scanned = scan_all-print none (map (λ x. x.written) xs) (all_written find xs h) in
      subst (λ t. IsReturned env xs (parse_records env opts 0 t.0, t.1))
        (sym (ap (λ g. scan_source env opts g (written_log xs)) f ∙ scanned)) (texts, levels, refl)
