-- ===== src/LogParse/Severities.antt =====
-- internal/logparse/severity.go. `to_upper` is `strings.ToUpper`.
use lynceus.Prelude.{Bool, true, false, if◌then◌else◌, [], ◌∷◌, eqb, ◌≡◌, refl, bytes_eq, ◌==◌}
use lynceus.Prelude.Text.{codes}
use lynceus.Prelude.Numerals.{trim_space}
use lynceus.LogParse.{
  Text, Severity, unknown, debug, log, info, notice, warning, error, fatal, panic,
}

abbrev pub severity_name : Severity → Text
severity_name unknown = []
severity_name debug = codes "DEBUG"
severity_name log = codes "LOG"
severity_name info = codes "INFO"
severity_name notice = codes "NOTICE"
severity_name warning = codes "WARNING"
severity_name error = codes "ERROR"
severity_name fatal = codes "FATAL"
severity_name panic = codes "PANIC"

-- `strings.HasPrefix`
abbrev pub has_prefix : (s prefix : Text) → Bool
has_prefix s [] = true
has_prefix [] (p ∷ ps) = false
has_prefix (c ∷ cs) (p ∷ ps) = let rest = has_prefix cs ps in if eqb c p then rest else false

abbrev pub parse_upper : Text → Severity
parse_upper s =
    if s == codes "PANIC"
    then panic
    else if s == codes "FATAL"
    then fatal
    else if s == codes "ERROR"
    then error
    else if s == codes "WARNING"
    then warning
    else if s == codes "NOTICE"
    then notice
    else if s == codes "INFO"
    then info
    else if s == codes "LOG"
    then log
    else if has_prefix s (codes "DEBUG")
    then debug
    else unknown

abbrev pub parse_severity : (to_upper : Text → Text) → Text → Severity
parse_severity to_upper s = parse_upper (to_upper (trim_space s))

-- The name of a severity reads back as that severity.
parse_upper-severity_name : (s : Severity) → parse_upper (severity_name s) ≡ s
parse_upper-severity_name unknown = refl
parse_upper-severity_name debug = refl
parse_upper-severity_name log = refl
parse_upper-severity_name info = refl
parse_upper-severity_name notice = refl
parse_upper-severity_name warning = refl
parse_upper-severity_name error = refl
parse_upper-severity_name fatal = refl
parse_upper-severity_name panic = refl
