-- ===== src/LogParse/Scan.antt =====
-- internal/logparse/scanner.go: the records of a stderr log, and of a csvlog through encoding/csv.
pub mod Written
pub mod Split
pub mod Lossless
use lynceus.Prelude.{
  ℕ, zero, suc, Bool, true, false, ◌&&◌, not, if◌then◌else◌, Option, none, some, List, [], ◌∷◌,
  ◌++◌, eqb, bytes_eq, ◌==◌,
}
use lynceus.Prelude.Result.{Error}
use lynceus.LogParse.{Text}

-- One answer of `ReadString('\n')`: the line without its newline, and whether it had one.
pub record Line : Type 0 where
  pub text : Text
  pub ended : Bool

abbrev pub tab : ℕ
tab = b'\t'

abbrev pub newline_code : ℕ
newline_code = b'\n'

abbrev pub is_nil : Text → Bool
is_nil [] = true
is_nil (c ∷ cs) = false

-- `Peek(1)` before the line is read.
abbrev pub starts_with_tab : Line → Bool
starts_with_tab l = elim l.text [ [] ↦ false | c ∷ cs ↦ eqb c tab ]

-- The lines that a reader with this content answers, in turn. A newline at the end ends the last.
abbrev pub after_break : (first : List Line) → List Line
after_break ls = record { text = []; ended = true } ∷ ls

abbrev pub with_code : ℕ → List Line → List Line
with_code c [] = record { text = c ∷ []; ended = false } ∷ []
with_code c (l ∷ ls) = record l { text = c ∷ l.text } ∷ ls

unfoldable pub read_lines : Text → List Line
read_lines [] = []
read_lines (c ∷ cs) =
    let rest = read_lines cs in if eqb c newline_code then after_break rest else with_code c rest

-- What `Scan` leaves: a record and the lines to come, the end, or the reader's failure.
pub data Scanned : Type 0 where
  record_of : Text → List Line → Scanned
  at_end : Scanned
  broken : Error → Scanned

-- `b.WriteByte('\n')` stands between lines.
abbrev pub joined : Text → Text → Text
joined b line = if is_nil b then line else b ++ newline_code ∷ line

abbrev pub finish_record : Text → List Line → Scanned
finish_record b rest = if is_nil b then at_end else record_of b rest

-- A line without a newline is the last: the reader then was at its end, or failed.
abbrev pub unended : Option Error → Text → Scanned
unended none b = finish_record b []
unended (some e) b = broken e

-- `failure` is what the reader answers after its content, if not `io.EOF`. `Peek` drops it.
unfoldable pub scan_stderr : (failure : Option Error) → Text → List Line → Scanned
scan_stderr failure b [] = finish_record b []
scan_stderr failure b (l ∷ ls) =
    let more = scan_stderr failure (joined b l.text) ls in
    if not (is_nil b) && not (starts_with_tab l)
    then record_of b (l ∷ ls)
    else if l.ended
    then more
    else unended failure (joined b l.text)

-- All the records that repeated calls of `Scan` give, and the scanner's error.
abbrev pub and_record : Text → List Text × Option Error → List Text × Option Error
and_record b (bs, e) = (b ∷ bs, e)

abbrev pub scanned : (List Line → List Text × Option Error) → Scanned → List Text × Option Error
scanned more (record_of b ls) = and_record b (more ls)
scanned more at_end = ([], none)
scanned more (broken e) = ([], some e)

unfoldable pub scan_all : (fuel : ℕ) → Option Error → List Line → List Text × Option Error
scan_all zero failure ls = ([], none)
scan_all (suc n) failure ls = scanned (scan_all n failure) (scan_stderr failure [] ls)
