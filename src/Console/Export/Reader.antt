-- ===== src/Console/Export/Reader.antt =====
-- A reader of CSV by RFC 4180, with LF ending a line: an independent description of what
-- internal/console/export.go writes.
use lynceus.Prelude.{ℕ, eqb, if◌then◌else◌, Option, none, some, List, [], ◌∷◌}
use lynceus.Audit.Canonical.{Bytes}
use lynceus.Console.Export.{quote_byte, newline_byte, comma_byte}

abbrev pub Table : Type 0
Table = List (List Bytes)

-- A byte before the first field, a field before the first row's, and a row before the rows. What
-- has no first field is not a table that a reader inside a row makes.
abbrev pub push : ℕ → Option Table → Option Table
push b (some ((f ∷ fs) ∷ rs)) = some (((b ∷ f) ∷ fs) ∷ rs)
push b _ = none

abbrev pub new_field : Option Table → Option Table
new_field (some (fs ∷ rs)) = some (([] ∷ fs) ∷ rs)
new_field _ = none

abbrev pub new_row : Option Table → Option Table
new_row (some rs) = some (([] ∷ []) ∷ rs)
new_row none = none

-- At the start of a row, at the start of a later field, in a field without quotes, between quotes,
-- after a quote that may close them, and where the text is no CSV.
pub data Mode : Type 0 where
  row_start field_start plain quoted closing broken : Mode

abbrev pub separated : ℕ → Mode → Mode
separated b m =
    if eqb b comma_byte then field_start else if eqb b newline_byte then row_start else m

abbrev pub next : Mode → ℕ → Mode
next row_start b = if eqb b quote_byte then quoted else separated b plain
next field_start b = if eqb b quote_byte then quoted else separated b plain
next plain b = if eqb b quote_byte then broken else separated b plain
next quoted b = if eqb b quote_byte then closing else quoted
next closing b = if eqb b quote_byte then quoted else separated b broken
next broken b = broken

abbrev pub emit_separated : ℕ → Option Table → Option Table
emit_separated b t =
    if eqb b comma_byte then new_field t else if eqb b newline_byte then new_row t else push b t

abbrev pub emit : Mode → ℕ → Option Table → Option Table
emit quoted b t = if eqb b quote_byte then t else push b t
emit closing b t = if eqb b quote_byte then push b t else emit_separated b t
emit broken b t = none
emit _ b t = if eqb b quote_byte then t else emit_separated b t

abbrev pub at_end : Mode → Option Table
at_end row_start = some []
at_end _ = none

abbrev pub read_from : Mode → Bytes → Option Table
read_from m [] = at_end m
read_from m (b ∷ bs) = emit m b (read_from (next m b) bs)

-- The reader of a whole text.
abbrev pub read_csv : Bytes → Option Table
read_csv text = read_from row_start text
