-- ===== src/Console/Export/RoundTrip.antt =====
-- internal/console/export.go: the reader reads back what `CSV` writes.
use lynceus.Prelude.{
  ℕ, ◌≡◌, refl, sym, ap, ◌∙◌, inl, inr, false, eqb, eqb_iff, Option, none, some, List, [], ◌∷◌,
  ◌++◌, any, append_assoc, append-nil, Bool-cases, arith,
}
use lynceus.Audit.Canonical.{Bytes}
use lynceus.Console.{ConsoleResult}
use lynceus.Console.Export.{
  doubled, quote_byte, newline_byte, comma_byte, is_special, csv_field, csv_cells, csv_row,
  csv_rows, csv,
}
use lynceus.Console.Export.Reader.{
  Mode, Table, emit_separated, new_field, new_row, push, read_csv, read_from, separated, row_start,
  field_start, plain, quoted, closing,
}

prepend : Bytes → Option Table → Option Table
prepend [] t = t
prepend (b ∷ bs) t = push b (prepend bs t)

plain_run :
    (s rest : Bytes)
    → any is_special s ≡ false
    → read_from plain (s ++ rest) ≡ prepend s (read_from plain rest)
unfolding prepend
plain_run [] rest h = refl
plain_run (b ∷ s) rest h =
    let c : eqb b comma_byte ≡ false = ground arith in
    let n : eqb b newline_byte ≡ false = ground arith in
    let q : eqb b quote_byte ≡ false = ground arith in
    rw (q, c, n) (ap (push b) (plain_run s rest (ground arith)))

quoted_run :
    (s rest : Bytes)
    → read_from quoted (doubled quote_byte s ++ rest) ≡ prepend s (read_from quoted rest)
unfolding prepend
quoted_run [] rest = refl
quoted_run (b ∷ s) rest = elim (Bool-cases (eqb b quote_byte)) [
  | inl q ↦ let e = (eqb_iff b quote_byte).0 q in rw e (ap (push quote_byte) (quoted_run s rest))
  | inr q ↦ rw (q, doubled, q) (ap (push b) (quoted_run s rest))
]

prepend-some :
    (s f : Bytes) (fs : List Bytes) (rs : Table)
    → prepend s (some ((f ∷ fs) ∷ rs)) ≡ some (((s ++ f) ∷ fs) ∷ rs)
unfolding prepend
prepend-some [] f fs rs = refl
prepend-some (b ∷ s) f fs rs = ap (push b) (prepend-some s f fs rs)

prepend-none : (s : Bytes) → prepend s none ≡ none
unfolding prepend
prepend-none [] = refl
prepend-none (b ∷ s) = ap (push b) (prepend-none s)

-- The two separators.
data IsSeparator : ℕ → Type 0 where
  comma : IsSeparator comma_byte
  newline : IsSeparator newline_byte

-- The two modes in which a field begins.
data IsStart : Mode → Type 0 where
  row : IsStart row_start
  field : IsStart field_start

open_quote :
    {m : Mode} (bs : Bytes) → IsStart m → read_from m (quote_byte ∷ bs) ≡ read_from quoted bs
open_quote bs row = refl
open_quote bs field = refl

open_other :
    {m : Mode} (b : ℕ) (bs : Bytes)
    → IsStart m
    → eqb b quote_byte ≡ false
    → read_from m (b ∷ bs) ≡ emit_separated b (read_from (separated b plain) bs)
open_other b bs row q = rw q refl
open_other b bs field q = rw q refl

separator_open :
    {m : Mode} {b : ℕ} (bs : Bytes)
    → IsStart m
    → IsSeparator b
    → read_from m (b ∷ bs) ≡ emit_separated b (read_from (separated b plain) bs)
separator_open bs m comma = open_other comma_byte bs m refl
separator_open bs m newline = open_other newline_byte bs m refl

separator_plain :
    {b : ℕ} (bs : Bytes)
    → IsSeparator b
    → read_from plain (b ∷ bs) ≡ emit_separated b (read_from (separated b plain) bs)
separator_plain bs comma = refl
separator_plain bs newline = refl

separator_closing :
    {b : ℕ} (bs : Bytes)
    → IsSeparator b
    → read_from closing (b ∷ bs) ≡ emit_separated b (read_from (separated b plain) bs)
separator_closing bs comma = refl
separator_closing bs newline = refl

bare_run :
    {m : Mode} {b : ℕ} (s rest : Bytes)
    → IsStart m
    → IsSeparator b
    → any is_special s ≡ false
    → read_from m (s ++ b ∷ rest)
      ≡ prepend s (emit_separated b (read_from (separated b plain) rest))
unfolding prepend
bare_run [] rest m b h = separator_open rest m b
bare_run (c ∷ cs) rest m b h =
    let k : eqb c comma_byte ≡ false = ground arith in
    let n : eqb c newline_byte ≡ false = ground arith in
    open_other c (cs ++ _ ∷ rest) m (ground arith)
    ∙ rw (k, n)
        (ap (push c)
          (plain_run cs (_ ∷ rest) (ground arith) ∙ ap (prepend cs) (separator_plain rest b)))

field_run :
    {m : Mode} {b : ℕ} (s rest : Bytes)
    → IsStart m
    → IsSeparator b
    → read_from m (csv_field s ++ b ∷ rest)
      ≡ prepend s (emit_separated b (read_from (separated b plain) rest))
unfolding csv_field
field_run {m} {b} s rest start sep = elim (Bool-cases (any is_special s)) [
  | inl q ↦
      rw (csv_field, q)
        (open_quote ((doubled quote_byte s ++ quote_byte ∷ []) ++ b ∷ rest) start
          ∙ ap (read_from quoted) (append_assoc (doubled quote_byte s) (quote_byte ∷ []) (b ∷ rest))
          ∙ quoted_run s (quote_byte ∷ b ∷ rest)
          ∙ ap (prepend s) (separator_closing rest sep))
  | inr q ↦ rw (csv_field, q) (bare_run s rest start sep q)
]

abbrev add_row : List Bytes → Option Table → Option Table
add_row cells none = none
add_row cells (some rs) = some (cells ∷ rs)

prepend-new_row : (s : Bytes) (t : Option Table) → prepend s (new_row t) ≡ add_row (s ∷ []) t
prepend-new_row s none = prepend-none s
prepend-new_row s (some rs) =
    prepend-some s [] [] rs ∙ ap (λ f. some ((f ∷ []) ∷ rs)) (append-nil s)

prepend-new_field :
    (s : Bytes) (cells : List Bytes) (t : Option Table)
    → prepend s (new_field (add_row cells t)) ≡ add_row (s ∷ cells) t
prepend-new_field s cells none = prepend-none s
prepend-new_field s cells (some rs) =
    prepend-some s [] cells rs ∙ ap (λ f. some ((f ∷ cells) ∷ rs)) (append-nil s)

row_run :
    {m : Mode} (c : Bytes) (cs : List Bytes) (rest : Bytes)
    → IsStart m
    → read_from m (csv_row (c ∷ cs) ++ rest) ≡ add_row (c ∷ cs) (read_from row_start rest)
row_run c [] rest m =
    ap (read_from _) (append_assoc (csv_field c) (newline_byte ∷ []) rest)
    ∙ field_run c rest m newline
    ∙ prepend-new_row c (read_from row_start rest)
row_run {m} c (d ∷ ds) rest start =
    ap (read_from m) (
      append_assoc (csv_field c ++ comma_byte ∷ csv_cells (d ∷ ds)) (newline_byte ∷ []) rest
      ∙ append_assoc (csv_field c) (comma_byte ∷ csv_cells (d ∷ ds)) (newline_byte ∷ rest))
    ∙ field_run c (csv_cells (d ∷ ds) ++ newline_byte ∷ rest) start comma
    ∙ ap (λ t. prepend c (new_field t))
        (ap (read_from field_start)
            (sym (append_assoc (csv_cells (d ∷ ds)) (newline_byte ∷ []) rest))
          ∙ row_run d ds rest field)
    ∙ prepend-new_field c (d ∷ ds) (read_from row_start rest)

-- Every row has a cell.
abbrev pub HasCells : List (List Bytes) → Type 0
HasCells [] = Unit
HasCells ([] ∷ rs) = ⊥
HasCells ((c ∷ cs) ∷ rs) = HasCells rs

rows_run : (rs : List (List Bytes)) → HasCells rs → read_csv (csv_rows rs) ≡ some rs
rows_run [] h = refl
rows_run ([] ∷ rs) h = absurd h
rows_run ((c ∷ cs) ∷ rs) h = row_run c cs (csv_rows rs) row ∙ ap (add_row (c ∷ cs)) (rows_run rs h)

-- A result whose header and rows have cells is read back from its CSV cell by cell, whatever bytes
-- the cells hold, by a reader for which LF ends a line.
pub read_csv-csv :
    (res : ConsoleResult)
    → HasCells (res.columns ∷ res.rows)
    → read_csv (csv res) ≡ some (res.columns ∷ res.rows)
unfolding csv
read_csv-csv res h = rows_run (res.columns ∷ res.rows) h
