-- ===== src/Console/Export.antt =====
-- internal/console/export.go: a result as CSV, as text for the clipboard, and as INSERT statements.
pub mod Reader
pub mod RoundTrip
use lynceus.Prelude.{
  ℕ, ◌^◌, Bool, true, false, ◌||◌, not, eqb, ltb, if◌then◌else◌, Option, none, some, List, [], ◌∷◌,
  ◌++◌, any, filter, length, bytes_eq, ◌==◌,
}
use lynceus.Prelude.Int.{ℤ}
use lynceus.Prelude.Numerals.{parse_int}
use lynceus.Audit.Canonical.{Bytes}
use lynceus.Console.{ConsoleResult}

-- `strings.Join` with a separator.
abbrev pub join : Bytes → List Bytes → Bytes
join sep [] = []
join sep (c ∷ []) = c
join sep (c ∷ d ∷ cs) = c ++ sep ++ join sep (d ∷ cs)

-- `strings.ReplaceAll(s, q, qq)`
abbrev pub doubled : ℕ → Bytes → Bytes
doubled q [] = []
doubled q (b ∷ bs) = if eqb b q then q ∷ q ∷ doubled q bs else b ∷ doubled q bs

abbrev pub copy_guard_bytes : ℕ
copy_guard_bytes = 500000

abbrev pub tsv_row : List Bytes → Bytes
tsv_row cells = join (b'\t' ∷ []) cells

abbrev pub tsv_text : ConsoleResult → Bytes
tsv_text res = tsv_row res.columns ++ b'\n' ∷ join_rows res.rows
  where
    join_rows : List (List Bytes) → Bytes
    join_rows [] = []
    join_rows (r ∷ []) = tsv_row r
    join_rows (r ∷ s ∷ rs) = tsv_row r ++ b'\n' ∷ join_rows (s ∷ rs)

-- The flag says that the text is larger than the guard.
unfoldable pub copy_tsv : ConsoleResult → Bytes × Bool
copy_tsv res =
    let text = tsv_text res in
    if ltb copy_guard_bytes (length text) then ([], true) else (text, false)

abbrev pub quote_byte : ℕ
quote_byte = 34

abbrev pub newline_byte : ℕ
newline_byte = 10

abbrev pub comma_byte : ℕ
comma_byte = 44

abbrev pub is_special : ℕ → Bool
is_special b = eqb b comma_byte || eqb b quote_byte || eqb b newline_byte

unfoldable pub csv_field : Bytes → Bytes
csv_field s = if any is_special s then quote_byte ∷ doubled quote_byte s ++ quote_byte ∷ [] else s

abbrev pub csv_cells : List Bytes → Bytes
csv_cells [] = []
csv_cells (c ∷ []) = csv_field c
csv_cells (c ∷ d ∷ cs) = csv_field c ++ comma_byte ∷ csv_cells (d ∷ cs)

abbrev pub csv_row : List Bytes → Bytes
csv_row cells = csv_cells cells ++ newline_byte ∷ []

abbrev pub csv_rows : List (List Bytes) → Bytes
csv_rows [] = []
csv_rows (r ∷ rs) = csv_row r ++ csv_rows rs

unfoldable pub csv : ConsoleResult → Bytes
csv res = csv_row res.columns ++ csv_rows res.rows

abbrev pub null_text : Bytes
null_text = b'N' ∷ b'U' ∷ b'L' ∷ b'L' ∷ []

abbrev pub never_text : Bytes
never_text = b'n' ∷ b'e' ∷ b'v' ∷ b'e' ∷ b'r' ∷ []

abbrev pub apostrophe : ℕ
apostrophe = 39

abbrev pub without_commas : Bytes → Bytes
without_commas s = filter (λ b. not (eqb b comma_byte)) s

abbrev pub number_or_text : Bytes → Option ℤ → Bytes
number_or_text s (some n) = without_commas s
number_or_text s none = apostrophe ∷ doubled apostrophe s ++ apostrophe ∷ []

unfoldable pub sql_literal : Bytes → Bytes
sql_literal s =
    if (s == never_text) || (s == [])
    then null_text
    else number_or_text s (parse_int (without_commas s))

abbrev pub literals : List Bytes → List Bytes
literals [] = []
literals (c ∷ cs) = sql_literal c ∷ literals cs

abbrev pub insert_into : Bytes
insert_into = b'I' ∷ b'N' ∷ b'S' ∷ b'E' ∷ b'R' ∷ b'T' ∷ b' ' ∷ b'I' ∷ b'N' ∷ b'T' ∷ b'O' ∷ b' ' ∷ []

abbrev pub values : Bytes
values = b')' ∷ b' ' ∷ b'V' ∷ b'A' ∷ b'L' ∷ b'U' ∷ b'E' ∷ b'S' ∷ b' ' ∷ b'(' ∷ []

abbrev pub comma_space : Bytes
comma_space = b',' ∷ b' ' ∷ []

abbrev pub insert_row : ConsoleResult → Bytes → List Bytes → Bytes
insert_row res table row =
    insert_into
    ++ table
    ++ b' ' ∷ b'(' ∷ join comma_space res.columns
    ++ values
    ++ join comma_space (literals row)
    ++ b')' ∷ b';' ∷ b'\n' ∷ []

abbrev pub insert_rows : ConsoleResult → Bytes → List (List Bytes) → Bytes
insert_rows res table [] = []
insert_rows res table (r ∷ rs) = insert_row res table r ++ insert_rows res table rs

unfoldable pub sql_inserts : ConsoleResult → Bytes → Bytes
sql_inserts res table = insert_rows res table res.rows
