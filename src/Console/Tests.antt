-- ===== src/Console/Tests.antt =====
-- internal/console: two actors' runs under a capacity of two, and exports with special bytes.
use lynceus.Prelude.{ℕ, ◌≡◌, ◌≤◌, refl, some, List, [], ◌∷◌, length}
use lynceus.Prelude.Int.{pos}
use lynceus.Prelude.Numerals.{parse_int}
use lynceus.Console.{ConsoleResult}
use lynceus.Console.Sessions.{Run, recent, get_run}
use lynceus.Console.Sessions.History.{Appended, after, IsFound, recent-own}
use lynceus.Console.Export.{csv, sql_literal}
use lynceus.Console.Export.Reader.{read_csv}
use lynceus.Console.Export.RoundTrip.{read_csv-csv}

-- A cell with a quote and a comma, an empty one, and one with a newline.
abbrev table : ConsoleResult
table = record {
  columns = (b'a' ∷ []) ∷ (b'b' ∷ []) ∷ [];
  rows = ((b'x' ∷ b'"' ∷ b',' ∷ []) ∷ [] ∷ []) ∷ ((b'1' ∷ b'\n' ∷ []) ∷ (b'2' ∷ []) ∷ []) ∷ [];
  duration_ms = 0;
}

abbrev numbered : ℕ → Run
numbered n = record {
  id = n ∷ [];
  short_hash = [];
  cluster_id = b'c' ∷ [];
  at = 0;
  sql = [];
  node = [];
  database = [];
  result = table;
  duration_ms = 0;
}

abbrev call : ℕ → ℕ → Appended
call actor n = record { actor = actor ∷ []; cluster = b'c' ∷ []; run = numbered n }

abbrev calls : List Appended
calls = call b'a' 5 ∷ call b'a' 4 ∷ call b'e' 3 ∷ call b'a' 2 ∷ []

recent-own_example :
    let s = after (pos 2) calls in
    (recent s (b'a' ∷ []) (b'c' ∷ []) ≡ numbered 5 ∷ numbered 4 ∷ [])
    × (length (recent s (b'a' ∷ []) (b'c' ∷ [])) ≤ 2)
    × IsFound (2 ∷ []) (get_run s (b'a' ∷ []) (b'c' ∷ []) (2 ∷ [])) (numbered 5 ∷ numbered 4 ∷ [])
recent-own_example =
    recent-own (pos 2) calls (b'a' ∷ []) (b'c' ∷ []) (2 ∷ []) (refl, (refl, (refl, (refl, tt))))
      refl

read_csv-csv_example : read_csv (csv table) ≡ some (table.columns ∷ table.rows)
read_csv-csv_example = read_csv-csv table tt

-- Text with a comma between digits is written as a number.
comma_literal : sql_literal (b'1' ∷ b',' ∷ b'2' ∷ []) ≡ b'1' ∷ b'2' ∷ []
unfolding sql_literal parse_int
comma_literal = refl
