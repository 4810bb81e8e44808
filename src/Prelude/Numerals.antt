-- ===== src/Prelude/Numerals.antt =====
-- Go's `strings.TrimSpace` and `strconv.ParseInt(s, 10, 64)`, on code points.
use lynceus.Prelude.Tests.{eqb, leb, if◌then◌else◌}
use lynceus.Prelude.Int.{ℤ, pos, minus}
use Prim.Native.Nat.{ℕ, ◌+◌, ◌-◌, ◌*◌, ◌^◌}
use mathlib.Core.Bool.{Bool, ◌&&◌, ◌||◌}
use mathlib.Core.Option.{Option, none, some}
use mathlib.Core.List.{List, [], ◌∷◌}

-- `unicode.IsSpace`
abbrev pub is_space : ℕ → Bool
is_space c =
    (leb 9 c && leb c 13)
    || eqb c 32
    || eqb c 133
    || eqb c 160
    || eqb c 5760
    || (leb 8192 c && leb c 8202)
    || eqb c 8232
    || eqb c 8233
    || eqb c 8239
    || eqb c 8287
    || eqb c 12288

abbrev pub trim_left : List ℕ → List ℕ
trim_left [] = []
trim_left (c ∷ cs) = if is_space c then trim_left cs else c ∷ cs

-- A character that is before spaces only stays, and the spaces go.
abbrev pub keep_right : ℕ → List ℕ → List ℕ
keep_right c [] = if is_space c then [] else c ∷ []
keep_right c (d ∷ ds) = c ∷ d ∷ ds

abbrev pub trim_right : List ℕ → List ℕ
trim_right [] = []
trim_right (c ∷ cs) = keep_right c (trim_right cs)

unfoldable pub trim_space : List ℕ → List ℕ
trim_space cs = trim_right (trim_left cs)

abbrev pub is_digit : ℕ → Bool
is_digit c = leb 48 c && leb c 57

-- The number that the digits after those of `acc` make, or `none` at another character.
abbrev pub digits_from : ℕ → List ℕ → Option ℕ
digits_from acc [] = some acc
digits_from acc (c ∷ cs) = if is_digit c then digits_from (10 * acc + (c - 48)) cs else none

-- At least one digit.
abbrev pub parse_digits : List ℕ → Option ℕ
parse_digits [] = none
parse_digits (c ∷ cs) = digits_from 0 (c ∷ cs)

abbrev pub at_most : ℕ → Option ℕ → Option ℤ
at_most limit none = none
at_most limit (some n) = if leb n limit then some (pos n) else none

abbrev pub at_least : ℕ → Option ℕ → Option ℤ
at_least limit none = none
at_least limit (some n) = if leb n limit then some (minus 0 n) else none

-- The two signs, and the range of int64.
unfoldable pub parse_int : List ℕ → Option ℤ
parse_int [] = none
parse_int (c ∷ cs) =
    if eqb c b'-'
    then at_least (2 ^ 63) (parse_digits cs)
    else if eqb c b'+'
    then at_most (2 ^ 63 - 1) (parse_digits cs)
    else at_most (2 ^ 63 - 1) (parse_digits (c ∷ cs))
