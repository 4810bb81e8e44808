-- ===== src/LogParse/Scan/Written.antt =====
-- internal/logparse/scanner.go: the records that a server wrote come out as they went in.
use lynceus.Prelude.{
  ℕ, zero, suc, ◌≡◌, refl, ap, ◌∙◌, Bool, true, false, ◌||◌, ◌<◌, ◌≤◌, length-append, append-nil,
  Option, none, List, [], ◌∷◌, ◌++◌, map, append_assoc, any, All, length, eqb, arith,
}
use lynceus.Prelude.Result.{Error}
use lynceus.LogParse.{Text}
use lynceus.LogParse.Scan.{
  Line, tab, newline_code, is_nil, starts_with_tab, read_lines, record_of, and_record, scan_stderr,
  scanned, scan_all,
}

-- A record as PostgreSQL writes it: its first line, and the further ones, each after a tab.
pub record Written : Type 0 where
  pub head : Text
  pub more : List Text

abbrev pub has_break : Text → Bool
has_break s = any (λ c. eqb c newline_code) s

abbrev pub begins_with_tab : Text → Bool
begins_with_tab [] = false
begins_with_tab (c ∷ cs) = eqb c tab

pub record IsWritten (w : Written) : Type 0 where
  pub head_some : is_nil w.head ≡ false
  pub head_plain : begins_with_tab w.head ≡ false
  pub head_line : has_break w.head ≡ false
  pub more_lines : All (λ m. has_break m ≡ false) w.more

-- What follows the first line, on the way out and as a record's text.
abbrev pub tail_text : List Text → Text
tail_text [] = []
tail_text (m ∷ ms) = newline_code ∷ tab ∷ m ++ tail_text ms

abbrev pub text_of : Written → Text
text_of w = w.head ++ tail_text w.more

abbrev pub print : List Written → Text
print [] = []
print (w ∷ ws) = text_of w ++ newline_code ∷ print ws

abbrev ended : Text → Line
ended t = record { text = t; ended = true }

abbrev more_of : List Text → List Line
more_of [] = []
more_of (m ∷ ms) = ended (tab ∷ m) ∷ more_of ms

abbrev lines_of : List Written → List Line
lines_of [] = []
lines_of (w ∷ ws) = ended w.head ∷ more_of w.more ++ lines_of ws

pub or_false : (a b : Bool) → (a || b) ≡ false → (a ≡ false) × (b ≡ false)
or_false false b h = (refl, h)
or_false true b h = cc

read_lines-line :
    (t rest : Text)
    → has_break t ≡ false
    → read_lines (t ++ newline_code ∷ rest) ≡ ended t ∷ read_lines rest
unfolding read_lines
read_lines-line [] rest h = refl
read_lines-line (c ∷ cs) rest h =
    let (plain, later) = or_false (eqb c newline_code) (has_break cs) h in
    rw (plain, read_lines-line cs rest later) refl

read_lines-tail :
    (ms : List Text) (rest : Text)
    → All (λ m. has_break m ≡ false) ms
    → (t : Text) → has_break t ≡ false
    → read_lines (t ++ tail_text ms ++ newline_code ∷ rest)
      ≡ ended t ∷ more_of ms ++ read_lines rest
read_lines-tail [] rest h t k = rw (append-nil t) (read_lines-line t rest k)
read_lines-tail (m ∷ ms) rest h t k =
    ap read_lines (append_assoc t (newline_code ∷ tab ∷ m ++ tail_text ms) (newline_code ∷ rest))
    ∙ read_lines-line t (tab ∷ (m ++ tail_text ms) ++ newline_code ∷ rest) k
    ∙ ap (λ ls. ended t ∷ ls) (read_lines-tail ms rest h.1 (tab ∷ m) h.0)

read_lines-print : (ws : List Written) → All IsWritten ws → read_lines (print ws) ≡ lines_of ws
unfolding read_lines
read_lines-print [] h = refl
read_lines-print (w ∷ ws) h =
    read_lines-tail w.more (print ws) h.0.more_lines w.head h.0.head_line
    ∙ ap (λ ls. ended w.head ∷ more_of w.more ++ ls) (read_lines-print ws h.1)

-- No lines, or a first line that continues no record.
abbrev IsOpening : List Line → Type 0
IsOpening [] = Unit
IsOpening (l ∷ ls) = starts_with_tab l ≡ false

is_nil-append : (b t : Text) → is_nil (b ++ newline_code ∷ t) ≡ false
is_nil-append [] t = refl
is_nil-append (c ∷ cs) t = refl

lines_of-IsOpening : (ws : List Written) → All IsWritten ws → IsOpening (lines_of ws)
lines_of-IsOpening [] h = tt
lines_of-IsOpening (w ∷ ws) h = plain w.head h.0.head_plain
  where
    plain : (t : Text) → begins_with_tab t ≡ false → starts_with_tab (ended t) ≡ false
    plain [] k = refl
    plain (c ∷ cs) k = k

scan_stderr-more :
    (failure : Option Error) (ms : List Text) (b : Text) (rest : List Line)
    → is_nil b ≡ false
    → IsOpening rest
    → scan_stderr failure b (more_of ms ++ rest) ≡ record_of (b ++ tail_text ms) rest
unfolding scan_stderr
scan_stderr-more failure [] b [] h k = rw (h, append-nil b) refl
scan_stderr-more failure [] b (l ∷ ls) h k = rw (h, k, append-nil b) refl
scan_stderr-more failure (m ∷ ms) b rest h k =
    rw h
      (scan_stderr-more failure ms (b ++ newline_code ∷ tab ∷ m) rest (is_nil-append b (tab ∷ m)) k)
    ∙ ap (λ t. record_of t rest) (append_assoc b (newline_code ∷ tab ∷ m) (tail_text ms))

scan_all-lines :
    (failure : Option Error) (n : ℕ) (ws : List Written)
    → length ws < n
    → All IsWritten ws
    → scan_all n failure (lines_of ws) ≡ (map text_of ws, none)
unfolding scan_all scan_stderr
scan_all-lines failure (suc n) [] k h = refl
scan_all-lines failure zero ws k h = absurd (omega arith)
scan_all-lines failure (suc n) (w ∷ ws) k h =
    ap (scanned (scan_all n failure)) (
      scan_stderr-more failure w.more w.head (lines_of ws) h.0.head_some
        (lines_of-IsOpening ws h.1))
    ∙ ap (λ r. and_record (text_of w) r) (scan_all-lines failure n ws (omega arith) h.1)

length-lines_of : (ws : List Written) → length ws ≤ length (lines_of ws)
length-lines_of [] = omega arith
length-lines_of (w ∷ ws) =
    omega (arith, length-append (more_of w.more) (lines_of ws), length-lines_of ws)

-- The records that were written are those that are scanned.
pub scan_all-print :
    (failure : Option Error) (ws : List Written)
    → All IsWritten ws
    → scan_all (suc (length (read_lines (print ws)))) failure (read_lines (print ws))
      ≡ (map text_of ws, none)
scan_all-print failure ws h =
    let same = read_lines-print ws h in
    ap (λ ls. scan_all (suc (length ls)) failure ls) same
    ∙ scan_all-lines failure (suc (length (lines_of ws))) ws (omega (arith, length-lines_of ws)) h

-- One record by itself, whatever its first line begins with.
pub scan_all-one :
    (failure : Option Error) (w : Written)
    → is_nil w.head ≡ false
    → has_break w.head ≡ false
    → All (λ m. has_break m ≡ false) w.more
    → scan_all (suc (length (read_lines (print (w ∷ []))))) failure (read_lines (print (w ∷ [])))
      ≡ (text_of w ∷ [], none)
unfolding scan_all scan_stderr read_lines
scan_all-one failure w some_head plain lines =
    ap (λ ls. scan_all (suc (length ls)) failure ls) (read_lines-tail w.more [] lines w.head plain)
    ∙ ap (scanned (scan_all (length (ended w.head ∷ more_of w.more ++ [])) failure))
        (scan_stderr-more failure w.more w.head [] some_head tt)
