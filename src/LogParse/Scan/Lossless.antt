-- ===== src/LogParse/Scan/Lossless.antt =====
-- internal/logparse/scanner.go: the scanner loses nothing but newlines.
use lynceus.Prelude.{
  ℕ, zero, suc, ◌≡◌, refl, sym, ap, ◌∙◌, subst, Bool, true, false, not, ◌&&◌, ◌<◌, ◌≤◌,
  if◌then◌else◌, none, List, [], ◌∷◌, ◌++◌, append_assoc, filter, flat_map, length, eqb, arith,
  Bool-cases, inl, inr,
}
use lynceus.LogParse.{Text}
use lynceus.LogParse.Scan.{
  Line, newline_code, is_nil, starts_with_tab, after_break, with_code, read_lines, Scanned,
  record_of, at_end, broken, joined, finish_record, unended, scan_stderr, scanned, scan_all,
}

-- A text without its newlines.
abbrev pub visible : Text → Text
visible t = filter (λ c. not (eqb c newline_code)) t

abbrev pub visible_lines : List Line → Text
visible_lines [] = []
visible_lines (l ∷ ls) = visible l.text ++ visible_lines ls

-- Only the last line may be without a newline.
abbrev IsStream : List Line → Type 0
IsStream [] = Unit
IsStream (l ∷ ls) = (l.ended ≡ false → ls ≡ []) × IsStream ls

read_lines-IsStream : (t : Text) → IsStream (read_lines t)
unfolding read_lines
read_lines-IsStream [] = tt
read_lines-IsStream (c ∷ cs) = go (eqb c newline_code) (read_lines cs) (read_lines-IsStream cs)
  where
    go :
        (b : Bool) (ls : List Line)
        → IsStream ls
        → IsStream (if b then after_break ls else with_code c ls)
    go true ls h = (λ e. cc, h)
    go false [] h = (λ e. refl, tt)
    go false (l ∷ ls) h = h

visible_lines-read_lines : (t : Text) → visible_lines (read_lines t) ≡ visible t
unfolding read_lines
visible_lines-read_lines [] = refl
visible_lines-read_lines (c ∷ cs) =
    go (eqb c newline_code) (read_lines cs) (visible_lines-read_lines cs) refl
  where
    go :
        (b : Bool) (ls : List Line)
        → visible_lines ls ≡ visible cs
        → eqb c newline_code ≡ b
        → visible_lines (if b then after_break ls else with_code c ls) ≡ visible (c ∷ cs)
    go true ls h e = rw e h
    go false [] h e = rw e (ap (λ t. c ∷ t) h)
    go false (l ∷ ls) h e = rw e (ap (λ t. c ∷ t) h)

visible-append : (s t : Text) → visible (s ++ t) ≡ visible s ++ visible t
visible-append [] t = refl
visible-append (c ∷ cs) t = elim (Bool-cases (eqb c newline_code)) [
  | inl e ↦ rw e (visible-append cs t)
  | inr e ↦ rw e (ap (λ x. c ∷ x) (visible-append cs t))
]

visible-joined : (b t : Text) → visible (joined b t) ≡ visible b ++ visible t
visible-joined [] t = refl
visible-joined (c ∷ cs) t = visible-append (c ∷ cs) (newline_code ∷ t)

-- The record and what is left hold what there was, and something was read.
abbrev IsRest : Text → List Line → Scanned → Type 0
IsRest b ls (record_of t rest) =
    (visible t ++ visible_lines rest ≡ visible b ++ visible_lines ls)
    × (length rest ≤ length ls)
    × (is_nil b ≡ true → length rest < length ls)
    × IsStream rest
IsRest b ls at_end = visible b ++ visible_lines ls ≡ []
IsRest b ls (broken e) = Path Bool true false

moved :
    (b : Text) (l : Line) (ls : List Line)
    → visible (joined b l.text) ++ visible_lines ls ≡ visible b ++ visible_lines (l ∷ ls)
moved b l ls =
    ap (λ t. t ++ visible_lines ls) (visible-joined b l.text)
    ∙ append_assoc (visible b) (visible l.text) (visible_lines ls)

finish-IsRest : (b : Text) → IsRest b [] (finish_record b [])
finish-IsRest [] = refl
finish-IsRest (c ∷ cs) = (refl, omega arith, λ e. cc, tt)

-- What holds of the lines after the first holds with it, as its text is in the buffer.
one_more :
    (b : Text) (l : Line) (ls : List Line) (r : Scanned)
    → IsRest (joined b l.text) ls r
    → IsRest b (l ∷ ls) r
one_more b l ls (record_of t rest) (same, less, fewer, stream) =
    (same ∙ moved b l ls, omega (arith, less), λ e. omega (arith, less), stream)
one_more b l ls at_end h = sym (moved b l ls) ∙ h
one_more b l ls (broken e) h = h

scan_stderr-IsRest : (ls : List Line) (b : Text) → IsStream ls → IsRest b ls (scan_stderr none b ls)
unfolding scan_stderr
scan_stderr-IsRest [] b h = finish-IsRest b
scan_stderr-IsRest (l ∷ ls) b h = go (is_nil b) (starts_with_tab l) l.ended refl h.0 (
    one_more b l ls (scan_stderr none (joined b l.text) ls)
      (scan_stderr-IsRest ls (joined b l.text) h.1))
  where
    go :
        (empty tabbed ended : Bool)
        → is_nil b ≡ empty
        → (ended ≡ false → ls ≡ [])
        → IsRest b (l ∷ ls) (scan_stderr none (joined b l.text) ls)
        → IsRest b (l ∷ ls) (
            if not empty && not tabbed
            then record_of b (l ∷ ls)
            else if ended
            then scan_stderr none (joined b l.text) ls
            else unended none (joined b l.text))
    go false false ended e last more = (refl, omega arith, λ k. cc, h)
    go empty tabbed true e last more = more
    go empty tabbed false e last more = one_more b l ls (finish_record (joined b l.text) []) (
        subst (λ xs. IsRest (joined b l.text) xs (finish_record (joined b l.text) []))
          (sym (last refl)) (finish-IsRest (joined b l.text)))

scan_all-visible :
    (n : ℕ) (ls : List Line)
    → length ls < n
    → IsStream ls
    → (flat_map visible (scan_all n none ls).0 ≡ visible_lines ls) × ((scan_all n none ls).1 ≡ none)
unfolding scan_all
scan_all-visible zero ls k h = absurd (omega arith)
scan_all-visible (suc n) ls k h =
    go (scan_all-visible n) (scan_stderr none [] ls) (scan_stderr-IsRest ls [] h)
  where
    go :
        ((rest : List Line)
          → length rest < n
          → IsStream rest
          → (flat_map visible (scan_all n none rest).0 ≡ visible_lines rest)
            × ((scan_all n none rest).1 ≡ none))
        → (r : Scanned) → IsRest [] ls r
        → (flat_map visible (scanned (scan_all n none) r).0 ≡ visible_lines ls)
          × ((scanned (scan_all n none) r).1 ≡ none)
    go later_ones (record_of t rest) (same, less, fewer, stream) =
        let (later, fine) = later_ones rest (omega (arith, fewer refl)) stream in
        (ap (λ x. visible t ++ x) later ∙ same, fine)
    go later_ones at_end e = (sym e, refl)
    go later_ones (broken e) h = cc

-- Whatever a stderr log holds, the scanner reads all of it without an error, and its records, one
-- after the other, are the log's text in order, newlines aside.
pub scan_all-IsLossless :
    (t : Text)
    → (flat_map visible (scan_all (suc (length (read_lines t))) none (read_lines t)).0 ≡ visible t)
      × ((scan_all (suc (length (read_lines t))) none (read_lines t)).1 ≡ none)
scan_all-IsLossless t =
    let (same, fine) =
      scan_all-visible (suc (length (read_lines t))) (read_lines t) (omega arith)
        (read_lines-IsStream t) in
    (same ∙ visible_lines-read_lines t, fine)
