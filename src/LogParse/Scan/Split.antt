-- ===== src/LogParse/Scan/Split.antt =====
-- internal/collector/logsource.go and internal/logparse/scanner.go: a chunk that ends at a newline
-- may end within a record.
use lynceus.Prelude.{
  suc, false, ◌≡◌, refl, sym, ap, ◌∙◌, none, List, [], ◌∷◌, ◌++◌, append_assoc, append-All, All,
  length,
}
use lynceus.LogParse.{Text}
use lynceus.LogParse.Scan.{newline_code, tab, is_nil, read_lines, scan_all}
use lynceus.LogParse.Scan.Written.{Written, has_break, tail_text, text_of, print, scan_all-one}

-- The records of a chunk that is read to its end.
abbrev pub records_of : Text → List Text
records_of t = (scan_all (suc (length (read_lines t))) none (read_lines t)).0

abbrev pub written : Text → List Text → Written
written h ms = record { head = h; more = ms }

tail_text-append : (xs ys : List Text) → tail_text (xs ++ ys) ≡ tail_text xs ++ tail_text ys
tail_text-append [] ys = refl
tail_text-append (x ∷ xs) ys =
    ap (λ t. newline_code ∷ tab ∷ t)
      (ap (λ t. x ++ t) (tail_text-append xs ys)
        ∙ sym (append_assoc x (tail_text xs) (tail_text ys)))

text_of-append :
    (h m : Text) (before after : List Text)
    → text_of (written h (before ++ m ∷ after))
      ≡ text_of (written h before) ++ (newline_code ∷ tab ∷ (m ++ tail_text after))
text_of-append h m before after =
    ap (λ t. h ++ t) (tail_text-append before (m ∷ after))
    ∙ sym (append_assoc h (tail_text before) (tail_text (m ∷ after)))

print-split :
    (h m : Text) (before after : List Text)
    → print (written h before ∷ []) ++ print (written (tab ∷ m) after ∷ [])
      ≡ print (written h (before ++ m ∷ after) ∷ [])
print-split h m before after =
    append_assoc (text_of (written h before)) (newline_code ∷ [])
      (print (written (tab ∷ m) after ∷ []))
    ∙ sym (append_assoc (text_of (written h before)) (tail_text (m ∷ after)) (newline_code ∷ []))
    ∙ ap (λ t. t ++ newline_code ∷ []) (sym (text_of-append h m before after))

-- A record of several lines that two chunks share comes out as two records, of which the second
-- begins with a tab, while from one chunk it comes out as one.
pub records_of-split :
    (h m : Text) (before after : List Text)
    → is_nil h ≡ false
    → has_break h ≡ false
    → has_break m ≡ false
    → All (λ x. has_break x ≡ false) before
    → All (λ x. has_break x ≡ false) after
    → (records_of (print (written h before ∷ [])) ≡ text_of (written h before) ∷ [])
      × (records_of (print (written (tab ∷ m) after ∷ [])) ≡ (tab ∷ (m ++ tail_text after)) ∷ [])
      × (records_of (print (written h before ∷ []) ++ print (written (tab ∷ m) after ∷ []))
          ≡ (text_of (written h before) ++ (newline_code ∷ tab ∷ (m ++ tail_text after))) ∷ [])
records_of-split h m before after some_head plain line befores afters = (
  ap (λ r. r.0) (scan_all-one none (written h before) some_head plain befores),
  ap (λ r. r.0) (scan_all-one none (written (tab ∷ m) after) refl line afters),
  ap records_of (print-split h m before after)
      ∙ ap (λ r. r.0)
          (scan_all-one none (written h (before ++ m ∷ after)) some_head plain
            (append-All (λ x. has_break x ≡ false) before (m ∷ after) befores (line, afters)))
      ∙ ap (λ t. t ∷ []) (text_of-append h m before after),
)
