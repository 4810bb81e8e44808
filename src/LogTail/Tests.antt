-- ===== src/LogTail/Tests.antt =====
-- internal/collector/logsource.go: a file of two short lines, and one line longer than the chunk.
use lynceus.Prelude.{
  ℕ, zero, suc, ◌+◌, ◌≤◌, ◌≡◌, refl, inl, leb, if◌then◌else◌, none, some, [], ◌∷◌, ◌++◌, take,
  length, arith,
}
use lynceus.Prelude.Slices.{drop}
use lynceus.Audit.Canonical.{Bytes}
use lynceus.LogTail.{eof, gives, Os, FileTail, newline, read}
use lynceus.LogTail.Lines.{IsServed, IsEnded, moved}
use lynceus.LogTail.Growth.{append, reads, after, Reach, begin, next, Reach-IsPrefix}
use lynceus.LogTail.Drain.{drain, IsShort, read-IsLive, drain-IsComplete, drain-IsStuck}

abbrev pub file : ℕ → Bytes → Os
file ino b = record {
  stat = gives ino;
  open_file = gives ino;
  size_of = λ h. gives (length b);
  read_at = λ h n off. (take n (drop off b), if leb (off + n) (length b) then none else some eof);
}

file-IsServed : (ino : ℕ) (b : Bytes) → IsServed (file ino b) ino b
file-IsServed ino b = record { stat = refl; opens = refl; size = refl; reads = λ n off. refl }

abbrev two_lines : Bytes
two_lines = b'a' ∷ newline ∷ b'b' ∷ newline ∷ []

abbrev half_line : Bytes
half_line = b'a' ∷ newline ∷ b'b' ∷ []

-- A chunk of two bytes.
abbrev pub narrow : FileTail
narrow = record { f = none; inode = 0; offset = 0; max_chunk = 2 }

abbrev long_line : Bytes
long_line = b'a' ∷ b'b' ∷ b'c' ∷ []

narrow-IsShort : IsShort 2 two_lines
narrow-IsShort zero l = refl
narrow-IsShort (suc zero) l = refl
narrow-IsShort (suc (suc zero)) l = refl
narrow-IsShort (suc (suc (suc zero))) l = refl
narrow-IsShort (suc (suc (suc (suc n)))) l = absurd (omega arith)

read-IsLive_example :
    (n : ℕ) × (1 ≤ n)
    × (0 + n ≤ 3)
    × (read (file 7 half_line) narrow ≡ (moved narrow 7 (0 + n), gives (take n half_line)))
read-IsLive_example =
    read-IsLive (file 7 half_line) narrow 7 half_line (file-IsServed 7 half_line) (inl refl) refl

grown : Reach 7 narrow half_line (after (read (file 7 two_lines) narrow) two_lines [])
grown =
    next (next begin (append (newline ∷ []))) (reads (file 7 two_lines) (file-IsServed 7 two_lines))

Reach-IsPrefix_example :
    let got = (after (read (file 7 two_lines) narrow) two_lines []).got in
    ((rest : Bytes) × (two_lines ≡ got ++ rest)) × IsEnded got
Reach-IsPrefix_example = Reach-IsPrefix (inl refl, refl) grown

drain-IsComplete_example : (drain 4 (file 7 two_lines) narrow).1 ≡ two_lines
drain-IsComplete_example =
    drain-IsComplete (file 7 two_lines) narrow 7 two_lines (file-IsServed 7 two_lines)
      (inl refl, refl) narrow-IsShort

drain-IsStuck_example :
    drain 5 (file 7 (long_line ++ newline ∷ [])) (moved narrow 7 0) ≡ (moved narrow 7 0, [])
drain-IsStuck_example =
    drain-IsStuck (file 7 (long_line ++ newline ∷ [])) narrow 7 0 long_line (newline ∷ []) 5
      (file-IsServed 7 (long_line ++ newline ∷ [])) (omega arith) refl
