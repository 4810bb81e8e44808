-- ===== src/LogTail/Lines.antt =====
-- internal/collector/logsource.go: what one read of a regular file returns.
use lynceus.Prelude.{
  ℕ, suc, ◌+◌, ◌-◌, ◌≤◌, ◌≡◌, refl, sym, ap, ◌∙◌, ◌⊎◌, inl, inr, Bool, true, false, eqb, ltb, leb,
  ◌&&◌, if◌then◌else◌, none, some, [], ◌∷◌, ◌++◌, min, take, length, any, arith, Bool-cases,
  Option-cases,
}
use lynceus.Prelude.Slices.{
  drop, length-drop, length-take_le, length-take_below, length-take, take_all, take-take,
  last_index_byte, last_index_byte-none, last_index_byte-some,
}
use lynceus.Audit.Canonical.{Bytes}
use lynceus.LogTail.{
  eof, Answer, gives, Os, FileTail, newline, is_open, reopen_if_rotated, read, cut_lines,
  after_read, read_chunk, rewound, after_stat,
}

-- The path names a regular file with this inode, whose handle carries the inode's number, and a
-- read past its end is short and says so.
pub record IsServed (os : Os) (ino : ℕ) (b : Bytes) : Type 0 where
  pub stat : os.stat ≡ gives ino
  pub opens : os.open_file ≡ gives ino
  pub size : os.size_of ino ≡ gives (length b)
  pub reads :
      (n off : ℕ)
      → os.read_at ino n off
        ≡ (take n (drop off b), if leb (off + n) (length b) then none else some eof)

-- An open handle is the one of the inode that the tail remembers.
abbrev pub IsHandle : FileTail → Type 0
IsHandle t = (t.f ≡ none) ⊎ (t.f ≡ some t.inode)

-- Where a read starts: at the offset, unless the file is not the open one or shrank.
abbrev pub start : FileTail → ℕ → Bytes → ℕ
start t ino b =
    if is_open t.f && eqb ino t.inode then (if ltb (length b) t.offset then 0 else t.offset) else 0

abbrev pub has_newline : Bytes → Bool
has_newline = any (λ b. eqb b newline)

abbrev pub IsEnded : Bytes → Type 0
IsEnded out = (out ≡ []) ⊎ ((p : Bytes) × (out ≡ p ++ newline ∷ []))

abbrev pub moved : FileTail → ℕ → ℕ → FileTail
moved t ino off = record { f = some ino; inode = ino; offset = off; max_chunk = t.max_chunk }

-- The chunk from `off`: whole lines, at most `max_chunk` bytes, and as many as these hold.
pub record IsChunk (b : Bytes) (max off n : ℕ) : Type 0 where
  pub fits : n ≤ max
  pub inside : off + n ≤ length b
  pub ended : IsEnded (take n (drop off b))
  pub rest : has_newline (drop n (take max (drop off b))) ≡ false

pub length_nil : (xs : Bytes) → length xs ≡ 0 → xs ≡ []
length_nil [] h = refl
length_nil (x ∷ xs) h = absurd (omega arith)

take-min : (n m : ℕ) (xs : Bytes) → length xs ≡ m → take (min m n) xs ≡ take n xs
take-min n m xs e = elim (Bool-cases (leb m n)) [
  | inl q ↦
      let small : min m n ≡ m = ground arith in
      let l : m ≤ n = ground arith in
      rw (small, take_all n xs (omega arith), take_all m xs (omega arith)) refl
  | inr q ↦ let large : min m n ≡ n = ground arith in rw large refl
]

cut-IsChunk :
    (b : Bytes) (max off : ℕ) {i : ℕ}
    → off ≤ length b
    → last_index_byte newline (take max (drop off b)) ≡ some i
    → IsChunk b max off (suc i)
      × (length (take (suc i) (take max (drop off b))) ≡ suc i)
      × (take (suc i) (take max (drop off b)) ≡ take (suc i) (drop off b))
cut-IsChunk b max off {i} h e =
    let ((p, q), r, l) = last_index_byte-some newline (take max (drop off b)) e in
    let m : suc i ≤ max = omega (arith, length-take_le max (drop off b)) in
    let same = take-take (suc i) max (drop off b) m in
    (
      record {
        fits = m;
        inside = omega (arith, length-take_below max (drop off b), length-drop off b h);
        ended = inr (p, sym same ∙ q);
        rest = r;
      },
      length-take (suc i) _ l,
      same,
    )

-- What a chunk moves the tail to, and returns.
abbrev pub Outcome : FileTail → Bytes → ℕ → FileTail × Answer Bytes
Outcome t b n = (record t { offset = t.offset + n }, gives (take n (drop t.offset b)))

same_tail : (t : FileTail) → t ≡ record t { offset = t.offset + 0 }
same_tail t = let e : t.offset ≡ t.offset + 0 = omega arith in ap (λ k. record t { offset = k }) e

nothing :
    (t : FileTail) (b : Bytes)
    → has_newline (take t.max_chunk (drop t.offset b)) ≡ false
    → t.offset ≤ length b
    → IsChunk b t.max_chunk t.offset 0 × ((t, gives []) ≡ Outcome t b 0)
nothing t b h l = (
  record { fits = omega arith; inside = omega arith; ended = inl refl; rest = h },
  ap (λ u. (u, gives [])) (same_tail t),
)

read_all :
    (t : FileTail) (buf : Bytes) (c : Bool)
    → after_read t (buf, if c then none else some eof)
      ≡ cut_lines t buf (last_index_byte newline buf)
read_all t buf true = refl
read_all t buf false = refl

cut_lines-IsChunk :
    (t : FileTail) (b : Bytes)
    → t.offset ≤ length b
    → let buf = take t.max_chunk (drop t.offset b) in
      (n : ℕ) × IsChunk b t.max_chunk t.offset n
      × (cut_lines t buf (last_index_byte newline buf) ≡ Outcome t b n)
cut_lines-IsChunk t b h =
    elim (Option-cases (last_index_byte newline (take t.max_chunk (drop t.offset b)))) [
      | inl e ↦
          let (c, q) =
            nothing t b (last_index_byte-none newline (take t.max_chunk (drop t.offset b)) e) h in
          (0, c, rw e q)
      | inr (i, e) ↦
          let (c, l, q) = cut-IsChunk b t.max_chunk t.offset h e in (suc i, c, rw (e, l, q) refl)
    ]

none_left : (max off : ℕ) (b : Bytes) → off ≡ length b → has_newline (take max (drop off b)) ≡ false
none_left max off b e =
    let end = length_nil (drop off b) (omega (arith, length-drop off b (omega arith))) in
    let none_of : take max [] ≡ [] = take_all {A = ℕ} max [] (omega arith) in rw (end, none_of) refl

read_chunk-IsChunk :
    (os : Os) (t : FileTail) (ino : ℕ) (b : Bytes)
    → IsServed os ino b
    → t.offset ≤ length b
    → (n : ℕ) × IsChunk b t.max_chunk t.offset n × (read_chunk os t ino (length b) ≡ Outcome t b n)
read_chunk-IsChunk os t ino b s h = elim (Bool-cases (leb (length b) t.offset)) [
  | inl q ↦
      let (c, p) = nothing t b (none_left t.max_chunk t.offset b (ground arith)) h in (0, c, rw q p)
  | inr q ↦
      let (n, c, p) = cut_lines-IsChunk t b h in
      (
        n,
        c,
        rw
            (
              q,
              s.reads,
              read_all,
              take-min t.max_chunk (length b - t.offset) (drop t.offset b)
                  (omega (arith, length-drop t.offset b h)),
            )
            p,
      )
]

pub start-inside : (t : FileTail) (ino : ℕ) (b : Bytes) → start t ino b ≤ length b
start-inside t ino b = ground arith

same_file :
    (t : FileTail) (ino : ℕ)
    → IsHandle t
    → (is_open t.f && eqb ino t.inode) ≡ true
    → t ≡ moved t ino t.offset
same_file t ino (inl e) q = ground arith
same_file t ino (inr e) q = ground arith

rewound-start :
    (t : FileTail) (ino : ℕ) (b : Bytes)
    → (is_open t.f && eqb ino t.inode) ≡ true
    → rewound (moved t ino t.offset) (length b) ≡ moved t ino (start t ino b)
rewound-start t ino b q = ground arith

rewound_zero : (t : FileTail) (ino n : ℕ) → rewound (moved t ino 0) n ≡ moved t ino 0
rewound_zero t ino n = ground arith

reopen-moved :
    (os : Os) (t : FileTail) (ino : ℕ) (b : Bytes)
    → IsServed os ino b
    → IsHandle t
    → (off : ℕ) × (reopen_if_rotated os t ≡ (moved t ino off, none))
      × (rewound (moved t ino off) (length b) ≡ moved t ino (start t ino b))
unfolding reopen_if_rotated
reopen-moved os t ino b s h = elim (Bool-cases (is_open t.f && eqb ino t.inode)) [
  | inl q ↦ (
    t.offset,
    rw (s.stat, after_stat, q) (ap (λ u. (u, none)) (same_file t ino h q)),
    rewound-start t ino b q,
  )
  | inr q ↦ (0, rw (s.stat, q, s.opens) refl, rw q (rewound_zero t ino (length b)))
]

-- Whatever the tail did before, a read of a regular file returns the whole lines of the next
-- `max_chunk` bytes, from the offset or, when the file was replaced or shrank, from the start.
pub read-IsChunk :
    (os : Os) (t : FileTail) (ino : ℕ) (b : Bytes)
    → IsServed os ino b
    → IsHandle t
    → let from = start t ino b in
      (n : ℕ) × IsChunk b t.max_chunk from n
      × (read os t ≡ (moved t ino (from + n), gives (take n (drop from b))))
unfolding read
read-IsChunk os t ino b s h =
    let (off, p, q) = reopen-moved os t ino b s h in
    let (n, c, r) =
      read_chunk-IsChunk os (moved t ino (start t ino b)) ino b s (start-inside t ino b) in
    (n, c, rw (p, s.size, q) r)
