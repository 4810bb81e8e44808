-- ===== src/LogTail/Drain.antt =====
-- internal/collector/logsource.go: reads one after another, as the log pipeline makes them.
use lynceus.Prelude.{
  ℕ, zero, suc, ◌+◌, ◌≤◌, ◌<◌, ◌≡◌, refl, sym, ap, ap₂, ◌∙◌, inr, true, false, [], ◌++◌, take,
  length, length-append, arith, Bool-cases, ltb, eqb, ◌&&◌, inl, ◌∷◌,
}
use lynceus.Prelude.Slices.{
  drop, drop_add, drop-append, take-append, take-drop, length-drop, length-take, take-take,
}
use lynceus.Audit.Canonical.{Bytes}
use lynceus.LogTail.{Answer, gives, newline, is_open, Os, FileTail, read}
use lynceus.LogTail.Lines.{
  IsServed, IsHandle, IsChunk, has_newline, start, moved, read-IsChunk, length_nil, start-inside,
}
use lynceus.LogTail.Growth.{IsFresh, received, start-moved}

-- `n` reads, and what they return together.
abbrev pub then_drain : (FileTail → FileTail × Bytes) → FileTail × Answer Bytes → FileTail × Bytes
then_drain more (t, a) = let (u, rest) = more t in (u, received a ++ rest)

abbrev pub drain : ℕ → Os → FileTail → FileTail × Bytes
drain zero os t = (t, [])
drain (suc n) os t = then_drain (drain n os) (read os t)

-- A newline within the next `max_chunk` bytes, and the read moves on.
pub read-IsLive :
    (os : Os) (t : FileTail) (ino : ℕ) (b : Bytes)
    → IsServed os ino b
    → IsHandle t
    → has_newline (take t.max_chunk (drop (start t ino b) b)) ≡ true
    → (n : ℕ) × (1 ≤ n)
      × (start t ino b + n ≤ length b)
      × (read os t ≡ (moved t ino (start t ino b + n), gives (take n (drop (start t ino b) b))))
read-IsLive os t ino b s h q =
    let (n, c, p) = read-IsChunk os t ino b s h in (n, positive n c, c.inside, p)
  where
    positive : (n : ℕ) → IsChunk b t.max_chunk (start t ino b) n → 1 ≤ n
    positive zero c = absurd (cc)
    positive (suc n) c = omega arith

-- From every position but the end a newline comes within `max` bytes.
abbrev pub IsShort : ℕ → Bytes → Type 0
IsShort max b = (off : ℕ) → off < length b → has_newline (take max (drop off b)) ≡ true

-- The last read may find nothing: then the tail is at the end.
enough :
    (os : Os) (t : FileTail) (ino : ℕ) (b : Bytes) (n k : ℕ)
    → IsShort t.max_chunk b
    → IsChunk b t.max_chunk (start t ino b) n
    → length b ≤ start t ino b + suc k
    → length b ≤ (start t ino b + n) + k
enough os t ino b zero k sh c l = elim (Bool-cases (ltb (start t ino b) (length b))) [
  | inl q ↦ let found = sh (start t ino b) (ground arith) in let left = c.rest in absurd (cc)
  | inr q ↦ ground arith
]
enough os t ino b (suc n) k sh c l = omega arith

drain_from :
    (k : ℕ) (os : Os) (t : FileTail) (ino : ℕ) (b : Bytes)
    → IsServed os ino b
    → IsHandle t
    → IsShort t.max_chunk b
    → length b ≤ start t ino b + k
    → (drain k os t).1 ≡ drop (start t ino b) b
drain_from zero os t ino b s h sh l =
    sym
      (length_nil (drop (start t ino b) b) (omega (arith, length-drop _ b (start-inside t ino b))))
drain_from (suc k) os t ino b s h sh l =
    let (n, c, p) = read-IsChunk os t ino b s h in
    let at = start t ino b in
    let u = moved t ino (at + n) in
    let there = start-moved t ino (at + n) b c.inside in
    let more = drain_from k os u ino b s (inr refl) sh (rw there (enough os t ino b n k sh c l)) in
    rw (p, more, there, drop_add at n b) (take-drop n (drop at b))

start-fresh :
    (t : FileTail) (ino : ℕ) (b : Bytes)
    → (is_open t.f && eqb ino t.inode) ≡ false
    → start t ino b ≡ 0
start-fresh t ino b q = ground arith

-- In a regular file whose every line, the last one included, ends within `max_chunk` bytes, a tail that has not opened the
-- file has returned the whole of it after as many reads as it has bytes.
pub drain-IsComplete :
    (os : Os) (t : FileTail) (ino : ℕ) (b : Bytes)
    → IsServed os ino b
    → IsFresh ino t
    → IsShort t.max_chunk b
    → (drain (length b) os t).1 ≡ b
drain-IsComplete os t ino b s h sh =
    rw (drain_from (length b) os t ino b s h.0 sh (omega arith), start-fresh t ino b h.1) refl

any-take : (n : ℕ) (xs : Bytes) → has_newline xs ≡ false → has_newline (take n xs) ≡ false
any-take zero xs q = refl
any-take (suc n) [] q = refl
any-take (suc n) (x ∷ xs) q = let r = any-take n xs in ground arith

last_newline : (p : Bytes) → has_newline (p ++ newline ∷ []) ≡ true
last_newline [] = refl
last_newline (x ∷ p) = let r = last_newline p in ground arith

-- A chunk is empty when its window holds no newline.
no_chunk :
    (b : Bytes) (max off n : ℕ)
    → off ≤ length b
    → IsChunk b max off n
    → has_newline (take max (drop off b)) ≡ false
    → n ≡ 0
no_chunk b max off n h c q =
    let seen : has_newline (take n (drop off b)) ≡ false =
      rw (← take-take n max (drop off b) c.fits) (any-take n _ q) in
    elim c.ended [
      | inl e ↦ omega (
        arith,
        ap length e,
        length-take n (drop off b) (omega (arith, c.inside, length-drop off b h)),
      )
      | inr (p, e) ↦ let found = last_newline p in let unseen = rw e at seen in absurd (cc)
    ]

stuck_read :
    (os : Os) (t : FileTail) (ino : ℕ) (b : Bytes)
    → IsServed os ino b
    → IsHandle t
    → has_newline (take t.max_chunk (drop (start t ino b) b)) ≡ false
    → read os t ≡ (moved t ino (start t ino b), gives [])
stuck_read os t ino b s h q =
    let (n, c, p) = read-IsChunk os t ino b s h in
    let none_read = no_chunk b t.max_chunk (start t ino b) n (start-inside t ino b) c q in
    let same : start t ino b + n ≡ start t ino b = omega arith in
    p ∙ ap₂ (λ k m. (moved t ino k, gives (take m (drop (start t ino b) b)))) same none_read

window :
    (max off : ℕ) (b x : Bytes)
    → off + max ≤ length b
    → take max (drop off (b ++ x)) ≡ take max (drop off b)
window max off b x l =
    rw (drop-append off b x (omega arith))
      (take-append max (drop off b) x (omega (arith, length-drop off b (omega arith))))

-- A tail whose next `max_chunk` bytes are in the file and hold no newline returns nothing and
-- stays where it is, whatever is appended to the file and however often it reads.
pub drain-IsStuck :
    (os : Os) (t : FileTail) (ino off : ℕ) (b x : Bytes) (k : ℕ)
    → IsServed os ino (b ++ x)
    → off + t.max_chunk ≤ length b
    → has_newline (take t.max_chunk (drop off b)) ≡ false
    → drain k os (moved t ino off) ≡ (moved t ino off, [])
drain-IsStuck os t ino off b x zero s l q = refl
drain-IsStuck os t ino off b x (suc k) s l q =
    let at = start-moved t ino off (b ++ x) (omega (arith, length-append b x)) in
    let r =
      stuck_read os (moved t ino off) ino (b ++ x) s (inr refl)
        (rw (at, window t.max_chunk off b x l) q) in
    rw (r, at, drain-IsStuck os t ino off b x k s l q) refl
