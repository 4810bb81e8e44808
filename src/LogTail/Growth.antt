-- ===== src/LogTail/Growth.antt =====
-- internal/collector/logsource.go: reads of a file that other processes append to meanwhile.
use lynceus.Prelude.{
  ℕ, ◌≤◌, ◌≡◌, refl, sym, ap, ◌∙◌, inl, inr, true, false, eqb, ◌&&◌, [], ◌∷◌, ◌++◌, append_assoc,
  append-nil, take, length, length-append, arith, eqb_iff,
}
use lynceus.Prelude.Slices.{drop, take_add, take-append, take-drop}
use lynceus.Audit.Canonical.{Bytes}
use lynceus.LogTail.{Answer, gives, fails, Os, FileTail, newline, is_open, read}
use lynceus.LogTail.Lines.{IsServed, IsHandle, IsEnded, start, moved, read-IsChunk}

-- The file's bytes, the tail, and what its reads returned since the file was opened.
pub record Followed : Type 0 where
  pub tail : FileTail
  pub content : Bytes
  pub got : Bytes

abbrev pub received : Answer Bytes → Bytes
received (gives out) = out
received (fails e) = []

abbrev pub after : FileTail × Answer Bytes → Bytes → Bytes → Followed
after (t, a) content got = record { tail = t; content = content; got = got ++ received a }

-- Writers append to the file of inode `ino`, and the collector reads it.
pub data Step (ino : ℕ) (s : Followed) : Followed → Type 0 where
  append : (x : Bytes) → Step ino s (record s { content = s.content ++ x })
  reads :
      (os : Os) → IsServed os ino s.content → Step ino s (after (read os s.tail) s.content s.got)

-- A tail that has not read this file: nothing is open, or a file of another inode.
abbrev pub IsFresh : ℕ → FileTail → Type 0
IsFresh ino t = IsHandle t × ((is_open t.f && eqb ino t.inode) ≡ false)

abbrev pub opened : FileTail → Bytes → Followed
opened t b = record { tail = t; content = b; got = [] }

pub data Reach (ino : ℕ) (t : FileTail) (b : Bytes) : Followed → Type 0 where
  begin : Reach ino t b (opened t b)
  next : {s u : Followed} → Reach ino t b s → Step ino s u → Reach ino t b u

record Inv (ino : ℕ) (s : Followed) : Type 0 where
  handle : IsHandle s.tail
  within : (is_open s.tail.f && eqb ino s.tail.inode) ≡ true → s.tail.offset ≤ length s.content
  read_so_far : s.got ≡ take (start s.tail ino s.content) s.content
  lines : IsEnded s.got

Inv-begin : (ino : ℕ) (t : FileTail) (b : Bytes) → IsFresh ino t → Inv ino (opened t b)
Inv-begin ino t b (h, q) = record {
  handle = h;
  within = λ e. absurd (ground arith);
  read_so_far = rw q refl;
  lines = inl refl;
}

-- Growth does not move the place where the next read starts.
start-append :
    (t : FileTail) (ino : ℕ) (b x : Bytes)
    → ((is_open t.f && eqb ino t.inode) ≡ true → t.offset ≤ length b)
    → (start t ino (b ++ x) ≡ start t ino b) × (start t ino b ≤ length b)
start-append t ino b x h = ground (arith, length-append b x)

IsEnded-append : (a b : Bytes) → IsEnded a → IsEnded b → IsEnded (a ++ b)
IsEnded-append a b h (inl e) = rw (e, append-nil a) h
IsEnded-append a b h (inr (p, e)) = inr (a ++ p, rw e (sym (append_assoc a p (newline ∷ []))))

pub start-moved :
    (t : FileTail) (ino off : ℕ) (b : Bytes) → off ≤ length b → start (moved t ino off) ino b ≡ off
start-moved t ino off b h = ground (arith, eqb_iff ino ino)

Step-Inv : {ino : ℕ} {s u : Followed} → Inv ino s → Step ino s u → Inv ino u
Step-Inv {ino} {s} i (append x) =
    let (same, inside) = start-append s.tail ino s.content x i.within in
    record {
      handle = i.handle;
      within = λ e. omega (arith, i.within e, length-append s.content x);
      read_so_far = rw same (i.read_so_far ∙ sym (take-append _ s.content x inside));
      lines = i.lines;
    }
Step-Inv {ino} {s} i (reads os v) =
    let (n, c, p) = read-IsChunk os s.tail ino s.content v i.handle in
    rw p (record {
      handle = inr refl;
      within = λ e. c.inside;
      read_so_far =
          rw (start-moved s.tail ino _ s.content c.inside, i.read_so_far)
            (sym (take_add (start s.tail ino s.content) n s.content));
      lines = IsEnded-append s.got _ i.lines c.ended;
    })

Reach-Inv :
    {ino : ℕ} {t : FileTail} {b : Bytes} {s : Followed}
    → IsFresh ino t
    → Reach ino t b s
    → Inv ino s
Reach-Inv {ino} {t} {b} h begin = Inv-begin ino t b h
Reach-Inv h (next r st) = Step-Inv (Reach-Inv h r) st

-- From a tail that has not opened the file, after any sequence of appends to it and of reads of
-- it, what the reads returned is the file's text up to some position, and is whole lines: no byte
-- is lost, repeated or out of order.
pub Reach-IsPrefix :
    {ino : ℕ} {t : FileTail} {b : Bytes} {s : Followed}
    → IsFresh ino t
    → Reach ino t b s
    → ((rest : Bytes) × (s.content ≡ s.got ++ rest)) × IsEnded s.got
Reach-IsPrefix {ino} {s = s} h r =
    let i = Reach-Inv h r in
    let k = start s.tail ino s.content in
    (
      (
        drop k s.content,
        sym (take-drop k s.content) ∙ ap (λ g. g ++ drop k s.content) (sym i.read_so_far),
      ),
      i.lines,
    )
