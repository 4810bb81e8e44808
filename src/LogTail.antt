-- ===== src/LogTail.antt =====
-- internal/collector/logsource.go: the tail of one log file over the answers of the file system.
pub mod Lines
pub mod Growth
pub mod Drain
pub mod Tests
use lynceus.Prelude.{
  ℕ, suc, ◌-◌, ◌+◌, ◌^◌, String, Bool, true, false, ltb, leb, eqb, not, ◌&&◌, if◌then◌else◌, Option,
  none, some, List, [], min, take, length,
}
use lynceus.Prelude.Slices.{last_index_byte}
use lynceus.Audit.Canonical.{Bytes}

-- `fs.ErrNotExist`, `io.EOF`, or another failure
pub data FileError : Type 0 where
  not_exist eof : FileError
  failed : String → FileError

pub data Answer {ℓ} (A : Type ℓ) : Type ℓ where
  gives : A → Answer A
  fails : FileError → Answer A

-- What the operating system answers during one read. A handle is the number `open_file` gives, and
-- `read_at` gives the bytes it read also when it fails.
pub record Os : Type 0 where
  pub stat : Answer ℕ
  pub open_file : Answer ℕ
  pub size_of : ℕ → Answer ℕ
  pub read_at : (handle size offset : ℕ) → Bytes × Option FileError

pub record FileTail : Type 0 where
  pub f : Option ℕ
  pub inode : ℕ
  pub offset : ℕ
  pub max_chunk : ℕ

abbrev pub new_file_tail : FileTail
new_file_tail = record { f = none; inode = 0; offset = 0; max_chunk = 8388608 }

abbrev pub is_open : Option ℕ → Bool
is_open none = false
is_open (some h) = true

-- The handle is closed before the new file is opened, and stays so when that fails.
abbrev pub reopened : FileTail → ℕ → Answer ℕ → FileTail × Option FileError
reopened t ino (fails e) = (record t { f = none }, some e)
reopened t ino (gives h) = (record t { f = some h; inode = ino; offset = 0 }, none)

abbrev pub after_stat : Os → FileTail → Answer ℕ → FileTail × Option FileError
after_stat os t (fails e) = (t, some e)
after_stat os t (gives ino) =
    if is_open t.f && eqb ino t.inode then (t, none) else reopened t ino os.open_file

unfoldable pub reopen_if_rotated : Os → FileTail → FileTail × Option FileError
reopen_if_rotated os t = after_stat os t os.stat

-- The chunk is cut after its last newline; without one it is withheld.
abbrev pub cut_lines : FileTail → Bytes → Option ℕ → FileTail × Answer Bytes
cut_lines t buf none = (t, gives [])
cut_lines t buf (some cut) =
    let out = take (suc cut) buf in (record t { offset = t.offset + length out }, gives out)

abbrev pub newline : ℕ
newline = b'\n'

-- A short read at the end of the file is no failure.
abbrev pub after_read : FileTail → Bytes × Option FileError → FileTail × Answer Bytes
after_read t (buf, some (failed m)) = (t, fails (failed m))
after_read t (buf, some not_exist) = (t, fails not_exist)
after_read t (buf, e) = cut_lines t buf (last_index_byte newline buf)

abbrev pub read_chunk : Os → FileTail → ℕ → ℕ → FileTail × Answer Bytes
read_chunk os t h size =
    if leb size t.offset
    then (t, gives [])
    else after_read t (os.read_at h (min (size - t.offset) t.max_chunk) t.offset)

-- A file that shrank is read from its start.
abbrev pub rewound : FileTail → ℕ → FileTail
rewound t size = if ltb size t.offset then record t { offset = 0 } else t

abbrev pub after_size : Os → FileTail → ℕ → Answer ℕ → FileTail × Answer Bytes
after_size os t h (fails e) = (t, fails e)
after_size os t h (gives size) = read_chunk os (rewound t size) h size

-- A missing file is nothing new yet. The handle is open when there is no error.
abbrev pub after_reopen : Os → FileTail × Option FileError → FileTail × Answer Bytes
after_reopen os (t, some not_exist) = (t, gives [])
after_reopen os (t, some e) = (t, fails e)
after_reopen os (t, none) = elim t.f [
  | none ↦ (t, fails (failed "nil handle"))
  | some h ↦ after_size os t h (os.size_of h)
]

unfoldable pub read : Os → FileTail → FileTail × Answer Bytes
read os t = after_reopen os (reopen_if_rotated os t)

-- The answer to closing is the system's.
unfoldable pub close : FileTail → Option FileError → FileTail × Option FileError
close t answer = elim t.f [ none ↦ (t, none) | some h ↦ (record t { f = none }, answer) ]
