-- ===== src/Audit/Hash.antt =====
-- internal/store/audit_hash.go (`hashAuditRow`): the bytes of a row that are hashed.
pub mod Injective
use lynceus.Prelude.{ℕ, zero, suc, ◌/◌, ◌%◌, List, [], ◌∷◌, ◌++◌, length}
use lynceus.Audit.Canonical.{Bytes, Codec}

-- "lynceus.audit.v1" and a zero byte.
unfoldable pub hash_domain : Bytes
hash_domain =
    b'l' ∷ b'y' ∷ b'n' ∷ b'c' ∷ b'e' ∷ b'u' ∷ b's' ∷ b'.' ∷ b'a' ∷ b'u' ∷ b'd' ∷ b'i' ∷ b't' ∷ b'.'
    ∷ b'v' ∷ b'1' ∷ 0 ∷ []

-- The low `w` bytes of a number, big-endian, before `rest`.
unfoldable pub put_uint : ℕ → ℕ → Bytes → Bytes
put_uint zero n rest = rest
put_uint (suc w) n rest = put_uint w (n / 256) (n % 256 ∷ rest)

-- A length of four bytes, then the text.
unfoldable pub write_lp : Bytes → Bytes → Bytes
unfolding put_uint
write_lp s rest = put_uint 4 (length s) (s ++ rest)

-- What a row contributes; `at` is in nanoseconds, and an int16 tier is its unsigned image.
pub record HashedRow : Type 0 where
  pub id : ℕ
  pub prev : Bytes
  pub actor : Bytes
  pub action : Bytes
  pub server_id : Bytes
  pub tier : ℕ
  pub detail : Bytes
  pub at : ℕ

unfoldable pub row_bytes : HashedRow → Bytes
unfolding hash_domain put_uint write_lp
row_bytes r =
    hash_domain
    ++ put_uint 8 r.id (
        r.prev
        ++ write_lp r.actor (
            write_lp r.action
              (write_lp r.server_id (put_uint 2 r.tier (write_lp r.detail (put_uint 8 r.at []))))))

-- The caller's `prev` has 32 bytes: the table's CHECK, and 32 zeros for the first row.
unfoldable pub hash_audit_row : Codec → HashedRow → Bytes
unfolding row_bytes
hash_audit_row c r = c.sha256 (row_bytes r)
