-- ===== src/Audit/Tamper.antt =====
-- internal/store/audit_hash.go, internal/store/config.go: what the chain of hashes protects, and
-- what it does not.
use lynceus.Prelude.{
  ℕ, ◌≡◌, ◌≢◌, refl, sym, ap, ap₂, ◌∙◌, none, List, [], ◌∷◌, ◌++◌, map, length, Memᴰ, arith,
}
use lynceus.Prelude.Result.{Result, ok, ◌>>=◌}
use lynceus.Audit.Canonical.{Bytes, Codec, canonical_json}
use lynceus.Audit.Hash.{HashedRow, row_bytes, hash_audit_row}
use lynceus.Audit.Hash.Injective.{Fits, row_bytes-injective}
use lynceus.Audit.Log.{AuditRow, AuditLog, tail_hash}
use lynceus.Audit.Verify.{intact, detail_text, hashed, verify_chain}
use lynceus.Audit.Verify.Chain.{IsSound, IsLinked, IsChain, verify_chain-IsChain}

-- What a reader of the log sees of a row: its fields, the detail in canonical form, its hash.
abbrev pub read_row : Codec → AuditRow → Result (HashedRow × Bytes)
read_row c r = do
  detail ← canonical_json c (detail_text c r.detail)
  ok (hashed r detail, r.row_hash)

-- Rows of two logs with the same hash were hashed from the same bytes, and their fields fit the
-- widths they are written with.
pub record NoCollision (c : Codec) (rs ss : List AuditRow) : Type 0 where
  pub same_bytes :
      (r s : AuditRow) (d e : Bytes)
      → Memᴰ r rs
      → Memᴰ s ss
      → canonical_json c (detail_text c r.detail) ≡ ok d
      → canonical_json c (detail_text c s.detail) ≡ ok e
      → hash_audit_row c (hashed r d) ≡ hash_audit_row c (hashed s e)
      → row_bytes (hashed r d) ≡ row_bytes (hashed s e)
  pub left_fits :
      (r : AuditRow) (d : Bytes)
      → Memᴰ r rs
      → canonical_json c (detail_text c r.detail) ≡ ok d
      → Fits (hashed r d)
  pub right_fits :
      (s : AuditRow) (e : Bytes)
      → Memᴰ s ss
      → canonical_json c (detail_text c s.detail) ≡ ok e
      → Fits (hashed s e)

later :
    {c : Codec} {r s : AuditRow} {rs ss : List AuditRow}
    → NoCollision c (r ∷ rs) (s ∷ ss)
    → NoCollision c rs ss
later n = record {
  same_bytes = λ a b d e m k. n.same_bytes a b d e (Memᴰ.tail m) (Memᴰ.tail k);
  left_fits = λ a d m. n.left_fits a d (Memᴰ.tail m);
  right_fits = λ a d m. n.right_fits a d (Memᴰ.tail m);
}

read-IsSound :
    {c : Codec} {r : AuditRow} (s : IsSound c r) → read_row c r ≡ ok (hashed r s.detail, r.row_hash)
read-IsSound s = rw s.canonical refl

prev_of :
    (r : AuditRow) (rs : List AuditRow) (s : AuditRow) (ss : List AuditRow)
    → length rs ≡ length ss
    → IsLinked r rs
    → IsLinked s ss
    → r.prev_hash ≡ s.prev_hash
    → tail_hash rs ≡ tail_hash ss
prev_of r [] s [] l h k p = refl
prev_of r [] s (b ∷ bs) l h k p = absurd (omega arith)
prev_of r (a ∷ rest) s [] l h k p = absurd (omega arith)
prev_of r (a ∷ rest) s (b ∷ bs) l h k p = sym h.1 ∙ p ∙ k.1

chains_agree :
    (c : Codec) (rs ss : List AuditRow)
    → IsChain c rs
    → IsChain c ss
    → length rs ≡ length ss
    → tail_hash rs ≡ tail_hash ss
    → NoCollision c rs ss
    → map (read_row c) rs ≡ map (read_row c) ss
chains_agree c [] [] h k l t n = refl
chains_agree c [] (s ∷ ss) h k l t n = absurd (omega arith)
chains_agree c (r ∷ rs) [] h k l t n = absurd (omega arith)
chains_agree c (r ∷ rs) (s ∷ ss) (x, (lx, hx)) (y, (ly, hy)) l t n =
    let bytes =
      n.same_bytes r s x.detail y.detail (Memᴰ.head refl) (Memᴰ.head refl) x.canonical y.canonical
        (x.hash ∙ t ∙ sym y.hash) in
    let same : hashed r x.detail ≡ hashed s y.detail =
      row_bytes-injective (hashed r x.detail) (hashed s y.detail)
        (n.left_fits r x.detail (Memᴰ.head refl) x.canonical)
        (n.right_fits s y.detail (Memᴰ.head refl) y.canonical) bytes in
    let len : length rs ≡ length ss = omega (arith, l) in
    ap₂ ◌∷◌ (read-IsSound x ∙ ap₂ (λ a b. ok (a, b)) same t ∙ sym (read-IsSound y)) (
      chains_agree c rs ss hx hy len
        (prev_of r rs s ss len lx ly (ap (λ (a : HashedRow). a.prev) same)) (later n))

-- Two logs with the same number of rows and the same latest hash, both reported intact by a full
-- scan, hold the same rows, field by field, if rows of theirs that have the same hash were hashed
-- from the same bytes, and their fields fit the widths they are written with.
pub verify_chain_tamper :
    (c : Codec) (a b : AuditLog) (t u : ℕ)
    → verify_chain c a none none t ≡ intact
    → verify_chain c b none none u ≡ intact
    → length a.rows ≡ length b.rows
    → tail_hash a.rows ≡ tail_hash b.rows
    → NoCollision c a.rows b.rows
    → map (read_row c) a.rows ≡ map (read_row c) b.rows
verify_chain_tamper c a b t u h k =
    chains_agree c a.rows b.rows ((verify_chain-IsChain c a t).0 h)
      ((verify_chain-IsChain c b u).0 k)

-- The chain that is left of the latest rows when the older ones are deleted.
newer_IsChain :
    (c : Codec) (rs : List AuditRow) (r : AuditRow) (deleted : List AuditRow)
    → r.id ≢ 1
    → IsChain c (rs ++ r ∷ deleted)
    → IsChain c (rs ++ r ∷ [])
newer_IsChain c [] r deleted n (s, (l, h)) = (s, ((λ one. absurd (n one)), tt))
newer_IsChain c (q ∷ []) r deleted n (s, (l, h)) = (s, (l, newer_IsChain c [] r deleted n h))
newer_IsChain c (q ∷ p ∷ ps) r deleted n (s, (l, h)) =
    (s, (l, newer_IsChain c (p ∷ ps) r deleted n h))

-- If the oldest rows of an intact log are deleted, so that the first row left does not have id 1,
-- a full scan still reports the log intact.
pub verify_chain_deleted :
    (c : Codec) (rs : List AuditRow) (r : AuditRow) (deleted : List AuditRow) (last t : ℕ)
    → verify_chain c (record { rows = rs ++ r ∷ deleted; last_value = last }) none none t ≡ intact
    → r.id ≢ 1
    → verify_chain c (record { rows = rs ++ r ∷ []; last_value = last }) none none t ≡ intact
verify_chain_deleted c rs r deleted last t h n =
    (verify_chain-IsChain c _ t).1
      (newer_IsChain c rs r deleted n ((verify_chain-IsChain c _ t).0 h))
