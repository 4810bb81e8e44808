-- ===== src/Audit/Keeps.antt =====
-- internal/store/config.go (`AppendAuditReturning`): what an append does to an intact log.
use lynceus.Prelude.{
  ℕ, suc, ◌≤◌, false, ◌≡◌, ◌≢◌, refl, ap, none, some, List, [], ◌∷◌, length, eqb, arith,
}
use lynceus.Prelude.Result.{Error, wrap, ok, err}
use lynceus.Audit.Canonical.{Bytes, Codec, canonical_json}
use lynceus.Audit.Hash.{hash_audit_row}
use lynceus.Audit.Log.{
  AuditEntry, AuditRow, AuditLog, Faults, no_faults, tail_hash, truncate_microsecond, null_if_empty,
  null_if_zero, canonical_detail, stored_row, new_record, finish, append_audit_tx,
  append_audit_returning,
}
use lynceus.Audit.Verify.{
  broken, id_gap, intact, found, bytes_or_empty, tier_or_zero, detail_text, verify_row,
  verify_chain,
}
use lynceus.Audit.Verify.Chain.{
  IsSound, IsLinked, IsChain, verify_rows-snoc, IsChain-going, filter_all, verify_chain-IsChain,
}

abbrev pub last_id : List AuditRow → ℕ
last_id [] = 0
last_id (r ∷ rs) = r.id

-- An intact log whose sequence stands at the latest row.
abbrev pub IsLog : Codec → AuditLog → Type 0
IsLog c log = IsChain c log.rows × (log.last_value ≡ last_id log.rows)

null_if_empty_read : (b : Bytes) → bytes_or_empty (null_if_empty b) ≡ b
null_if_empty_read [] = refl
null_if_empty_read (x ∷ b) = refl

null_if_zero_read : (n : ℕ) → tier_or_zero (null_if_zero n) ≡ n
null_if_zero_read n = ground arith

truncate_twice : (t : ℕ) → truncate_microsecond (truncate_microsecond t) ≡ truncate_microsecond t
truncate_twice t = omega arith

module _ (c : Codec) (log : AuditLog) (e : AuditEntry) (now : ℕ) (detail : Bytes) where
  -- The row that an append writes.
  abbrev pub written : AuditRow
  written = stored_row (new_record c log e now detail)

  written-IsSound :
      canonical_json c (detail_text c (null_if_empty detail)) ≡ ok detail → IsSound c written
  written-IsSound stable = record {
    detail = detail;
    canonical = stable;
    hash = ap (hash_audit_row c) (λ i. record {
      id = suc log.last_value;
      prev = tail_hash log.rows;
      actor = e.actor;
      action = e.action;
      server_id = null_if_empty_read e.server_id i;
      tier = null_if_zero_read e.data_tier i;
      detail = detail;
      at = truncate_twice now i;
    });
  }

  written-IsLinked : log.last_value ≡ last_id log.rows → IsLinked written log.rows
  written-IsLinked h = go log.rows h
    where
      go :
          (rs : List AuditRow)
          → log.last_value ≡ last_id rs
          → IsLinked
              (stored_row
                (new_record c (record { rows = rs; last_value = log.last_value }) e now detail))
              rs
      go [] h = λ one. refl
      go (q ∷ qs) h = (ap suc h, refl)

  tx_success :
      canonical_detail c e.detail ≡ ok detail
      → append_audit_tx c no_faults log e now ≡ (
        ok (new_record c log e now detail),
        record { rows = written ∷ log.rows; last_value = suc log.last_value },
      )
  unfolding append_audit_tx
  tx_success h = rw (append_audit_tx, h) refl

  append_success :
      canonical_detail c e.detail ≡ ok detail
      → append_audit_returning c no_faults log e now ≡ (
        ok (new_record c log e now detail),
        record { rows = written ∷ log.rows; last_value = suc log.last_value },
      )
  unfolding append_audit_returning
  append_success h = ap (finish no_faults log) (tx_success h)

  -- Where a log is intact and the sequence's last value is the id of its latest row (0 in an empty
  -- log), an append without faults, of a detail that its column gives back, returns the new record,
  -- adds exactly its row, and leaves a log with both of these, which a full scan reports intact.
  pub append-IsLog :
      IsLog c log
      → canonical_detail c e.detail ≡ ok detail
      → canonical_json c (detail_text c (null_if_empty detail)) ≡ ok detail
      → ((append_audit_returning c no_faults log e now).0 ≡ ok (new_record c log e now detail))
        × ((append_audit_returning c no_faults log e now).1.rows ≡ written ∷ log.rows)
        × IsLog c (append_audit_returning c no_faults log e now).1
        × ((t : ℕ)
            → verify_chain c (append_audit_returning c no_faults log e now).1 none none t ≡ intact)
  append-IsLog h canon stable =
      let s = append_success canon in
      let chain : IsChain c (written ∷ log.rows) =
        (written-IsSound stable, (written-IsLinked h.1, h.0)) in
      rw s (refl, refl, (chain, refl), λ t. (verify_chain-IsChain c _ t).1 chain)

-- A failed append leaves the rows as they were, and takes at most one number of the sequence.
pub append_failure :
    (c : Codec) (f : Faults) (log : AuditLog) (e : AuditEntry) (now : ℕ) (x : Error)
    → (append_audit_returning c f log e now).0 ≡ err x
    → ((append_audit_returning c f log e now).1.rows ≡ log.rows)
      × (log.last_value ≤ (append_audit_returning c f log e now).1.last_value)
      × ((append_audit_returning c f log e now).1.last_value ≤ suc log.last_value)
unfolding append_audit_returning append_audit_tx
append_failure c f log e now x h = ground arith

-- A row whose number leaves a gap stops the walk at its ordinal.
gap_found :
    (c : Codec) (r q : AuditRow) (qs : List AuditRow) (last : ℕ) (t : ℕ)
    → IsChain c (q ∷ qs)
    → r.id ≢ suc q.id
    → verify_chain c (record { rows = r ∷ q ∷ qs; last_value = last }) none none t
      ≡ found (broken (suc (length qs)) (id_gap (suc q.id) r.id))
unfolding verify_chain verify_row
gap_found c r q qs last t h n =
    rw
      (
        verify_chain,
        filter_all qs,
        verify_rows-snoc c (q ∷ qs) r,
        IsChain-going c (q ∷ qs) h,
        verify_row,
        not_eqb r.id (suc q.id) n,
      )
      refl
  where
    not_eqb : (a b : ℕ) → a ≢ b → eqb a b ≡ false
    not_eqb a b n = ground arith

-- The connection is lost at the INSERT, or the row is refused.
abbrev pub insert_fails : Error → Faults
insert_fails x = record {
  begin = none;
  lock = none;
  tail = none;
  nextval = none;
  insert = some x;
  commit = none;
}

tx_burnt :
    (c : Codec) (log : AuditLog) (e : AuditEntry) (now : ℕ) (x : Error) (detail : Bytes)
    → canonical_detail c e.detail ≡ ok detail
    → append_audit_tx c (insert_fails x) log e now
      ≡ (err (wrap "insert" x), record { rows = log.rows; last_value = suc log.last_value })
unfolding append_audit_tx
tx_burnt c log e now x detail h = rw (append_audit_tx, h) refl

burnt :
    (c : Codec) (log : AuditLog) (e : AuditEntry) (now : ℕ) (x : Error) (detail : Bytes)
    → canonical_detail c e.detail ≡ ok detail
    → (append_audit_returning c (insert_fails x) log e now).1
      ≡ record { rows = log.rows; last_value = suc log.last_value }
unfolding append_audit_returning
burnt c log e now x detail h =
    ap (λ p. (finish (insert_fails x) log p).1) (tx_burnt c log e now x detail h)

module _ (c : Codec) (q : AuditRow) (qs : List AuditRow) (e n : AuditEntry) (now later t : ℕ)
    (x : Error) (detail next : Bytes) where
  abbrev pub before : AuditLog
  before = record { rows = q ∷ qs; last_value = q.id }

  -- After an append that fails at its INSERT on an intact log with a row, the next append succeeds
  -- and every full scan then reports an id gap at the new row, though no row was ever changed.
  pub append_after_failure :
      IsLog c before
      → canonical_detail c e.detail ≡ ok detail
      → canonical_detail c n.detail ≡ ok next
      → verify_chain c
          (append_audit_returning c no_faults
            (append_audit_returning c (insert_fails x) before e now).1
            n
            later).1
          none
          none
          t
        ≡ found (broken (suc (length qs)) (id_gap (suc q.id) (suc (suc q.id))))
  append_after_failure h hd hn =
      rw
        (
          burnt c before e now x detail hd,
          append_success c (record { rows = q ∷ qs; last_value = suc q.id }) n later next hn,
        )
        (gap_found c _ q qs (suc (suc q.id)) t h.0 (omega arith))
