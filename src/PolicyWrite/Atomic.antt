-- ===== src/PolicyWrite/Atomic.antt =====
-- internal/store/capability_policy.go: a change in one transaction is made whole, with its one
-- audit row, or not at all.
mod Batched
pub mod Apply
pub mod Delete
use lynceus.Prelude.{
  ℕ, suc, ◌≤◌, ◌≡◌, refl, sym, subst, ap, ◌∙◌, ◌⊎◌, inl, inr, String, Bool, true, false, not, ◌&&◌,
  ◌||◌, if◌then◌else◌, Option, none, some, List, [], ◌∷◌, any, any-false, filter, find, Memᴰ, All,
  All-mem-all, mem-filter, filter-mem, Bool-cases, arith, string_eq, ◌==◌,
}
use mathlib.Core.List.Memᴰ
use lynceus.Prelude.Result.{Error, Result, ok, err, wrap}
use lynceus.Policy.{PolicyRow, IsTable}
use lynceus.Audit.Canonical.{Bytes, Codec}
use lynceus.Audit.Log.{
  AuditEntry, AuditRecord, AuditRow, AuditLog, Faults, stored_row, append_audit_tx,
}
use lynceus.T2Read.{Render}
use lynceus.PolicyWrite.{SetCapabilityPolicyInput, ConfigState, upsert, new_row}
use lynceus.PolicyWrite.Upsert.{upsert_cases, upsert-IsTable}
use lynceus.PolicyWrite.Batch.{
  CapabilityPolicyKey, matches_key, commit_with, in_tx, with_lock, transaction, delete_entry,
  delete_row, delete_capability_policy, BatchFaults, has_twice, upsert_each, upsert_batch,
  delete_batch, batch_entry, apply_capability_policies_batch,
}

-- The audit row of the change is the latest, and the table is as `P` says of its id.
abbrev pub IsMade : Bytes → (ℕ → List PolicyRow → Type 0) → ConfigState → ConfigState → Type 0
IsMade actor P old new =
    (rec : AuditRecord) × (new.log.rows ≡ stored_row rec ∷ old.log.rows)
    × (rec.actor ≡ actor)
    × P rec.id new.policies

-- A failed change leaves the tables as they were.
abbrev pub IsAtomic :
    Bytes → (ℕ → List PolicyRow → Type 0) → ConfigState → Result (Unit {0}) × ConfigState → Type 0
IsAtomic actor P old (ok u, new) = IsMade actor P old new
IsAtomic actor P old (err x, new) = (new.policies ≡ old.policies) × (new.log.rows ≡ old.log.rows)

append_tx_ok :
    (c : Codec) (f : Faults) (log : AuditLog) (e : AuditEntry) (now : ℕ) (rec : AuditRecord)
    → (append_audit_tx c f log e now).0 ≡ ok rec
    → ((append_audit_tx c f log e now).1.rows ≡ stored_row rec ∷ log.rows) × (rec.actor ≡ e.actor)
unfolding append_audit_tx
append_tx_ok c f log e now rec h = ground arith

module _ (c : Codec) (f : Faults) (s : ConfigState) (e : AuditEntry) (now : ℕ)
    (body : AuditRecord → Result (List PolicyRow)) (P : ℕ → List PolicyRow → Type 0)
    (holds : (rec : AuditRecord) (rows : List PolicyRow) → body rec ≡ ok rows → P rec.id rows) where
  in_tx-IsAtomic :
      (p : Result AuditRecord × AuditLog)
      → append_audit_tx c f s.log e now ≡ p
      → IsAtomic e.actor P s (in_tx f s body p)
  in_tx-IsAtomic (err x, later) q = (refl, refl)
  in_tx-IsAtomic (ok rec, later) q = go f.commit (body rec) refl
    where
      a :
          ((append_audit_tx c f s.log e now).1.rows ≡ stored_row rec ∷ s.log.rows)
          × (rec.actor ≡ e.actor)
      a = append_tx_ok c f s.log e now rec (ap (λ p. p.0) q)

      go :
          (fault : Option Error) (r : Result (List PolicyRow))
          → body rec ≡ r
          → IsAtomic e.actor P s (commit_with fault s later r)
      go none (err x) h = (refl, refl)
      go (some y) (err x) h = (refl, refl)
      go (some y) (ok rows) h = (refl, refl)
      go none (ok rows) h = (
        rec,
        ap (λ (p : Result AuditRecord × AuditLog). p.1.rows) (sym q) ∙ a.0,
        a.1,
        holds rec rows h,
      )

  pub transaction-IsAtomic : IsAtomic e.actor P s (transaction c f s e now body)
  unfolding transaction
  transaction-IsAtomic = go f.begin f.lock
    where
      go :
          (b l : Option Error)
          → IsAtomic e.actor P s
              (with_lock b l s (in_tx f s body (append_audit_tx c f s.log e now)))
      go (some x) l = (refl, refl)
      go none (some x) = (refl, refl)
      go none none = in_tx-IsAtomic (append_audit_tx c f s.log e now) refl

pub guarded :
    (actor : Bytes) (P : ℕ → List PolicyRow → Type 0) (s : ConfigState) (b : Bool) (x : Error)
    (p : Result (Unit {0}) × ConfigState)
    → IsAtomic actor P s p
    → IsAtomic actor P s (if b then (err x, s) else p)
guarded actor P s true x p h = (refl, refl)
guarded actor P s false x p h = h

pub filter-IsTable :
    (p : PolicyRow → Bool) (rows : List PolicyRow) → IsTable rows → IsTable (filter p rows)
filter-IsTable p rows t = record {
  unique = λ a b m n. t.unique a b (mem-filter p rows m).0 (mem-filter p rows n).0;
  named = λ a m. t.named a (mem-filter p rows m).0;
}

abbrev pub rows_or : List PolicyRow → Result (List PolicyRow) → List PolicyRow
rows_or d (ok rows) = rows
rows_or d (err x) = d

pub not-true : (b : Bool) → not b ≡ true → b ≡ false
not-true b h = ground arith
