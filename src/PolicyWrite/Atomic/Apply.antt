-- ===== src/PolicyWrite/Atomic/Apply.antt =====
-- internal/store/capability_policy.go (`ApplyCapabilityPoliciesBatch`): what a batch does.
use mathlib.Core.Bool.{false≢true}
use lynceus.Prelude.{
  any-true, any-false, filter-mem, Bool-cases, ℕ, ◌≡◌, refl, sym, subst, ap, ◌∙◌, ◌⊎◌, inl, inr,
  String, Bool, true, false, not, ◌||◌, if◌then◌else◌, Option, none, some, List, [], ◌∷◌, any,
  filter, Memᴰ, mem-filter, string_eq, ◌==◌,
}
use lynceus.Prelude.Result.{Error, Result, ok, err, wrap}
use lynceus.Policy.{PolicyRow, IsTable}
use lynceus.Audit.Canonical.{Bytes, Codec}
use lynceus.Audit.Log.{AuditRecord, Faults}
use lynceus.T2Read.{Render}
use lynceus.PolicyWrite.{SetCapabilityPolicyInput, ConfigState, upsert, new_row}
use lynceus.PolicyWrite.Upsert.{upsert_cases, upsert-IsTable}
use lynceus.PolicyWrite.Batch.{
  CapabilityPolicyKey, matches_key, BatchFaults, has_twice, upsert_each, upsert_batch, delete_batch,
  batch_entry, apply_capability_policies_batch,
}
use lynceus.PolicyWrite.Atomic.Batched.{
  IsRowOf, IsKeyOf, HasKey, matches_iff, new_row-IsRowOf, old_rows, new_rows,
}
use lynceus.PolicyWrite.Atomic.{
  IsAtomic, transaction-IsAtomic, guarded, filter-IsTable, rows_or, not-true,
}

-- A row of the old table, or one that the batch made with the audit row's id.
abbrev pub IsOrigin : ℕ → ℕ → List SetCapabilityPolicyInput → List PolicyRow → PolicyRow → Type 0
IsOrigin now id us old a =
    Memᴰ a old ⊎ ((u : SetCapabilityPolicyInput) × Memᴰ u us × IsRowOf now id u a)

upsert_each-IsTable :
    (now id : ℕ) (us : List SetCapabilityPolicyInput) (rows : List PolicyRow)
    → IsTable rows
    → IsTable (upsert_each now id us rows)
upsert_each-IsTable now id [] rows t = t
upsert_each-IsTable now id (u ∷ us) rows t =
    upsert_each-IsTable now id us (upsert (new_row u now id) rows) (upsert-IsTable u now id rows t)

upsert_each-mem :
    (now id : ℕ) (us : List SetCapabilityPolicyInput) (rows : List PolicyRow) (a : PolicyRow)
    → Memᴰ a (upsert_each now id us rows)
    → IsOrigin now id us rows a
upsert_each-mem now id [] rows a m = inl m
upsert_each-mem now id (u ∷ us) rows a m =
    elim (upsert_each-mem now id us (upsert (new_row u now id) rows) a m) [
      | inl h ↦ elim (upsert_cases (new_row u now id) rows a h) [
        | inl e ↦
            inr (u, Memᴰ.head refl, subst (IsRowOf now id u) (sym e) (new_row-IsRowOf now id u))
        | inr k ↦ inl k.0
      ]
      | inr (v, k, e) ↦ inr (v, Memᴰ.tail k, e)
    ]

-- The key is one that the batch deletes.
abbrev pub IsDeleted : List CapabilityPolicyKey → PolicyRow → Type 0
IsDeleted ks a = (k : CapabilityPolicyKey) × Memᴰ k ks × IsKeyOf k a

-- What a batch makes of a table: a table, of old rows and of the batch's, without those it deletes;
-- every other row of the batch is there, and so is every old row that the batch does not replace.
pub record IsApplied (now : ℕ) (us : List SetCapabilityPolicyInput) (ks : List CapabilityPolicyKey)
    (old : List PolicyRow) (id : ℕ) (rows : List PolicyRow) : Type 0 where
  pub table : IsTable rows
  pub origin : (a : PolicyRow) → Memᴰ a rows → (¬ IsDeleted ks a) × IsOrigin now id us old a
  pub written :
      (u : SetCapabilityPolicyInput)
      → Memᴰ u us
      → (a : PolicyRow) × IsRowOf now id u a × (Memᴰ a rows ⊎ IsDeleted ks a)
  pub kept :
      (a : PolicyRow)
      → Memᴰ a old
      → Memᴰ a rows
        ⊎ IsDeleted ks a
        ⊎ ((u : SetCapabilityPolicyInput) × Memᴰ u us
            × HasKey u.server_id u.database_name u.capability a)

-- The rows after the upserts, less those that the batch deletes.
abbrev filtered : List CapabilityPolicyKey → List PolicyRow → List PolicyRow
filtered ks rows = filter (λ r. not (any (λ j. matches_key j r) ks)) rows

deleted_or_in :
    (ks : List CapabilityPolicyKey) (rows : List PolicyRow) (a : PolicyRow)
    → Memᴰ a rows
    → Memᴰ a (filtered ks rows) ⊎ IsDeleted ks a
deleted_or_in ks rows a m = elim (Bool-cases (any (λ j. matches_key j a) ks)) [
  | inr q ↦ inl (filter-mem (λ r. not (any (λ j. matches_key j r) ks)) (rw q refl) m)
  | inl q ↦
      let (k, n, e) = any-true (λ j. matches_key j a) ks q in inr (k, n, (matches_iff k a).0 e)
]

not_deleted :
    (ks : List CapabilityPolicyKey) (a : PolicyRow)
    → any (λ j. matches_key j a) ks ≡ false
    → ¬ IsDeleted ks a
not_deleted ks a h (k, m, q) =
    false≢true (sym (any-false (λ j. matches_key j a) ks h m) ∙ (matches_iff k a).1 q)

filtered_none : (rows : List PolicyRow) → filtered [] rows ≡ rows
filtered_none [] = refl
filtered_none (r ∷ rs) = ap (λ xs. r ∷ xs) (filtered_none rs)

filtered-IsApplied :
    (now id : ℕ) (us : List SetCapabilityPolicyInput) (ks : List CapabilityPolicyKey)
    (old : List PolicyRow)
    → IsTable old
    → has_twice us ≡ false
    → IsApplied now us ks old id (filtered ks (upsert_each now id us old))
filtered-IsApplied now id us ks old t d = record {
  table = filter-IsTable _ (upsert_each now id us old) (upsert_each-IsTable now id us old t);
  origin = λ a m.
      let (k, q) =
        mem-filter (λ r. not (any (λ j. matches_key j r) ks)) (upsert_each now id us old) m in
      (not_deleted ks a (not-true _ q), upsert_each-mem now id us old a k);
  written = λ u m. (
    new_row u now id,
    new_row-IsRowOf now id u,
    deleted_or_in ks (upsert_each now id us old) (new_row u now id) (new_rows now id us old u d m),
  );
  kept = λ a m. elim (old_rows now id us old a m) [
    | inl k ↦ elim (deleted_or_in ks (upsert_each now id us old) a k) [
      | inl x ↦ inl x
      | inr x ↦ inr (inl x)
    ]
    | inr k ↦ inr (inr k)
  ];
}

upsert_batch-each :
    (b : BatchFaults) (now id : ℕ) (us : List SetCapabilityPolicyInput) (rows new : List PolicyRow)
    → upsert_batch b now id us rows ≡ ok new
    → (new ≡ upsert_each now id us rows) × (has_twice us ≡ false)
upsert_batch-each b now id [] rows new h = (sym (ap (rows_or rows) h), refl)
upsert_batch-each b now id (u ∷ us) rows new h = go b.upsert_fault (has_twice (u ∷ us)) refl h
  where
    go :
        (o : Option Error) (w : Bool)
        → has_twice (u ∷ us) ≡ w
        → (elim o [
          | some x ↦ err (wrap "upsert" x)
          | none ↦ if w then err (wrap "upsert" b.twice) else ok (upsert_each now id (u ∷ us) rows)
        ])
          ≡ ok new
        → (new ≡ upsert_each now id (u ∷ us) rows) × (has_twice (u ∷ us) ≡ false)
    go (some x) w e h = cc
    go none true e h = cc
    go none false e h = (sym (ap (rows_or rows) h), e)

delete_batch-IsApplied :
    (b : BatchFaults) (now id : ℕ) (us : List SetCapabilityPolicyInput)
    (ks : List CapabilityPolicyKey) (old rows : List PolicyRow) (o : Result (List PolicyRow))
    → IsTable old
    → upsert_batch b now id us old ≡ o
    → delete_batch b ks o ≡ ok rows
    → IsApplied now us ks old id rows
delete_batch-IsApplied b now id us ks old rows (err x) t q h = absurd (failed ks h)
  where
    failed : (ks : List CapabilityPolicyKey) → delete_batch b ks (err x) ≡ ok rows → ⊥
    failed [] h = cc
    failed (k ∷ ks) h = cc
delete_batch-IsApplied b now id us [] old rows (ok mid) t q h =
    let each = upsert_batch-each b now id us old mid q in
    let same = sym (ap (rows_or old) h) ∙ each.0 ∙ sym (filtered_none _) in
    subst (IsApplied now us [] old id) (sym same) (filtered-IsApplied now id us [] old t each.1)
delete_batch-IsApplied b now id us (k ∷ ks) old rows (ok mid) t q h = go b.delete_fault h
  where
    go :
        (o : Option Error)
        → (elim o [
          | some x ↦ err (wrap "delete" x)
          | none ↦ ok (filter (λ r. not (any (λ j. matches_key j r) (k ∷ ks))) mid)
        ])
          ≡ ok rows
        → IsApplied now us (k ∷ ks) old id rows
    go (some x) h = cc
    go none h =
        let each = upsert_batch-each b now id us old mid q in
        let same = sym (ap (rows_or old) h) ∙ ap (filtered (k ∷ ks)) each.0 in
        subst (IsApplied now us (k ∷ ks) old id) (sym same)
          (filtered-IsApplied now id us (k ∷ ks) old t each.1)

module _ (c : Codec) (f : Faults) (b : BatchFaults) (r : Render) (hash : Bytes) (now : ℕ)
    (us : List SetCapabilityPolicyInput) (ks : List CapabilityPolicyKey) (actor : String)
    (s : ConfigState) where
  batch-holds :
      IsTable s.policies
      → (rec : AuditRecord) (rows : List PolicyRow)
      → delete_batch b ks (upsert_batch b now rec.id us s.policies) ≡ ok rows
      → IsApplied now us ks s.policies rec.id rows
  batch-holds t rec rows h =
      delete_batch-IsApplied b now rec.id us ks s.policies rows
        (upsert_batch b now rec.id us s.policies) t refl h

  -- A batch on a table with its constraint either fails and leaves the policies and the log's rows as
  -- they were, or adds to the log one row, which names the actor, and leaves a table with its constraint
  -- in which no row has a deleted key, and each row is an old one or, with the log row's id, one that the
  -- batch asks for. Every row that the batch asks for is there unless its key is deleted, and so is every
  -- old row whose key the batch neither writes nor deletes.
  pub apply_batch-IsAtomic :
      IsTable s.policies
      → IsAtomic
          (r.utf8 actor)
          (IsApplied now us ks s.policies)
          s
          (apply_capability_policies_batch c f b r hash now us ks actor s)
  unfolding apply_capability_policies_batch batch_entry
  apply_batch-IsAtomic t = guarded _ _ s (actor == "") _ _ (
      guarded _ _ s
        (any (λ (u : SetCapabilityPolicyInput). (u.server_id == "") || (u.capability == "")) us) _ _
        (guarded _ _ s
          (any (λ (k : CapabilityPolicyKey). (k.server_id == "") || (k.capability == "")) ks) _ _
          (transaction-IsAtomic c f s (batch_entry r hash us ks actor) now _
            (IsApplied now us ks s.policies) (batch-holds t))))
