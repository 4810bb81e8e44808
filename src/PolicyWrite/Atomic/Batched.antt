-- ===== src/PolicyWrite/Atomic/Batched.antt =====
-- internal/store/capability_policy.go (`ApplyCapabilityPoliciesBatch`): the rows of a batch's upserts.
-- The key and the row of a change are described apart from the code.
use mathlib.Core.List.Memᴰ
use mathlib.Core.Bool.{false≢true}
use lynceus.Prelude.{
  ℕ, ◌≡◌, ◌≢◌, ◌↔◌, refl, sym, subst, ap, ◌∙◌, ◌⊎◌, inl, inr, String, true, false, Option, none,
  some, List, [], ◌∷◌, any, any-true, any-false, find-some, Memᴰ, Bool-cases, arith, eq_iff, &&_iff,
  string_eq, ◌==◌,
}
use lynceus.Policy.{PolicyRow, or_empty}
use lynceus.PolicyWrite.{
  SetCapabilityPolicyInput, db_arg, not_distinct, same_key, touched, upsert, new_row,
}
use lynceus.PolicyWrite.Batch.{CapabilityPolicyKey, matches_key, same_input, has_twice, upsert_each}
use lynceus.PolicyWrite.Upsert.{
  not_distinct_iff, not_distinct_refl, key_of, find-upsert, upserted-new, named_or_empty,
}

-- How a database name is stored: the empty one, which is every database, as NULL.
pub data IsNamed (name : String) (d : Option String) : Type 0 where
  whole : name ≡ "" → d ≡ none → IsNamed name d
  one : name ≢ "" → d ≡ some name → IsNamed name d

abbrev pub HasKey : String → String → String → PolicyRow → Type 0
HasKey server name cap a =
    (a.server_id ≡ server) × IsNamed name a.database_name × (a.capability ≡ cap)

-- The row that a change asks for.
abbrev pub IsRowOf : ℕ → ℕ → SetCapabilityPolicyInput → PolicyRow → Type 0
IsRowOf now id u a =
    HasKey u.server_id u.database_name u.capability a
    × (a.enabled ≡ u.enabled)
    × (a.set_by ≡ u.set_by)
    × (a.set_at ≡ now)
    × (a.reason ≡ u.reason)
    × (a.audit_chain_id ≡ id)

abbrev pub IsKeyOf : CapabilityPolicyKey → PolicyRow → Type 0
IsKeyOf k a = HasKey k.server_id k.database_name k.capability a

db_arg-IsNamed : (name : String) → IsNamed name (db_arg name)
db_arg-IsNamed name = elim (Bool-cases (name == "")) [
  | inl q ↦ whole ((eq_iff name "").0 q) (rw q refl)
  | inr q ↦ one (λ h. false≢true (sym q ∙ (eq_iff name "").1 h)) (rw q refl)
]

named_db_arg : (name : String) (d : Option String) → IsNamed name d → d ≡ db_arg name
named_db_arg name d (whole e h) = h ∙ rw ((eq_iff name "").1 e) refl
named_db_arg name d (one n h) = elim (Bool-cases (name == "")) [
  | inl q ↦ absurd (n ((eq_iff name "").0 q))
  | inr q ↦ h ∙ rw q refl
]

pub matches_iff : (k : CapabilityPolicyKey) (a : PolicyRow) → (matches_key k a ≡ true) ↔ IsKeyOf k a
matches_iff k a = (
  λ h.
      let p = (&&_iff _ _).0 h in
      let q = (&&_iff _ _).0 p.1 in
      (
        (eq_iff a.server_id k.server_id).0 p.0,
        subst (IsNamed k.database_name) (sym (not_distinct_iff a.database_name _ q.0))
            (db_arg-IsNamed k.database_name),
        (eq_iff a.capability k.capability).0 q.1,
      ),
  λ h. (&&_iff _ _).1 (
    (eq_iff a.server_id k.server_id).1 h.0,
    (&&_iff _ _).1 (
      subst (λ n. not_distinct a.database_name n ≡ true)
          (named_db_arg k.database_name a.database_name h.1) (not_distinct_refl a.database_name),
      (eq_iff a.capability k.capability).1 h.2,
    ),
  ),
)

pub new_row-IsRowOf :
    (now id : ℕ) (u : SetCapabilityPolicyInput) → IsRowOf now id u (new_row u now id)
new_row-IsRowOf now id u =
    ((refl, db_arg-IsNamed u.database_name, refl), refl, refl, refl, refl, refl)

key-HasKey :
    (now id : ℕ) (u : SetCapabilityPolicyInput) (a : PolicyRow)
    → same_key (new_row u now id) a ≡ true
    → HasKey u.server_id u.database_name u.capability a
key-HasKey now id u a h =
    let k = key_of (new_row u now id) a h in
    (k.0, subst (IsNamed u.database_name) (sym k.1) (db_arg-IsNamed u.database_name), k.2)

-- An upsert keeps the rows of other keys, and its own is there.
stays :
    (new : PolicyRow) (rows : List PolicyRow) {a : PolicyRow}
    → same_key new a ≡ false
    → Memᴰ a rows
    → Memᴰ a (upsert new rows)
unfolding upsert
stays new rows {a} h m = elim (Bool-cases (any (same_key new) rows)) [
  | inr q ↦ rw (q, upsert) (Memᴰ.append_left (new ∷ []) m)
  | inl q ↦ rw (q, upsert) (Memᴰ.cast (sym (rw h refl)) (Memᴰ.map (touched new) m))
]

is_there : (new : PolicyRow) (rows : List PolicyRow) → Memᴰ new (upsert new rows)
is_there new rows =
    let f = find-some (same_key new) (upsert new rows) (find-upsert new rows) in
    subst (λ r. Memᴰ r (upsert new rows)) (upserted-new new rows) f.0

all_stay :
    (now id : ℕ) (us : List SetCapabilityPolicyInput) (rows : List PolicyRow) {a : PolicyRow}
    → any (λ u. same_key (new_row u now id) a) us ≡ false
    → Memᴰ a rows
    → Memᴰ a (upsert_each now id us rows)
all_stay now id [] rows h m = m
all_stay now id (u ∷ us) rows {a} h m = elim (Bool-cases (same_key (new_row u now id) a)) [
  | inl q ↦ absurd (ground arith)
  | inr q ↦
      all_stay now id us (upsert (new_row u now id) rows) (rw q at h)
        (stays (new_row u now id) rows q m)
]

-- An old row is there, or a change of the batch has its key.
pub old_rows :
    (now id : ℕ) (us : List SetCapabilityPolicyInput) (rows : List PolicyRow) (a : PolicyRow)
    → Memᴰ a rows
    → Memᴰ a (upsert_each now id us rows)
      ⊎ ((u : SetCapabilityPolicyInput) × Memᴰ u us
          × HasKey u.server_id u.database_name u.capability a)
old_rows now id us rows a m = elim (Bool-cases (any (λ u. same_key (new_row u now id) a) us)) [
  | inr q ↦ inl (all_stay now id us rows q m)
  | inl q ↦
      let (u, k, e) = any-true (λ u. same_key (new_row u now id) a) us q in
      inr (u, k, key-HasKey now id u a e)
]

-- Two changes with one stored key have one key.
same_stored :
    (now id : ℕ) (u v : SetCapabilityPolicyInput)
    → same_key (new_row v now id) (new_row u now id) ≡ true
    → same_input u v ≡ true
same_stored now id u v h =
    let k = key_of (new_row v now id) (new_row u now id) h in
    (&&_iff _ _).1 (
      (eq_iff u.server_id v.server_id).1 k.0,
      (&&_iff _ _).1 (
        (eq_iff u.database_name v.database_name).1 (
            sym (named_or_empty u.database_name)
            ∙ ap or_empty k.1
            ∙ named_or_empty v.database_name),
        (eq_iff u.capability v.capability).1 k.2,
      ),
    )

apart :
    (now id : ℕ) (u : SetCapabilityPolicyInput) (us : List SetCapabilityPolicyInput)
    → any (same_input u) us ≡ false
    → any (λ v. same_key (new_row v now id) (new_row u now id)) us ≡ false
apart now id u us h =
    elim (Bool-cases (any (λ v. same_key (new_row v now id) (new_row u now id)) us)) [
      | inr q ↦ q
      | inl q ↦
          let (v, m, e) = any-true (λ v. same_key (new_row v now id) (new_row u now id)) us q in
          absurd (false≢true (sym (any-false (same_input u) us h m) ∙ same_stored now id u v e))
    ]

-- Every change of a batch without repeated keys has its row.
pub new_rows :
    (now id : ℕ) (us : List SetCapabilityPolicyInput) (rows : List PolicyRow)
    (u : SetCapabilityPolicyInput)
    → has_twice us ≡ false
    → Memᴰ u us
    → Memᴰ (new_row u now id) (upsert_each now id us rows)
new_rows now id [] rows u h m = absurd (Memᴰ.not-nil m)
new_rows now id (v ∷ vs) rows u h m = elim (Bool-cases (any (same_input v) vs)) [
  | inl q ↦ absurd (ground arith)
  | inr q ↦ elim (Memᴰ.cases_cons m) [
    | inl e ↦ rw e (
        all_stay now id vs (upsert (new_row v now id) rows) (apart now id v vs q)
          (is_there (new_row v now id) rows))
    | inr t ↦ new_rows now id vs (upsert (new_row v now id) rows) u (rw q at h) t
  ]
]
