-- ===== src/PolicyWrite/Upsert.antt =====
-- internal/store/capability_policy.go (`SetCapabilityPolicy`): its INSERT ... ON CONFLICT on a table.
use mathlib.Core.List.Memᴰ
use mathlib.Core.Bool.{false≢true}
use lynceus.Prelude.{
  ℕ, String, Bool, true, false, ◌&&◌, ◌≡◌, ◌≢◌, ◌⊎◌, refl, sym, ap, subst, ◌∙◌, inl, inr, Option,
  none, some, List, [], ◌∷◌, ◌++◌, map, any, any-false, find, find-some, Memᴰ, Bool-cases,
  Option-cases, ◌==◌, string_eq, if◌then◌else◌, arith, eq_iff, &&_iff,
}
use lynceus.Policy.{
  PolicyRow, CapabilityPolicy, IsTable, scan_row, or_empty, is_null, sql_eq, get_capability_policy,
}
use lynceus.PolicyWrite.{
  SetCapabilityPolicyInput, db_arg, not_distinct, same_key, updated, touched, upsert, returned,
  upserted, new_row,
}

abbrev unnamed : Option String
unnamed = some ""

text_or_empty : Option String → String
text_or_empty none = ""
text_or_empty (some s) = s

some_text : (s : String) → some s ≡ unnamed → s ≡ ""
unfolding text_or_empty
some_text s h = ap text_or_empty h

abbrev get_or : PolicyRow → Option PolicyRow → PolicyRow
get_or y none = y
get_or y (some r) = r

none_some : none ≢ unnamed
none_some h = cc

pub not_distinct_iff : (a b : Option String) → not_distinct a b ≡ true → a ≡ b
not_distinct_iff none none h = refl
not_distinct_iff none (some t) h = cc
not_distinct_iff (some s) none h = cc
not_distinct_iff (some s) (some t) h = ap some ((eq_iff s t).0 h)

pub not_distinct_refl : (a : Option String) → not_distinct a a ≡ true
not_distinct_refl none = refl
not_distinct_refl (some s) = (eq_iff s s).1 refl

pub key_of :
    (new r : PolicyRow)
    → same_key new r ≡ true
    → (r.server_id ≡ new.server_id)
      × (r.database_name ≡ new.database_name)
      × (r.capability ≡ new.capability)
key_of new r h =
    let p = (&&_iff _ _).0 h in
    let q = (&&_iff _ _).0 p.1 in
    (
      (eq_iff r.server_id new.server_id).0 p.0,
      not_distinct_iff r.database_name new.database_name q.0,
      (eq_iff r.capability new.capability).0 q.1,
    )

of_key :
    (new r : PolicyRow)
    → r.server_id ≡ new.server_id
    → r.database_name ≡ new.database_name
    → r.capability ≡ new.capability
    → same_key new r ≡ true
of_key new r s d c = (&&_iff _ _).1 (
  (eq_iff r.server_id new.server_id).1 s,
  (&&_iff _ _).1 (
    subst (λ n. not_distinct r.database_name n ≡ true) d (not_distinct_refl r.database_name),
    (eq_iff r.capability new.capability).1 c,
  ),
)

-- A row that is updated is the new row.
updated_new : (new r : PolicyRow) → same_key new r ≡ true → updated new r ≡ new
updated_new new r h =
    let k = key_of new r h in
    λ i. record {
      server_id = k.0 i;
      database_name = k.1 i;
      capability = k.2 i;
      enabled = new.enabled;
      set_by = new.set_by;
      set_at = new.set_at;
      reason = new.reason;
      audit_chain_id = new.audit_chain_id;
    }

-- A row of the table after an upsert: the new one, or an old one of another key.
pub upsert_cases :
    (new : PolicyRow) (rows : List PolicyRow) (a : PolicyRow)
    → Memᴰ a (upsert new rows)
    → (a ≡ new) ⊎ (Memᴰ a rows × (same_key new a ≡ false))
unfolding upsert
upsert_cases new rows a m = elim (Bool-cases (any (same_key new) rows)) [
  | inr n ↦ elim (Memᴰ.append_cases rows (rw (n, upsert) at m)) [
    | inl h ↦ inr (h, any-false (same_key new) rows n h)
    | inr h ↦ inl (Memᴰ.eq_of_singleton h)
  ]
  | inl y ↦
      let (r, hr, e) = Memᴰ.of_map (touched new) rows (rw (y, upsert) at m) in
      elim (Bool-cases (same_key new r)) [
        | inl k ↦ inl (sym e ∙ rw k (updated_new new r k))
        | inr k ↦
            let same : r ≡ a = sym (rw k refl) ∙ e in
            inr (subst (λ b. Memᴰ b rows) same hr, subst (λ b. same_key new b ≡ false) same k)
      ]
]

apart :
    (new a b : PolicyRow)
    → a ≡ new
    → same_key new b ≡ false
    → a.server_id ≡ b.server_id
    → a.database_name ≡ b.database_name
    → a.capability ≡ b.capability
    → a ≡ b
apart new a b e f s d c = absurd (
    false≢true (
      sym f
      ∙ of_key new b (sym s ∙ ap (λ (r : PolicyRow). r.server_id) e)
          (sym d ∙ ap (λ (r : PolicyRow). r.database_name) e)
          (sym c ∙ ap (λ (r : PolicyRow). r.capability) e)))

db_arg_named : (name : String) → db_arg name ≢ unnamed
db_arg_named name h = go (name == "") refl h
  where
    go : (b : Bool) → (name == "") ≡ b → (if b then none else some name) ≢ unnamed
    go true q h = none_some h
    go false q h = absurd (false≢true (sym q ∙ (eq_iff name "").1 (some_text name h)))

pub upsert-IsTable :
    (x : SetCapabilityPolicyInput) (now id : ℕ) (rows : List PolicyRow)
    → IsTable rows
    → IsTable (upsert (new_row x now id) rows)
upsert-IsTable x now id rows t = record {
  unique = λ a b m n s d c. elim (upsert_cases (new_row x now id) rows a m) [
    | inl e ↦ elim (upsert_cases (new_row x now id) rows b n) [
      | inl g ↦ e ∙ sym g
      | inr h ↦ apart (new_row x now id) a b e h.1 s d c
    ]
    | inr h ↦ elim (upsert_cases (new_row x now id) rows b n) [
      | inl g ↦ sym (apart (new_row x now id) b a g h.1 (sym s) (sym d) (sym c))
      | inr k ↦ t.unique a b h.0 k.0 s d c
    ]
  ];
  named = λ a m q. elim (upsert_cases (new_row x now id) rows a m) [
    | inl e ↦ db_arg_named x.database_name (sym (ap (λ (r : PolicyRow). r.database_name) e) ∙ q)
    | inr h ↦ t.named a h.0 q
  ];
}

find-touched :
    (new : PolicyRow) (rows : List PolicyRow) (r : PolicyRow)
    → find (same_key new) rows ≡ some r
    → find (same_key new) (map (touched new) rows) ≡ some (updated new r)
find-touched new [] r h = cc
find-touched new (y ∷ ys) r h = elim (Bool-cases (same_key new y)) [
  | inl k ↦
      rw (k, find, k) (ap (λ (o : Option PolicyRow). some (updated new (get_or y o))) (rw k at h))
  | inr k ↦ rw (k, find, k) (find-touched new ys r (rw k at h))
]

find-snoc :
    (new : PolicyRow) (rows : List PolicyRow)
    → find (same_key new) rows ≡ none
    → find (same_key new) (rows ++ new ∷ []) ≡ some new
find-snoc new [] h = rw (of_key new new refl refl refl) refl
find-snoc new (y ∷ ys) h = elim (Bool-cases (same_key new y)) [
  | inl k ↦ cc (rw k at h)
  | inr k ↦ rw k (find-snoc new ys (rw k at h))
]

any_of_find :
    (new : PolicyRow) (rows : List PolicyRow) (r : PolicyRow)
    → find (same_key new) rows ≡ some r
    → any (same_key new) rows ≡ true
any_of_find new [] r h = cc
any_of_find new (y ∷ ys) r h = elim (Bool-cases (same_key new y)) [
  | inl k ↦ rw k refl
  | inr k ↦ rw k (any_of_find new ys r (rw k at h))
]

none_of_find :
    (new : PolicyRow) (rows : List PolicyRow)
    → find (same_key new) rows ≡ none
    → any (same_key new) rows ≡ false
none_of_find new [] h = refl
none_of_find new (y ∷ ys) h = elim (Bool-cases (same_key new y)) [
  | inl k ↦ cc (rw k at h)
  | inr k ↦ rw k (none_of_find new ys (rw k at h))
]

-- The row of the new row's key, after the upsert, is the one that comes back.
pub find-upsert :
    (new : PolicyRow) (rows : List PolicyRow)
    → find (same_key new) (upsert new rows) ≡ some (upserted new rows)
unfolding upsert
find-upsert new rows = elim (Option-cases (find (same_key new) rows)) [
  | inl h ↦
      rw (upsert, none_of_find new rows h)
        (find-snoc new rows h ∙ ap (λ o. some (returned new o)) (sym h))
  | inr (r, h) ↦
      rw (upsert, any_of_find new rows r h)
        (find-touched new rows r h ∙ ap (λ o. some (returned new o)) (sym h))
]

-- The row that comes back is the new one, whether or not there was one of its key.
pub upserted-new : (new : PolicyRow) (rows : List PolicyRow) → upserted new rows ≡ new
upserted-new new rows = elim (Option-cases (find (same_key new) rows)) [
  | inl h ↦ rw h refl
  | inr (r, h) ↦ rw h (updated_new new r (find-some (same_key new) rows h).1)
]

pub named_or_empty : (name : String) → or_empty (db_arg name) ≡ name
named_or_empty name = ground (arith, eq_iff name "")

wanted_db :
    (d : Option String) (db : String)
    → (if db == "" then is_null d else sql_eq d db) ≡ not_distinct d (db_arg db)
wanted_db none db = ground arith
wanted_db (some t) db = ground arith

abbrev scanned : Option PolicyRow → Option CapabilityPolicy
scanned o = elim o [ none ↦ none | some r ↦ some (scan_row r) ]

pub get-upsert :
    (x : SetCapabilityPolicyInput) (now id : ℕ) (rows : List PolicyRow)
    → get_capability_policy
        (upsert (new_row x now id) rows)
        x.server_id
        x.database_name
        x.capability
      ≡ some (scan_row (upserted (new_row x now id) rows))
unfolding get_capability_policy
get-upsert x now id rows =
    let new : PolicyRow = new_row x now id in
    ap
      (λ (w : Option String → Bool). scanned (
        find
          (λ (r : PolicyRow).
            (r.server_id == x.server_id) && (w r.database_name && (r.capability == x.capability)))
          (upsert new rows)))
      (λ i d. wanted_db d x.database_name i)
    ∙ ap scanned (find-upsert new rows)
