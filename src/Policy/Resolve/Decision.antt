-- ===== src/Policy/Resolve/Decision.antt =====
-- An independent description of policy resolution: the override of the database, else the
-- server-wide default, else nothing; and `EffectiveCapability` meets it.
use lynceus.Prelude.{
  String, Bool, true, false, ◌&&◌, ◌≡◌, ◌↔◌, refl, sym, ◌∙◌, ap, Option, none, some, List, arith,
  eq_iff, find, find-some, find-none, Memᴰ, string_eq, Option-cases, inl, inr,
}
use mathlib.Core.Bool.{false≢true}
use lynceus.Policy.{
  PolicyRow, PolicySource, IsTable, is_some, sql_eq, is_candidate, effective_row,
  effective_capability,
}

-- The row is the one stored under the key.
pub record HasKey (server : String) (d : Option String) (c : String) (r : PolicyRow) : Type 0 where
  pub server_key : r.server_id ≡ server
  pub database_key : r.database_name ≡ d
  pub capability_key : r.capability ≡ c

abbrev pub Missing : List PolicyRow → String → Option String → String → Type 0
Missing rows server d c = (r : PolicyRow) → Memᴰ r rows → ¬ HasKey server d c r

pub data Decides (rows : List PolicyRow) (server db c : String) (o : Option Bool) : Type 0 where
  by_override :
      (r : PolicyRow)
      → Memᴰ r rows
      → HasKey server (some db) c r
      → o ≡ some r.enabled
      → Decides rows server db c o
  by_default :
      (r : PolicyRow)
      → Memᴰ r rows
      → HasKey server none c r
      → Missing rows server (some db) c
      → o ≡ some r.enabled
      → Decides rows server db c o
  undecided :
      Missing rows server (some db) c
      → Missing rows server none c
      → o ≡ none
      → Decides rows server db c o

module _ {rows : List PolicyRow} (table : IsTable rows) where
  pub same_row :
      {server c : String} (d : Option String) (r s : PolicyRow)
      → Memᴰ r rows
      → Memᴰ s rows
      → HasKey server d c r
      → HasKey server d c s
      → r.enabled ≡ s.enabled
  same_row d r s hr hs kr ks =
      ap (λ (t : PolicyRow). t.enabled)
        (table.unique r s hr hs (kr.server_key ∙ sym ks.server_key)
          (kr.database_key ∙ sym ks.database_key) (kr.capability_key ∙ sym ks.capability_key))

  -- A table decides in one way.
  pub Decides-unique :
      {server db c : String} {o p : Option Bool}
      → Decides rows server db c o
      → Decides rows server db c p
      → o ≡ p
  Decides-unique {db = db} (by_override r hr kr e) (by_override s hs ks f) =
      e ∙ ap some (same_row (some db) r s hr hs kr ks) ∙ sym f
  Decides-unique (by_override r hr kr e) (by_default s hs ks m f) = absurd (m r hr kr)
  Decides-unique (by_override r hr kr e) (undecided m n f) = absurd (m r hr kr)
  Decides-unique (by_default r hr kr m e) (by_override s hs ks f) = absurd (m s hs ks)
  Decides-unique (by_default r hr kr m e) (by_default s hs ks n f) =
      e ∙ ap some (same_row none r s hr hs kr ks) ∙ sym f
  Decides-unique (by_default r hr kr m e) (undecided n k f) = absurd (k r hr kr)
  Decides-unique (undecided m n e) (by_override s hs ks f) = absurd (m s hs ks)
  Decides-unique (undecided m n e) (by_default s hs ks k f) = absurd (n s hs ks)
  Decides-unique (undecided m n e) (undecided k l f) = e ∙ sym f

abbrev pub value_of : Option (Bool × PolicySource) → Option Bool
value_of none = none
value_of (some p) = some p.0

sql_eq_iff : (d : Option String) (s : String) → (sql_eq d s ≡ true) ↔ (d ≡ some s)
sql_eq_iff none s = ground arith
sql_eq_iff (some t) s = ground (arith, eq_iff t s)

module _ (server db c : String) where
  override_iff :
      (r : PolicyRow)
      → ((is_candidate server db c r && is_some r.database_name) ≡ true)
        ↔ HasKey server (some db) c r
  override_iff r =
      ground
        (arith, eq_iff r.server_id server, eq_iff r.capability c, sql_eq_iff r.database_name db)

  default_key :
      (r : PolicyRow)
      → is_candidate server db c r ≡ true
      → (is_candidate server db c r && is_some r.database_name) ≡ false
      → HasKey server none c r
  default_key r h k = ground (arith, eq_iff r.server_id server, eq_iff r.capability c)

  default_is_candidate :
      (r : PolicyRow) → HasKey server none c r → is_candidate server db c r ≡ true
  default_is_candidate r h = ground (arith, eq_iff r.server_id server, eq_iff r.capability c)

  pub effective-Decides :
      (rows : List PolicyRow)
      → Decides rows server db c (value_of (effective_capability rows server db c))
  unfolding effective_capability
  effective-Decides rows =
      elim (Option-cases (find (λ r. is_candidate server db c r && is_some r.database_name) rows)) [
        | inr (r, e) ↦
            let f = find-some _ rows e in
            rw (e, value_of, effective_capability, effective_row)
              (by_override r f.0 ((override_iff r).0 f.1) refl)
        | inl e ↦
            rw (e, value_of, effective_capability, effective_row)
              (let no_override : Missing rows server (some db) c =
                  λ s m k. false≢true (sym (find-none _ rows e m) ∙ (override_iff s).1 k) in
                elim (Option-cases (find (is_candidate server db c) rows)) [
                  | inr (r, d) ↦
                      let f = find-some _ rows d in
                      rw (d, value_of, effective_capability, effective_row)
                        (by_default r f.0 (default_key r f.1 (find-none _ rows e f.0)) no_override
                          refl)
                  | inl d ↦
                      rw (d, value_of, effective_capability, effective_row)
                        (undecided no_override
                          (λ s m k.
                            false≢true (sym (find-none _ rows d m) ∙ default_is_candidate s k))
                          refl)
                ])
      ]
