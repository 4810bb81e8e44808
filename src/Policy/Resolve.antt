-- ===== src/Policy/Resolve.antt =====
-- The collector's gate, fed from the policy snapshot, decides as the server-side resolver does
-- (internal/caps, internal/api/capabilities.go, internal/collector/policy_refresh.go).
mod Overlay
mod Decision
mod Shipped
use lynceus.Prelude.{
  String, Bool, ◌&&◌, ◌≡◌, ◌≢◌, refl, true, false, ◌∙◌, ap, Option, none, some, List, Memᴰ, Permᴰ,
  string_eq, ◌==◌, arith, eq_iff,
}
use lynceus.Prelude.Dict.{get}
use lynceus.Prelude.Result.{Result, ok, err, ◌>>=◌}
use lynceus.Caps.{query_text_t2}
use lynceus.Caps.Gate.{Gate, GateKey, key_eq}
use lynceus.Caps.Gate
use lynceus.Policy
use lynceus.Policy.{PolicyRow, IsTable, list_capability_policies, effective_capability}
use lynceus.Policy.Snapshot.{
  refresh_policy, PolicyReader, enabled_of, stored_entries, handle_policy_snapshot, reply,
  resolve_entries, fetch_policy_snapshot,
}
use Decision.{Decides-unique, value_of, effective-Decides}
use Shipped.{gate-Decides, get-resolve_t2}

-- `store.Config` over a table, with the rows of `servers` as a function: (t2_enabled, found).
abbrev pub table_reader :
    (List PolicyRow → List PolicyRow) → List PolicyRow → (String → Bool × Bool) → PolicyReader
table_reader order_by rows t2 = record {
  list_capability_policies = λ s. ok (list_capability_policies order_by rows s);
  server_t2_enabled = λ s. ok (t2 s);
  effective_capability = λ s d c. ok (effective_capability rows s d c);
}

-- The refresh: the handler's answer, decoded and resolved by the collector.
abbrev pub refresh : PolicyReader → String → String → Result Gate.Snapshot
refresh conf server db = do
  entries ← handle_policy_snapshot conf server
  fetch_policy_snapshot (reply 200 (ok entries)) db

abbrev or_enabled : Option Bool → Bool
or_enabled o = elim o [ none ↦ true | some b ↦ b ]

or_enabled-value_of :
    (o : Option (Bool × Policy.PolicySource))
    → or_enabled (value_of o) ≡ elim o [ none ↦ true | some p ↦ p.0 ]
or_enabled-value_of none = refl
or_enabled-value_of (some p) = refl

configured_test : (base : String) → base ≢ "" → (base == "") ≡ false
configured_test base h = ground (arith, eq_iff base "")

module _ (order_by : List PolicyRow → List PolicyRow)
    (order_by-perm : (rows : List PolicyRow) → Permᴰ (order_by rows) rows) (rows : List PolicyRow)
    (table : IsTable rows) (t2 : String → Bool × Bool) (server db base : String) (named : db ≢ "")
    (configured : base ≢ "") (g : Gate) where
  -- Where an api server is configured, and the collector's database has a name, after a refresh from
  -- a table with its constraint the gate allows a capability other than raw query text exactly when
  -- the server-side resolver does: the database's override, else the default, else enabled.
  pub gate_allowed :
      (c : String)
      → c ≢ query_text_t2
      → Gate.allowed
          (refresh_policy base (refresh (table_reader order_by rows t2) server db) g)
          db
          c
        ≡ Policy.allowed rows server db c
  unfolding handle_policy_snapshot fetch_policy_snapshot refresh_policy Gate.allowed Policy.allowed
  gate_allowed c ordinary = rw (configured_test base configured) (
      ap or_enabled (
        Decides-unique table
          (gate-Decides order_by order_by-perm rows table server _ c ordinary db named)
          (effective-Decides server db c rows))
      ∙ or_enabled-value_of (effective_capability rows server db c))

  -- Where an api server is configured, and the collector's database has a name, after a refresh from
  -- a table with its constraint the gate allows raw query text exactly when the server's switch and
  -- the server-wide policy row are both on.
  pub gate_allowed_strict :
      Gate.allowed_strict
        (refresh_policy base (refresh (table_reader order_by rows t2) server db) g)
        db
        query_text_t2
      ≡ (t2 server).0 && enabled_of (effective_capability rows server "" query_text_t2)
  unfolding handle_policy_snapshot fetch_policy_snapshot refresh_policy Gate.allowed_strict
  gate_allowed_strict = rw (configured_test base configured) (
      ap (λ (o : Option Bool). elim o [ none ↦ false | some b ↦ b ])
        (get-resolve_t2 order_by order_by-perm rows table server _ db named))
