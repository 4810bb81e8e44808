-- ===== src/Policy/Resolve/Overlay.antt =====
-- internal/collector/policy_refresh.go: what a pass over the entries leaves in the map.
use lynceus.Prelude.{
  String, Bool, true, ◌&&◌, ◌≡◌, refl, ◌∙◌, ap, Option, none, some, List, [], ◌∷◌, arith, eq_iff,
  find, find-some, Memᴰ, ◌==◌, string_eq, if◌then◌else◌, Bool-cases, inl, inr,
}
use lynceus.Prelude.Dict.{get, put, get-put}
use lynceus.Caps.Gate.{GateKey, key_eq}
use lynceus.Caps.Gate
use lynceus.Policy.Snapshot.{PolicySnapshotEntry, overlay}

abbrev pub is_hit : String → String → PolicySnapshotEntry → Bool
is_hit wanted c e = (e.database_name == wanted) && (e.capability == c)

abbrev pub or_else : Option PolicySnapshotEntry → Option Bool → Option Bool
or_else none o = o
or_else (some e) o = some e.enabled

-- Entries that address one key agree on its value.
abbrev pub HitsAgree : String → String → List PolicySnapshotEntry → Type 0
HitsAgree wanted c es =
    (a b : PolicySnapshotEntry)
    → Memᴰ a es
    → Memᴰ b es
    → is_hit wanted c a ≡ true
    → is_hit wanted c b ≡ true
    → a.enabled ≡ b.enabled

-- What one round of the loop does to the key.
get-write :
    (wanted db c : String) (e : PolicySnapshotEntry) (out : Gate.Snapshot)
    → get
        (record { db = db; cap = c })
        (if e.database_name == wanted
          then put (record { db = db; cap = e.capability }) e.enabled out
          else out)
      ≡ (if is_hit wanted c e then some e.enabled else get (record { db = db; cap = c }) out)
get-write wanted db c e out = ground (
  arith,
  get-put (record { db = db; cap = e.capability }) (record { db = db; cap = c }) e.enabled out,
  eq_iff db db,
  eq_iff e.capability c,
)

or_else_agrees :
    (o : Option PolicySnapshotEntry) (b : Bool)
    → ((e : PolicySnapshotEntry) → o ≡ some e → e.enabled ≡ b)
    → or_else o (some b) ≡ some b
or_else_agrees none b h = refl
or_else_agrees (some e) b h = ap some (h e refl)

pub get-overlay :
    (wanted db c : String) (es : List PolicySnapshotEntry) (out : Gate.Snapshot)
    → HitsAgree wanted c es
    → get (record { db = db; cap = c }) (overlay wanted db es out)
      ≡ or_else (find (is_hit wanted c) es) (get (record { db = db; cap = c }) out)
unfolding overlay
get-overlay wanted db c [] out agree = refl
get-overlay wanted db c (e ∷ es) out agree =
    get-overlay wanted db c es _ (λ a b h k. agree a b (Memᴰ.tail h) (Memᴰ.tail k))
    ∙ ap (or_else (find (is_hit wanted c) es)) (get-write wanted db c e out)
    ∙ elim (Bool-cases (is_hit wanted c e)) [
      | inl hit ↦ rw hit (
          or_else_agrees (find (is_hit wanted c) es) e.enabled (λ f found.
            let r = find-some (is_hit wanted c) es found in
            agree f e (Memᴰ.tail r.0) (Memᴰ.head refl) r.1 hit))
      | inr miss ↦ rw miss
    ]
