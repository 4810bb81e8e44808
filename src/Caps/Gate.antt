-- ===== src/Caps/Gate.antt =====
-- internal/caps/gate.go: the in-memory snapshot of effective policy. The lock makes each method
-- atomic, so a method is a function of the snapshot.
use lynceus.Prelude.{
  String, Bool, true, false, ◌&&◌, ◌≡◌, ◌↔◌, Option, none, some, [], arith, eq_iff, Eq, ◌==◌,
  string_eq,
}
use lynceus.Prelude.Dict.{Dict, get}
use lynceus.Caps.{Capability}

pub record GateKey : Type 0 where
  pub db : String
  pub cap : Capability

abbrev pub key_beq : GateKey → GateKey → Bool
key_beq a b = (a.db == b.db) && (a.cap == b.cap)

pub key_beq_iff : (a b : GateKey) → (key_beq a b ≡ true) ↔ (a ≡ b)
key_beq_iff a b = ground (arith, eq_iff a.db b.db, eq_iff a.cap b.cap)

instance abbrev pub key_eq : Eq GateKey
key_eq = record { beq = key_beq; beq_iff = key_beq_iff }

abbrev pub Snapshot : Type 0
Snapshot = Dict GateKey Bool

pub record Gate : Type 0 where
  pub enabled : Snapshot

unfoldable pub new_gate : Gate
new_gate = record { enabled = [] }

-- An absent key is enabled.
unfoldable pub allowed : Gate → String → Capability → Bool
allowed g db c = elim (get (record { db = db; cap = c }) g.enabled) [
  | none ↦ true
  | some enabled ↦ enabled
]

-- An absent key is disabled.
unfoldable pub allowed_strict : Gate → String → Capability → Bool
allowed_strict g db c = elim (get (record { db = db; cap = c }) g.enabled) [
  | none ↦ false
  | some enabled ↦ enabled
]

-- `none` is a nil snapshot, which clears the gate.
unfoldable pub replace : Gate → Option Snapshot → Gate
replace g none = record { enabled = [] }
replace g (some snap) = record { enabled = snap }
