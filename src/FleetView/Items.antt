-- ===== src/FleetView/Items.antt =====
-- internal/fleetview/dashboard.go: the items of the fleet's list, and their order.
use lynceus.Prelude.{ℕ, ◌≡◌, ◌⊎◌, String, Bool, true, ◌&&◌, ◌||◌, ltb, eqb, arith}
use lynceus.Prelude.Int.{ℤ, lez}
use lynceus.Prelude.Order.{Order}
use lynceus.FleetView.{Sev, sev_rank}

-- An insight's id is its kind after the word "insight: ".
pub data ItemId : Type 0 where
  check_id : String → ItemId
  insight_kind : String → ItemId

pub record AttentionItem : Type 0 where
  pub kind : String
  pub id : ItemId
  pub detail : String
  pub sev : Sev
  pub server_id : String
  pub server_name : String
  pub cluster_id : String
  pub category : String
  pub check_id : String
  pub fingerprint : String
  pub at : ℤ

-- The worse severity first, and in one severity the newer time first.
pub record Place : Type 0 where
  pub rank : ℕ
  pub at : ℤ

abbrev pub le_place : Place → Place → Bool
le_place p q = ltb p.rank q.rank || (eqb p.rank q.rank && lez q.at p.at)

pub place_total : (p q : Place) → (le_place p q ≡ true) ⊎ (le_place q p ≡ true)
place_total p q = ground arith

pub place_trans : (p q r : Place) → le_place p q ≡ true → le_place q r ≡ true → le_place p r ≡ true
place_trans p q r h k = ground arith

pub place_antisym : (p q : Place) → le_place p q ≡ true → le_place q p ≡ true → p ≡ q
place_antisym p q h k = ground arith

instance abbrev pub place_order : Order Place
place_order = record {
  le = le_place;
  le_total = place_total;
  le_trans = place_trans;
  le_antisym = place_antisym;
}

abbrev pub place_of : AttentionItem → Place
place_of x = record { rank = sev_rank x.sev; at = x.at }
