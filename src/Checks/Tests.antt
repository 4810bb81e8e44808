-- ===== src/Checks/Tests.antt =====
-- internal/checks: a server whose autovacuum is off, with one old table.
use lynceus.Prelude.{ℕ, ◌≡◌, refl, String, false, none, some, [], ◌∷◌, Memᴰ, string_eq, ltb}
use lynceus.Prelude.Int.{ℤ, pos, pos_part}
use lynceus.Prelude.Numerals.{trim_space, parse_int}
use lynceus.Checks.{
  critical, Input, SettingInfo, FreezeInfo, CheckResult, text, freeze_age, fires, stamp, run,
}
use lynceus.Checks.Settings.{setting_bool, bytes_of_setting}
use lynceus.Checks.Vacuum.{Float64}
use lynceus.Checks.Registry.{default_checks}

-- Whole numbers in place of floats.
abbrev pub whole : Float64
whole = record {
  F = ℕ;
  literal = λ s. 0;
  of_int = pos_part;
  add = λ a b. a;
  mul = λ a b. a;
  less = ltb;
  leq = λ a b. false;
  div = λ a b. a;
  to_int = λ n. pos n;
}

abbrev pub pid_text : ℤ → String
pid_text n = "pid"

abbrev autovacuum_off : SettingInfo
autovacuum_off = record {
  name = "autovacuum";
  value = " off";
  unit = "";
  source = "";
  pending_restart = false;
}

abbrev old_table : FreezeInfo
old_table = record {
  scope = "table";
  relation = "public.orders";
  xid_age = pos 1600000000;
  mxid_age = pos 7;
  autovacuum_freeze_max_age = pos 200000000;
}

abbrev pub input : Input
input = record {
  server_id = "s1";
  table_stats = [];
  freeze_ages = old_table ∷ [];
  index_recs = [];
  connections = [];
  blocking = [];
  indexes = [];
  xmin_horizon = none;
  settings = autovacuum_off ∷ [];
}

abbrev pub old_result : CheckResult
old_result = stamp "s1" (
    fires "vacuum.wraparound" "vacuum" critical "public.orders"
      (freeze_age "transaction-id" (pos 1600000000) (pos 200000000)))

abbrev pub off_result : CheckResult
off_result = stamp "s1" (
    fires "settings.disabled_features" "settings" critical "autovacuum" (
      text
        "autovacuum is off — dead tuples and transaction-id wraparound are no longer contained; re-enable immediately"))

pub run_input : run input (default_checks whole pid_text) ≡ off_result ∷ old_result ∷ []
unfolding run setting_bool trim_space
run_input = refl

shared_buffers_bytes : bytes_of_setting " 16384" "8kB" ≡ some (pos 134217728)
unfolding bytes_of_setting parse_int trim_space
shared_buffers_bytes = refl

old_mem : Memᴰ old_result (run input (default_checks whole pid_text))
old_mem = rw run_input (Memᴰ.tail (Memᴰ.head refl))
