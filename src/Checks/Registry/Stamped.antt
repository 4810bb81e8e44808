-- ===== src/Checks/Registry/Stamped.antt =====
-- internal/checks: what holds of the results of all registered checks.
use lynceus.Prelude.{
  ℕ, ◌≡◌, refl, sym, String, Bool, true, false, inl, inr, Option, none, some, List, [], ◌∷◌, ◌++◌,
  map, flat_map, Memᴰ, All, if◌then◌else◌, ◌||◌, not, string_eq, ◌==◌,
}
use lynceus.Prelude.Int.{ℤ, pos, lez, ltz}
use lynceus.Prelude.Numerals.{trim_space, parse_int}
use lynceus.Prelude.Text.{codes}
use mathlib.Core.List.Memᴰ
use lynceus.Checks.{XminInfo, Severity, firing, Input, SettingInfo, CheckResult, Check, stamp, run}
use lynceus.Checks.Settings.{
  disabled_features_check, fsync_check, shared_buffers_check, stats_check, work_mem_check,
  BoolFlagRule, flag, eval_flags, feature_rules, fsync_rules, check_size, check_target,
  bytes_of_setting, small_size, coarse, by_name, io_timing_rule,
}
use lynceus.Checks.Connections.{
  active_long_running_check, blocking_check, idle_in_transaction_check, at_severity, eval_blocking,
}
use lynceus.Checks.Indexes.{
  index_advisor_check, invalid_index_check, unused_index_check, eval_missing,
}
use lynceus.Checks.Vacuum.{
  Float64, insufficient_vacuum_frequency_check, wraparound_check, xmin_horizon_check, trigger,
  eval_xmin,
}
use lynceus.Checks.Registry.{default_checks}

-- A result says which check it is of, and that the check is firing.
abbrev pub IsOf : Check → CheckResult → Type 0
IsOf c r = (r.check_id ≡ c.id) × (r.category ≡ c.category) × (r.status ≡ firing)

abbrev pub IsOwn : Check → Type 0
IsOwn c = (input : Input) → All (IsOf c) (c.eval input)

All-append {ℓ κ} :
    {A : Type ℓ} (P : A → Type κ) (xs ys : List A) → All P xs → All P ys → All P (xs ++ ys)
All-append P [] ys h k = k
All-append P (x ∷ xs) ys h k = (h.0, All-append P xs ys h.1 k)

All-flat_map {ℓ} :
    {A : Type ℓ} (P : CheckResult → Type 0) (f : A → List CheckResult) (xs : List A)
    → ((a : A) → All P (f a))
    → All P (flat_map f xs)
All-flat_map P f [] h = tt
All-flat_map P f (x ∷ xs) h = All-append P (f x) (flat_map f xs) (h x) (All-flat_map P f xs h)

module _ (P : CheckResult → Type 0) where
  All-then : (b : Bool) (xs : List CheckResult) → All P xs → All P (if b then xs else [])
  All-then true xs h = h
  All-then false xs h = tt

  All-else : (b : Bool) (xs : List CheckResult) → All P xs → All P (if b then [] else xs)
  All-else true xs h = tt
  All-else false xs h = h

  All-at_severity :
      (o : Option Severity) (make : Severity → CheckResult)
      → ((s : Severity) → P (make s))
      → All P (at_severity o make)
  All-at_severity none make h = tt
  All-at_severity (some s) make h = (h s, tt)

flag-IsOf :
    (c : Check)
    → c.category ≡ "settings"
    → (r : BoolFlagRule) (o : Option SettingInfo) → All (IsOf c) (flag c.id r o)
flag-IsOf c e r none = tt
flag-IsOf c e r (some s) = All-then (IsOf c) (r.bad s.value) _ ((refl, sym e, refl), tt)

eval_flags-IsOf :
    (c : Check)
    → c.category ≡ "settings"
    → (input : Input) (rules : List BoolFlagRule) → All (IsOf c) (eval_flags input c.id rules)
eval_flags-IsOf c e input rules = All-flat_map (IsOf c) _ rules (λ r. flag-IsOf c e r _)

check_size-IsOf :
    (c : Check)
    → c.category ≡ "settings"
    → (name : String) (sev : Severity) (n : ℕ) (o : Option SettingInfo)
    → All (IsOf c) (check_size c.id name sev n o)
check_size-IsOf c e name sev n none = tt
check_size-IsOf c e name sev n (some s) = sized (bytes_of_setting s.value s.unit)
  where
    sized : (b : Option ℤ) → All (IsOf c) (small_size c.id name sev n b)
    sized none = tt
    sized (some b) = All-then (IsOf c) (lez b (pos n)) _ ((refl, sym e, refl), tt)

check_target-IsOf : (o : Option SettingInfo) → All (IsOf stats_check) (check_target o)
check_target-IsOf none = tt
check_target-IsOf (some s) = targeted (parse_int (trim_space (codes s.value)))
  where
    targeted : (n : Option ℤ) → All (IsOf stats_check) (coarse n)
    targeted none = tt
    targeted (some n) = All-then (IsOf stats_check) (ltz n (pos 100)) _ ((refl, refl, refl), tt)

module _ (f64 : Float64) (pid_text : ℤ → String) where
  active-IsOwn : IsOwn (active_long_running_check pid_text)
  active-IsOwn input =
      All-flat_map _ _ input.connections
        λ c. All-then _ (c.state == "active") _ (All-at_severity _ _ _ λ s. (refl, refl, refl))

  idle-IsOwn : IsOwn (idle_in_transaction_check pid_text)
  idle-IsOwn input = All-flat_map _ _ input.connections λ c.
      All-then _
        ((c.state == "idle in transaction") || (c.state == "idle in transaction (aborted)")) _
        (All-at_severity _ _ _ λ s. (refl, refl, refl))

  blocking-IsOwn : IsOwn (blocking_check pid_text)
  blocking-IsOwn input =
      All-flat_map (IsOf (blocking_check pid_text)) (eval_blocking pid_text) input.blocking
        λ e. ((refl, refl, refl), tt)

  missing-IsOwn : IsOwn index_advisor_check
  missing-IsOwn input =
      All-flat_map (IsOf index_advisor_check) eval_missing input.index_recs
        λ r. ((refl, refl, refl), tt)

  invalid-IsOwn : IsOwn invalid_index_check
  invalid-IsOwn input =
      All-flat_map _ _ input.indexes λ ix. All-else _ ix.is_valid _ ((refl, refl, refl), tt)

  unused-IsOwn : IsOwn unused_index_check
  unused-IsOwn input = All-flat_map _ _ input.indexes λ ix.
      All-else _ (not ix.is_valid || ix.is_primary || ix.is_unique) _ (
        All-else _ (ltz (pos 50) ix.idx_scan || ltz ix.size_bytes (pos 1048576)) _
          ((refl, refl, refl), tt))

  stats-IsOwn : IsOwn stats_check
  stats-IsOwn input =
      All-append _ _ _ (check_target-IsOf (by_name input "default_statistics_target"))
        (flag-IsOf stats_check refl io_timing_rule (by_name input "track_io_timing"))

  vacuum-IsOwn : IsOwn (insufficient_vacuum_frequency_check f64)
  vacuum-IsOwn input = All-flat_map _ _ input.table_stats λ t.
      All-else _
        (ltz t.dead_tuples (pos 1000)
          || not (f64.less (trigger f64 t.live_tuples) (f64.of_int t.dead_tuples)))
        _ ((refl, refl, refl), tt)

  wraparound-IsOwn : IsOwn wraparound_check
  wraparound-IsOwn input =
      All-flat_map _ _ input.freeze_ages λ f. All-at_severity _ _ _ λ s. (refl, refl, refl)

  xmin-IsOwn : IsOwn xmin_horizon_check
  xmin-IsOwn input = held input.xmin_horizon
    where
      held : (o : Option XminInfo) → All (IsOf xmin_horizon_check) (eval_xmin o)
      held none = tt
      held (some x) = All-at_severity _ _ _ λ s. (refl, refl, refl)

  default_checks-IsOwn : All IsOwn (default_checks f64 pid_text)
  default_checks-IsOwn = (
    active-IsOwn,
    (
      blocking-IsOwn,
      (
        idle-IsOwn,
        (
          missing-IsOwn,
          (
            invalid-IsOwn,
            (
              unused-IsOwn,
              (
                (λ i. eval_flags-IsOf disabled_features_check refl i feature_rules),
                (
                  (λ i. eval_flags-IsOf fsync_check refl i fsync_rules),
                  (
                    (λ i. check_size-IsOf shared_buffers_check refl _ _ _ _),
                    (
                      stats-IsOwn,
                      (
                        (λ i. check_size-IsOf work_mem_check refl _ _ _ _),
                        (vacuum-IsOwn, (wraparound-IsOwn, (xmin-IsOwn, tt))),
                      ),
                    ),
                  ),
                ),
              ),
            ),
          ),
        ),
      ),
    ),
  )

run-mem :
    (input : Input) (cs : List Check)
    → All IsOwn cs
    → {r : CheckResult} → Memᴰ r (run input cs)
    → (r.server_id ≡ input.server_id) × ((c : Check) × Memᴰ c cs × IsOf c r)
unfolding run
run-mem input [] own m = absurd (Memᴰ.not-nil m)
run-mem input (c ∷ cs) own m =
    elim (Memᴰ.append_cases (map (stamp input.server_id) (c.eval input)) m) [
      | inl h ↦ let (s, i) = stamped (c.eval input) (own.0 input) h in (s, (c, Memᴰ.head refl, i))
      | inr t ↦ let (s, (d, k, i)) = run-mem input cs own.1 t in (s, (d, Memᴰ.tail k, i))
    ]
  where
    stamped :
        (rs : List CheckResult)
        → All (IsOf c) rs
        → {r : CheckResult} → Memᴰ r (map (stamp input.server_id) rs)
        → (r.server_id ≡ input.server_id) × IsOf c r
    stamped [] h m = absurd (Memᴰ.not-nil m)
    stamped (x ∷ xs) h m = elim (Memᴰ.cases_cons m) [
      | inl e ↦ rw e (refl, h.0)
      | inr t ↦ stamped xs h.1 t
    ]

-- Every result of a run of the registered checks is firing, is stamped with the input's server, and
-- bears the identifier and category of a registered check.
pub run-IsStamped :
    (f64 : Float64) (pid_text : ℤ → String) (input : Input) {r : CheckResult}
    → Memᴰ r (run input (default_checks f64 pid_text))
    → (r.server_id ≡ input.server_id)
      × ((c : Check) × Memᴰ c (default_checks f64 pid_text) × IsOf c r)
run-IsStamped f64 pid_text input m =
    run-mem input (default_checks f64 pid_text) (default_checks-IsOwn f64 pid_text) m
