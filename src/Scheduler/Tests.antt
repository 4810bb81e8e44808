-- ===== src/Scheduler/Tests.antt =====
-- internal/checks/scheduler.go: a server with two findings, of which one is muted.
use lynceus.Prelude.{◌≡◌, ◌↔◌, refl, true, [], ◌∷◌, Memᴰ, string_eq}
use lynceus.Prelude.Result.{ok}
use lynceus.Ingest.Rows.{unix}
use lynceus.Prelude.Int.{pos}
use lynceus.Checks.Registry.{default_checks}
use lynceus.Checks.Tests.{whole, pid_text, input, off_result}
use lynceus.Scheduler.Tick.{MuteRow, World, notified, run_servers, run_once}
use lynceus.Scheduler.Notified.{IsDue, run_once-notified}

abbrev mute : MuteRow
mute = record {
  server_id = "s1";
  check_id = "vacuum.wraparound";
  object = "";
  muted_until = unix (pos 0);
  reason = "planned";
}

abbrev world : World
world = record {
  lock = ok true;
  server_ids = ok ("s1" ∷ []);
  input_of = λ s. ok input;
  mutes = λ s. ok (mute ∷ []);
  write = λ rows. ok tt;
}

run_once-notified_example :
    Memᴰ (notified off_result) (run_once world (default_checks whole pid_text) (unix (pos 9))).0
    ↔ IsDue world (default_checks whole pid_text) (unix (pos 9)) ("s1" ∷ []) off_result
unfolding run_once run_servers
run_once-notified_example =
    run_once-notified world (default_checks whole pid_text) (unix (pos 9)) ("s1" ∷ []) off_result
      refl refl ends
  where
    ends : (run_once world (default_checks whole pid_text) (unix (pos 9))).1 ≡ ok tt
    ends = refl
