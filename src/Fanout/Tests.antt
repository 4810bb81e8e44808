-- ===== src/Fanout/Tests.antt =====
-- internal/collector/fanout.go: two tasks under a budget of one, of which the second runs first and fails.
use lynceus.Prelude.{ℕ, ◌≤◌, refl, ◌⊎◌, String, none, some, List, [], ◌∷◌, arith}
use lynceus.Prelude.Int.{pos}
use lynceus.Fanout.{
  Stage, waiting, running, done, Task, Worker, Pool, start, send, run, receive, Step, pick, Steps,
  here, next,
}
use lynceus.Fanout.Bound.{busy, total, Steps-IsBounded}
use lynceus.Fanout.Finish.{IsDone, Steps-IsFinite}

abbrev reads_queries : Task String
reads_queries = record { name = "queries"; outcome = none }

abbrev reads_plans : Task String
reads_plans = record { name = "plans"; outcome = some "timeout" }

abbrev both : List (Task String)
both = reads_queries ∷ reads_plans ∷ []

abbrev at : Task String → Stage → Worker String
at t g = record { task = t; stage = g; err = none }

abbrev failed : Stage → Worker String
failed g = record { task = reads_plans; stage = g; err = some "timeout" }

abbrev state : List (Worker String) → ℕ → Pool String
state ws k = record { workers = ws; held = k }

one_running :
    Steps 1 (start both) 1 (state (at reads_queries waiting ∷ at reads_plans running ∷ []) 1)
unfolding start
one_running = next here (pick (at reads_queries waiting ∷ []) [] refl (send refl (omega arith)))

one_done : Steps 1 (start both) 3 (state (at reads_queries waiting ∷ failed done ∷ []) 0)
one_done =
    next (next one_running (pick (at reads_queries waiting ∷ []) [] refl (run refl)))
      (pick (at reads_queries waiting ∷ []) [] refl (receive refl))

both_done : Steps 1 (start both) 6 (state (at reads_queries done ∷ failed done ∷ []) 0)
both_done =
    next
      (next (next one_done (pick [] (failed done ∷ []) refl (send refl (omega arith))))
        (pick [] (failed done ∷ []) refl (run refl)))
      (pick [] (failed done ∷ []) refl (receive refl))

Steps-IsBounded_example : total busy (at reads_queries waiting ∷ at reads_plans running ∷ []) ≤ 1
Steps-IsBounded_example = Steps-IsBounded both one_running

Steps-IsFinite_example :
    let s = state (at reads_queries waiting ∷ failed done ∷ []) 0 in
    (3 ≤ 6) × (IsDone s ⊎ ((u : Pool String) × Step 1 s u))
Steps-IsFinite_example = Steps-IsFinite (pos 0) both one_done
