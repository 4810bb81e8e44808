-- ===== src/Fanout/Finish.antt =====
-- internal/collector/fanout.go: `RunBounded` returns, with the error of every task in its place.
use lynceus.Prelude.{
  ℕ, zero, suc, ◌+◌, ◌*◌, ◌≤◌, ◌≡◌, refl, sym, subst, ap, ap₂, ◌∙◌, ◌⊎◌, inl, inr, List, [], ◌∷◌,
  ◌++◌, map, arith, All, length,
}
use lynceus.Prelude.Int.{ℤ, pos, negsuc}
use lynceus.Fanout.{
  clamped, Stage, waiting, running, ran, done, Task, Worker, Pool, spawn, start, errs, Move, send,
  run, receive, Step, pick, Steps, here, next,
}
use lynceus.Fanout.Bound.{slot, left, total, total-pick, Inv, Steps-Inv}

abbrev IsHolding : Stage → Type 0
IsHolding g = (g ≡ running) ⊎ (g ≡ ran)

abbrev IsIdle : Stage → Type 0
IsIdle g = (g ≡ waiting) ⊎ (g ≡ done)

stage_cases : (g : Stage) → IsHolding g ⊎ IsIdle g
stage_cases waiting = inr (inl refl)
stage_cases running = inl (inl refl)
stage_cases ran = inl (inr refl)
stage_cases done = inr (inr refl)

clamped_positive : (budget : ℤ) → 1 ≤ clamped budget
clamped_positive (pos zero) = omega arith
clamped_positive (pos (suc n)) = omega arith
clamped_positive (negsuc n) = omega arith

module _ {E : Type 0} where
  total-left : (tasks : List (Task E)) → total left (map spawn tasks) ≡ 3 * length tasks
  total-left [] = refl
  total-left (t ∷ ts) = omega (arith, total-left ts)

  Step-left :
      {budget : ℕ} {s u : Pool E}
      → Step budget s u
      → total left s.workers ≡ suc (total left u.workers)
  Step-left {budget} {s} (pick before {w} later e m) = ap (total left) e ∙ go m
    where
      go :
          {v : Worker E} {k : ℕ}
          → Move budget w s.held v k
          → total left (before ++ w ∷ later) ≡ suc (total left (before ++ v ∷ later))
      go (send q l) = omega (
        arith,
        ap left q,
        total-pick left before w later,
        total-pick left before (record w { stage = running }) later,
      )
      go (run q) = omega (
        arith,
        ap left q,
        total-pick left before w later,
        total-pick left before (record w { stage = ran; err = w.task.outcome }) later,
      )
      go (receive q) = omega (
        arith,
        ap left q,
        total-pick left before w later,
        total-pick left before (record w { stage = done }) later,
      )

  Steps-left :
      {budget : ℕ} {s : Pool E} {n : ℕ} {u : Pool E}
      → Steps budget s n u
      → total left s.workers ≡ n + total left u.workers
  Steps-left here = omega arith
  Steps-left (next r st) = omega (arith, Steps-left r, Step-left st)

  -- What a goroutine that ran left in `errs`.
  abbrev Kept : Worker E → Type 0
  Kept w = (w.stage ≡ waiting) ⊎ (w.stage ≡ running) ⊎ (w.err ≡ w.task.outcome)

  abbrev pub IsDone : Pool E → Type 0
  IsDone s = All (λ w. w.stage ≡ done) s.workers

  -- Some goroutine is at one of the stages of `P`, or all are at those of `Q`.
  find_stage :
      (P Q : Stage → Type 0)
      → ((g : Stage) → P g ⊎ Q g)
      → (ws : List (Worker E))
      → ((before : List (Worker E)) × (w : Worker E) × (later : List (Worker E)) × (ws
            ≡ before ++ w ∷ later)
          × P w.stage)
        ⊎ All (λ w. Q w.stage) ws
  find_stage P Q f [] = inr tt
  find_stage P Q f (w ∷ ws) = elim (f w.stage) [
    | inl p ↦ inl ([], w, ws, refl, p)
    | inr q ↦ elim (find_stage P Q f ws) [
      | inl (b, v, l, e, p) ↦ inl (w ∷ b, v, l, ap (λ t. w ∷ t) e, p)
      | inr r ↦ inr (q, r)
    ]
  ]

  idle_free : (ws : List (Worker E)) → All (λ w. IsIdle w.stage) ws → total slot ws ≡ 0
  idle_free [] h = refl
  idle_free (w ∷ ws) (inl q, h) = omega (arith, ap slot q, idle_free ws h)
  idle_free (w ∷ ws) (inr q, h) = omega (arith, ap slot q, idle_free ws h)

  idle_done :
      (ws : List (Worker E))
      → All (λ w. IsIdle w.stage) ws
      → ((before : List (Worker E)) × (w : Worker E) × (later : List (Worker E)) × (ws
            ≡ before ++ w ∷ later)
          × (w.stage ≡ waiting))
        ⊎ All (λ w. w.stage ≡ done) ws
  idle_done [] h = inr tt
  idle_done (w ∷ ws) (inl q, h) = inl ([], w, ws, refl, q)
  idle_done (w ∷ ws) (inr q, h) = elim (idle_done ws h) [
    | inl (b, v, l, e, p) ↦ inl (w ∷ b, v, l, ap (λ t. w ∷ t) e, p)
    | inr r ↦ inr (q, r)
  ]

  progress :
      {budget : ℕ} (s : Pool E)
      → 1 ≤ budget
      → Inv budget s
      → IsDone s ⊎ ((u : Pool E) × Step budget s u)
  progress s l i = elim (find_stage IsHolding IsIdle stage_cases s.workers) [
    | inl (b, w, r, e, inl q) ↦ inr (_, pick b r e (run q))
    | inl (b, w, r, e, inr q) ↦ inr (_, pick b r e (receive q))
    | inr h ↦ elim (idle_done s.workers h) [
      | inl (b, w, r, e, q) ↦
          inr (_, pick b r e (send q (omega (arith, i.counted, idle_free s.workers h))))
      | inr d ↦ inl d
    ]
  ]

  -- Whatever the budget, every interleaving ends after at most three steps for each task, and until
  -- then some goroutine can move: `wg.Wait` returns.
  pub Steps-IsFinite :
      (budget : ℤ) (tasks : List (Task E)) {n : ℕ} {s : Pool E}
      → Steps (clamped budget) (start tasks) n s
      → (n ≤ 3 * length tasks) × (IsDone s ⊎ ((u : Pool E) × Step (clamped budget) s u))
  unfolding start
  Steps-IsFinite budget tasks {s = s} r = (
    omega (arith, Steps-left r, total-left tasks),
    progress s (clamped_positive budget) (Steps-Inv tasks r),
  )

  -- The goroutines keep their tasks, and those that ran have stored what their task returned.
  record Stored (tasks : List (Task E)) (s : Pool E) : Type 0 where
    same : map (λ w. w.task) s.workers ≡ tasks
    stored : All Kept s.workers

  Move-task : {budget k j : ℕ} {w v : Worker E} → Move budget w k v j → v.task ≡ w.task
  Move-task (send q l) = refl
  Move-task (run q) = refl
  Move-task (receive q) = refl

  Move-Kept : {budget k j : ℕ} {w v : Worker E} → Move budget w k v j → Kept w → Kept v
  Move-Kept (send q l) h = inr (inl refl)
  Move-Kept (run q) h = inr (inr refl)
  Move-Kept (receive q) (inl p) = absurd (ground arith)
  Move-Kept (receive q) (inr (inl p)) = absurd (ground arith)
  Move-Kept (receive q) (inr (inr p)) = inr (inr p)

  swap_task :
      (before : List (Worker E)) (w v : Worker E) (later : List (Worker E))
      → v.task ≡ w.task
      → map (λ u. u.task) (before ++ v ∷ later) ≡ map (λ u. u.task) (before ++ w ∷ later)
  swap_task [] w v later e = ap (λ t. t ∷ map (λ u. u.task) later) e
  swap_task (x ∷ xs) w v later e = ap (λ t. x.task ∷ t) (swap_task xs w v later e)

  swap_All :
      (P : Worker E → Type 0) (before : List (Worker E)) {w v : Worker E} (later : List (Worker E))
      → (P w → P v)
      → All P (before ++ w ∷ later)
      → All P (before ++ v ∷ later)
  swap_All P [] later f (h, hs) = (f h, hs)
  swap_All P (x ∷ xs) later f (h, hs) = (h, swap_All P xs later f hs)

  Step-Stored :
      {budget : ℕ} {tasks : List (Task E)} {s u : Pool E}
      → Stored tasks s
      → Step budget s u
      → Stored tasks u
  Step-Stored i (pick before {w} {v} later e m) = record {
    same = swap_task before w v later (Move-task m) ∙ ap (map (λ u. u.task)) (sym e) ∙ i.same;
    stored = swap_All Kept before later (Move-Kept m) (subst (All Kept) e i.stored);
  }

  start-tasks : (tasks : List (Task E)) → map (λ w. w.task) (map spawn tasks) ≡ tasks
  start-tasks [] = refl
  start-tasks (t ∷ ts) = ap (λ r. t ∷ r) (start-tasks ts)

  start-Kept : (tasks : List (Task E)) → All Kept (map spawn tasks)
  start-Kept [] = tt
  start-Kept (t ∷ ts) = (inl refl, start-Kept ts)

  Steps-Stored :
      (tasks : List (Task E)) {budget n : ℕ} {s : Pool E}
      → Steps budget (start tasks) n s
      → Stored tasks s
  unfolding start
  Steps-Stored tasks here = record { same = start-tasks tasks; stored = start-Kept tasks }
  Steps-Stored tasks (next r st) = Step-Stored (Steps-Stored tasks r) st

  done_errs :
      (ws : List (Worker E))
      → All Kept ws
      → All (λ w. w.stage ≡ done) ws
      → map (λ w. w.err) ws ≡ map (λ t. t.outcome) (map (λ w. w.task) ws)
  done_errs [] k d = refl
  done_errs (w ∷ ws) (inl q, k) (p, d) = absurd (ground arith)
  done_errs (w ∷ ws) (inr (inl q), k) (p, d) = absurd (ground arith)
  done_errs (w ∷ ws) (inr (inr q), k) (p, d) = ap₂ ◌∷◌ q (done_errs ws k d)

  -- Where every goroutine is done, `errs` has at each index what that index's task returned,
  -- whatever the interleaving, and whether other tasks failed or not.
  pub Steps-errs :
      (tasks : List (Task E)) {budget n : ℕ} {s : Pool E}
      → Steps budget (start tasks) n s
      → IsDone s
      → errs s ≡ map (λ t. t.outcome) tasks
  Steps-errs tasks {s = s} r d =
      let i = Steps-Stored tasks r in
      done_errs s.workers i.stored d ∙ ap (λ ts. map (λ t. t.outcome) ts) i.same
