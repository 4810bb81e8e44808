-- ===== src/Fanout.antt =====
-- internal/collector/fanout.go: `RunBounded`, one goroutine per task over a channel as a semaphore.
pub mod Bound
pub mod Finish
pub mod Tests
use lynceus.Prelude.{
  ℕ, zero, suc, ◌+◌, ◌-◌, ◌<◌, ◌≡◌, String, Option, none, some, List, [], ◌∷◌, ◌++◌, map,
}
use lynceus.Prelude.Int.{ℤ, pos, negsuc}

-- `budget < 1` is clamped to 1.
abbrev pub clamped : ℤ → ℕ
clamped (pos zero) = 1
clamped (pos (suc n)) = suc n
clamped (negsuc n) = 1

-- A goroutine before its send on the channel, in its task, before its receive, and after it.
pub data Stage : Type 0 where
  waiting running ran done : Stage

module _ (E : Type 0) where
  -- What the task's `Run` will return is its `outcome`, where nil is `none`.
  pub record Task : Type 0 where
    pub name : String
    pub outcome : Option E

  -- The goroutine of one index, and `errs` at that index.
  pub record Worker : Type 0 where
    pub task : Task
    pub stage : Stage
    pub err : Option E

  -- The number of values in the channel is `held`.
  pub record Pool : Type 0 where
    pub workers : List Worker
    pub held : ℕ

module _ {E : Type 0} where
  abbrev pub spawn : Task E → Worker E
  spawn t = record { task = t; stage = waiting; err = none }

  unfoldable pub start : List (Task E) → Pool E
  start tasks = record { workers = map spawn tasks; held = 0 }

  abbrev pub errs : Pool E → List (Option E)
  errs s = map (λ w. w.err) s.workers

  -- A send blocks while the channel is full.
  pub data Move (budget : ℕ) (w : Worker E) (held : ℕ) : Worker E → ℕ → Type 0 where
    send :
        w.stage ≡ waiting
        → held < budget
        → Move budget w held (record w { stage = running }) (suc held)
    run :
        w.stage ≡ running → Move budget w held (record w { stage = ran; err = w.task.outcome }) held
    receive : w.stage ≡ ran → Move budget w held (record w { stage = done }) (held - 1)

  -- The scheduler picks any goroutine that can move.
  pub data Step (budget : ℕ) (s : Pool E) : Pool E → Type 0 where
    pick :
        (before : List (Worker E)) {w v : Worker E} {k : ℕ} (later : List (Worker E))
        → s.workers ≡ before ++ w ∷ later
        → Move budget w s.held v k
        → Step budget s (record { workers = before ++ v ∷ later; held = k })

  -- `n` steps.
  pub data Steps (budget : ℕ) (s : Pool E) : ℕ → Pool E → Type 0 where
    here : Steps budget s 0 s
    next : {n : ℕ} {t u : Pool E} → Steps budget s n t → Step budget t u → Steps budget s (suc n) u
