-- ===== src/Fanout/Bound.antt =====
-- internal/collector/fanout.go: the budget, kept by every interleaving.
use lynceus.Prelude.{ℕ, ◌+◌, ◌≤◌, ◌≡◌, refl, ap, ◌∙◌, List, [], ◌∷◌, ◌++◌, map, arith}
use lynceus.Fanout.{
  Stage, waiting, running, ran, done, Task, Worker, Pool, spawn, start, Move, send, run, receive,
  Step, pick, Steps, here, next,
}

abbrev pub slot : Stage → ℕ
slot waiting = 0
slot running = 1
slot ran = 1
slot done = 0

abbrev pub busy : Stage → ℕ
busy running = 1
busy _ = 0

-- Steps still to take.
abbrev pub left : Stage → ℕ
left waiting = 3
left running = 2
left ran = 1
left done = 0

module _ {E : Type 0} where
  abbrev pub total : (Stage → ℕ) → List (Worker E) → ℕ
  total g [] = 0
  total g (w ∷ ws) = g w.stage + total g ws

  pub total-append :
      (g : Stage → ℕ) (xs ys : List (Worker E)) → total g (xs ++ ys) ≡ total g xs + total g ys
  total-append g [] ys = omega arith
  total-append g (x ∷ xs) ys = omega (arith, total-append g xs ys)

  pub total-pick :
      (g : Stage → ℕ) (xs : List (Worker E)) (w : Worker E) (ys : List (Worker E))
      → total g (xs ++ w ∷ ys) ≡ g w.stage + (total g xs + total g ys)
  total-pick g xs w ys = omega (arith, total-append g xs (w ∷ ys))

  total-start : (tasks : List (Task E)) → total slot (map spawn tasks) ≡ 0
  total-start [] = refl
  total-start (t ∷ ts) = omega (arith, total-start ts)

  total-busy : (ws : List (Worker E)) → total busy ws ≤ total slot ws
  total-busy [] = omega arith
  total-busy (w ∷ ws) = let r = total-busy ws in let h = busy_slot w.stage in omega arith
    where
      busy_slot : (g : Stage) → busy g ≤ slot g
      busy_slot waiting = omega arith
      busy_slot running = omega arith
      busy_slot ran = omega arith
      busy_slot done = omega arith

  -- The channel holds a value for every goroutine between its send and its receive.
  pub record Inv (budget : ℕ) (s : Pool E) : Type 0 where
    pub counted : s.held ≡ total slot s.workers
    pub bounded : s.held ≤ budget

  Step-Inv : {budget : ℕ} {s u : Pool E} → Inv budget s → Step budget s u → Inv budget u
  Step-Inv {budget} {s = s} i (pick before {w} later e m) = go m
    where
      before_move : s.held ≡ slot w.stage + (total slot before + total slot later)
      before_move = i.counted ∙ ap (total slot) e ∙ total-pick slot before w later

      go :
          {v : Worker E} {k : ℕ}
          → Move budget w s.held v k
          → Inv budget (record { workers = before ++ v ∷ later; held = k })
      go (send q l) = record {
        counted = omega (
          arith,
          before_move,
          ap slot q,
          total-pick slot before (record w { stage = running }) later,
        );
        bounded = omega arith;
      }
      go (run q) = record {
        counted = omega (
          arith,
          before_move,
          ap slot q,
          total-pick slot before (record w { stage = ran; err = w.task.outcome }) later,
        );
        bounded = i.bounded;
      }
      go (receive q) = record {
        counted = omega (
          arith,
          before_move,
          ap slot q,
          total-pick slot before (record w { stage = done }) later,
        );
        bounded = omega (arith, i.bounded);
      }

  pub Steps-Inv :
      (tasks : List (Task E)) {budget n : ℕ} {s : Pool E}
      → Steps budget (start tasks) n s
      → Inv budget s
  unfolding start
  Steps-Inv tasks here = record {
    counted = omega (arith, total-start tasks);
    bounded = omega arith;
  }
  Steps-Inv tasks (next r st) = Step-Inv (Steps-Inv tasks r) st

  -- In every interleaving, never more tasks than the budget are running at once.
  pub Steps-IsBounded :
      (tasks : List (Task E)) {budget n : ℕ} {s : Pool E}
      → Steps budget (start tasks) n s
      → total busy s.workers ≤ budget
  Steps-IsBounded tasks {s = s} r =
      let i = Steps-Inv tasks r in omega (arith, total-busy s.workers, i.counted, i.bounded)
