-- ===== src/Concurrency.antt =====
-- frontend/miniapp/miniprogram/utils/concurrency.ts: `runWithConcurrency`. A task is its index; its
-- outcome is a value or what it throws, and comes at any time after it was started.
pub mod Once
mod Tests
use pathmemos.Base.{
  ℕ, zero, suc, ◌+◌, Bool, true, false, List, [], ◌∷◌, ltb, ◌==◌, max, min, if◌then◌else◌,
}

-- `tasks.length`, `nextIndex`, the tasks that a worker awaits, and `results` as far as it is filled.
pub record Pool (Outcome : Type 0) : Type 0 where
  pub tasks : ℕ
  pub next_index : ℕ
  pub awaited : List ℕ
  pub results : List (ℕ × Outcome)

unfoldable pub worker_count : (concurrency tasks : ℕ) → ℕ
worker_count concurrency tasks = max 1 (min concurrency tasks)

abbrev pub mem : ℕ → List ℕ → Bool
mem i [] = false
mem i (j ∷ js) = if i == j then true else mem i js

abbrev pub remove : ℕ → List ℕ → List ℕ
remove i [] = []
remove i (j ∷ js) = if i == j then js else j ∷ remove i js

module _ {Outcome : Type 0} where
  -- `_pump` to its `await`; a worker that finds no task ends. `nextIndex++` comes first.
  unfoldable pub pump : Pool Outcome → Pool Outcome
  pump p =
      let p' = record p { next_index = suc p.next_index } in
      if ltb p.next_index p.tasks then record p' { awaited = p.next_index ∷ p.awaited } else p'

  pumps : ℕ → Pool Outcome → Pool Outcome
  unfolding pump
  pumps zero p = p
  pumps (suc n) p = pumps n (pump p)

  -- The call to its `Promise.all`.
  unfoldable pub begin : (concurrency tasks : ℕ) → Pool Outcome
  unfolding pumps
  begin concurrency tasks =
      pumps (worker_count concurrency tasks)
        (record { tasks = tasks; next_index = 0; awaited = []; results = [] })

  -- An awaited task settles, and its worker goes on.
  unfoldable pub settle : ℕ → Outcome → Pool Outcome → Pool Outcome
  settle i o p =
      if mem i p.awaited
      then pump (record p { awaited = remove i p.awaited; results = (i, o) ∷ p.results })
      else p
