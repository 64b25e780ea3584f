-- ===== src/Concurrency/Once.antt =====
-- concurrency.ts: every task runs once, and not more of them at a time than allowed.
use pathmemos.Base.{
  ℕ, zero, suc, ◌+◌, ◌≡◌, refl, subst, ◌≤◌, ◌<◌, true, List, [], ◌∷◌, ltb, ◌==◌, ◌&&◌, arith,
  if◌then◌else◌, length, Bool-cases, inl, inr,
}
use pathmemos.Concurrency.{Pool, worker_count, mem, remove, pump, begin, settle, pumps}

abbrev count : ℕ → List ℕ → ℕ
count i [] = 0
count i (j ∷ js) = (if i == j then 1 else 0) + count i js

count-remove :
    (i j : ℕ) (js : List ℕ)
    → mem j js ≡ true
    → (if i == j then 1 else 0) + count i (remove j js) ≡ count i js
count-remove i j [] h = cc
count-remove i j (k ∷ js) h = ground (arith, count-remove i j js)

length-remove : (j : ℕ) (js : List ℕ) → mem j js ≡ true → suc (length (remove j js)) ≡ length js
length-remove j [] h = cc
length-remove j (k ∷ js) h = ground (arith, length-remove j js)

module _ {Outcome : Type 0} where
  abbrev pub settled : ℕ → List (ℕ × Outcome) → ℕ
  settled i [] = 0
  settled i ((j, o) ∷ results) = (if i == j then 1 else 0) + settled i results

  -- A started task is awaited or has its one result, and no other task is; while there are tasks
  -- left, all workers are at work.
  record IsFair (tasks workers : ℕ) (p : Pool Outcome) : Type 0 where
    same : p.tasks ≡ tasks
    once :
        (i : ℕ)
        → count i p.awaited + settled i p.results
          ≡ (if ltb i p.next_index && ltb i p.tasks then 1 else 0)
    bound : length p.awaited ≤ workers
    busy : p.next_index < p.tasks → length p.awaited ≡ workers

  -- One more worker goes to work, or finds no task.
  pump-IsFair :
      (tasks workers : ℕ) (p : Pool Outcome)
      → IsFair tasks workers p
      → IsFair tasks (suc workers) (pump p)
  unfolding pump
  pump-IsFair tasks workers p h = record {
    same = ground (arith, h.same);
    once = λ i. ground (arith, h.once i);
    bound = ground (arith, h.bound);
    busy = λ left. ground (arith, h.busy, left);
  }

  pumps-IsFair :
      (n tasks workers : ℕ) (p : Pool Outcome)
      → IsFair tasks workers p
      → IsFair tasks (n + workers) (pumps n p)
  unfolding pumps
  pumps-IsFair zero tasks workers p h = subst (λ (w : ℕ). IsFair tasks w p) (omega arith) h
  pumps-IsFair (suc n) tasks workers p h =
      subst (λ (w : ℕ). IsFair tasks w (pumps n (pump p))) (omega arith)
        (pumps-IsFair n tasks (suc workers) (pump p) (pump-IsFair tasks workers p h))

  begin-IsFair :
      (concurrency tasks : ℕ)
      → IsFair tasks (worker_count concurrency tasks) (begin concurrency tasks)
  unfolding begin
  begin-IsFair concurrency tasks =
      let p : Pool Outcome = record { tasks = tasks; next_index = 0; awaited = []; results = [] } in
      let w : ℕ = worker_count concurrency tasks in
      subst (λ (n : ℕ). IsFair tasks n (pumps w p)) (omega arith)
        (pumps-IsFair w tasks 0 p
          (record { same = refl; once = λ i. ground arith; bound = omega arith; busy = λ _. refl }))

  settle-IsFair :
      (tasks workers : ℕ) (i : ℕ) (o : Outcome) (p : Pool Outcome)
      → 1 ≤ workers
      → IsFair tasks workers p
      → IsFair tasks workers (settle i o p)
  unfolding settle
  settle-IsFair tasks zero i o p positive h = absurd (omega arith)
  settle-IsFair tasks (suc w) i o p positive h = elim (Bool-cases (mem i p.awaited)) [
    | inr e ↦ rw e h
    | inl e ↦
        let q : Pool Outcome = record p {
          awaited = remove i p.awaited;
          results = (i, o) ∷ p.results;
        } in
        rw e (
          pump-IsFair tasks w q (record {
            same = h.same;
            once = λ j. ground (arith, h.once j, count-remove j i p.awaited e);
            bound = ground (arith, h.bound, length-remove i p.awaited e);
            busy = λ left. ground (arith, h.busy left, length-remove i p.awaited e);
          }))
  ]

  abbrev pub run_pool : Pool Outcome → List (ℕ × Outcome) → Pool Outcome
  run_pool p [] = p
  run_pool p ((i, o) ∷ answers) = run_pool (settle i o p) answers

  run_pool-IsFair :
      (tasks workers : ℕ) (answers : List (ℕ × Outcome)) (p : Pool Outcome)
      → 1 ≤ workers
      → IsFair tasks workers p
      → IsFair tasks workers (run_pool p answers)
  run_pool-IsFair tasks workers [] p positive h = h
  run_pool-IsFair tasks workers ((i, o) ∷ answers) p positive h =
      run_pool-IsFair tasks workers answers (settle i o p) positive
        (settle-IsFair tasks workers i o p positive h)

  -- In whatever order tasks settle, at most `worker_count` of them are awaited at a time, and when
  -- none is awaited any more each task has exactly one result, and nothing else has one.
  pub run_with_concurrency_once :
      (concurrency tasks : ℕ) (answers : List (ℕ × Outcome))
      → let p = run_pool (begin concurrency tasks) answers in
        (length p.awaited ≤ worker_count concurrency tasks)
        × (p.awaited ≡ [] → (i : ℕ) → settled i p.results ≡ (if ltb i tasks then 1 else 0))
  unfolding worker_count
  run_with_concurrency_once concurrency tasks answers =
      let p : Pool Outcome = run_pool (begin concurrency tasks) answers in
      let fair : IsFair tasks (worker_count concurrency tasks) p =
        run_pool-IsFair tasks (worker_count concurrency tasks) answers (begin concurrency tasks)
          (omega arith) (begin-IsFair concurrency tasks) in
      (fair.bound, λ e i. ground (arith, fair.same, fair.once i, fair.busy, e))
