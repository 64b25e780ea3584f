-- ===== src/Concurrency/Tests.antt =====
-- A run of concurrency.ts, and an instance of its theorem.
use pathmemos.Base.{ℕ, ◌≡◌, refl, ◌≤◌, Bool, true, false, List, [], ◌∷◌, ltb, if◌then◌else◌, length}
use pathmemos.Concurrency.{Pool, worker_count, pump, begin, settle}
use pathmemos.Concurrency.Once.{settled, run_pool, run_with_concurrency_once}

runs : Unit {0}
unfolding worker_count pump begin settle
runs = tt

abbrev started : Pool Bool
started = begin 2 3

-- Three tasks, two at a time; the second one settles first, and fails.
abbrev answers : List (ℕ × Bool)
answers = (1, false) ∷ (0, true) ∷ (2, true) ∷ []

pool_tests :
    (started.awaited ≡ 1 ∷ 0 ∷ [])
    × ((settle 1 false started).awaited ≡ 2 ∷ 0 ∷ [])
    × ((run_pool started answers).awaited ≡ [])
unfolding runs
pool_tests = (refl, refl, refl)

run_with_concurrency_once_example :
    (length (run_pool started answers).awaited ≤ worker_count 2 3)
    × ((run_pool started answers).awaited ≡ []
        → (i : ℕ) → settled i (run_pool started answers).results ≡ (if ltb i 3 then 1 else 0))
run_with_concurrency_once_example = run_with_concurrency_once 2 3 answers
