-- ===== src/AutoRecord/Reports/Backoff.antt =====
-- autoRecord.ts: how long failed reports keep a report back.
use pathmemos.Base.{ℕ, suc, ◌-◌, ◌*◌, ◌≤◌, ◌≡◌, arith}
use pathmemos.AutoRecord.State.{State}
use pathmemos.AutoRecord.Reports.{backoff_ms}

-- One more failed report in a row makes the backoff no shorter, and at most twice as long.
pub backoff_ms-suc :
    (n : ℕ)
    → (backoff_ms (suc n) ≤ backoff_ms (suc (suc n)))
      × (backoff_ms (suc (suc n)) ≤ 2 * backoff_ms (suc n))
unfolding backoff_ms
backoff_ms-suc n =
    let now : suc n - 1 ≡ n = omega arith in
    let next : suc (suc n) - 1 ≡ suc n = omega arith in simp (now, next) (ground arith)
