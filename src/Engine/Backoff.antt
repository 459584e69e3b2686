-- ===== src/Engine/Backoff.antt =====
-- The waits between the attempts at one job.
use makera_cnc_controller.Base.{ℕ, suc, ◌+◌, ◌-◌, ◌*◌, ◌^◌, ◌≤◌, ◌<◌, ◌≡◌, arith}
use Prim.Native.Nat.{min}
use native.Mathlib.Nat.{pow-suc}
use makera_cnc_controller.Engine.{Engine, backoff}

-- Whatever the count of attempts, and though the shift may overflow, the wait is at least 1 ns and at
-- most the engine's limit, for a positive limit.
pub backoff_bounds :
    (e : Engine) (attempts : ℕ)
    → 0 < e.max_backoff
    → (1 ≤ backoff e attempts) × (backoff e attempts ≤ e.max_backoff)
unfolding backoff
backoff_bounds e attempts h = ground arith

-- Where the product is positive and fits an int64, the wait is the base doubled once for each attempt after the first,
-- cut off at the limit.
pub backoff-min :
    (e : Engine) (attempts : ℕ)
    → 0 < e.base_backoff * 2 ^ (attempts - 1)
    → e.base_backoff * 2 ^ (attempts - 1) < 2 ^ 63
    → backoff e attempts ≡ min (e.base_backoff * 2 ^ (attempts - 1)) e.max_backoff
unfolding backoff
backoff-min e attempts pos fits = ground arith

double : (b n : ℕ) → b * 2 ^ (suc n) ≡ 2 * (b * 2 ^ n)
double b n = grind (arith, pow-suc)

-- Where the product is positive and below 2 ^ 62, so that its double still fits an int64, a job waits no
-- less after a further failure.
pub backoff_grows :
    (e : Engine) (n : ℕ)
    → 0 < e.base_backoff * 2 ^ n
    → e.base_backoff * 2 ^ n < 2 ^ 62
    → backoff e (n + 1) ≤ backoff e (n + 2)
backoff_grows e n pos fits =
    let f : e.base_backoff * 2 ^ (n + 2 - 1) ≡ 2 * (e.base_backoff * 2 ^ n) =
      let p : n + 2 - 1 ≡ suc n = omega arith in rw p (double e.base_backoff n) in
    let g : e.base_backoff * 2 ^ (n + 1 - 1) ≡ e.base_backoff * 2 ^ n =
      let p : n + 1 - 1 ≡ n = omega arith in rw p in
    omega (
      arith,
      backoff-min e (n + 1) (omega arith) (omega arith),
      backoff-min e (n + 2) (omega arith) (omega arith),
    )
