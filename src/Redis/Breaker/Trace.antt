-- ===== src/Redis/Breaker/Trace.antt =====
-- Sequences of calls of a breaker. The wrapped script answers each call with what the environment
-- has chosen for it, and counts how often it is reached.
use traefik_cluster_ratelimi.Common.{ℕ, suc, List, [], ◌∷◌}
use traefik_cluster_ratelimi.Common.Int.{ℤ}
use traefik_cluster_ratelimi.Common.Result.{Result}
use traefik_cluster_ratelimi.Redis.Breaker.{Breaker, run}

-- A call: the two readings of the clock, and what the script answers if it is reached.
pub record Attempt {ℓ} (V : Type ℓ) : Type ℓ where
  pub now : ℤ
  pub later : ℤ
  pub answer : Result V

module _ {ℓ} {V : Type ℓ} where
  unfoldable pub count_script : Result V → ℕ → Result V × ℕ
  count_script answer calls = (answer, suc calls)

  unfoldable pub run_attempt : Breaker → ℕ → Attempt V → Result V × Breaker × ℕ
  run_attempt b calls t = run (count_script t.answer) b calls t.now t.later

  -- The results, the breaker left behind, and how often the script was reached.
  unfoldable pub run_all : Breaker → ℕ → List (Attempt V) → List (Result V) × Breaker × ℕ
  run_all b calls [] = ([], b, calls)
  run_all b calls (t ∷ ts) =
      let (res, b', calls') = run_attempt b calls t in
      let (results, last, total) = run_all b' calls' ts in (res ∷ results, last, total)
