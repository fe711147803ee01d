-- ===== src/Tests/Breakers.antt =====
-- Examples of the theorems on the circuit breaker.
use traefik_cluster_ratelimi.Common.{ℕ, ◌+◌, ◌≡◌, refl, inr, List, [], ◌∷◌, arith}
use traefik_cluster_ratelimi.Common.Int.{pos, int_laws}
use traefik_cluster_ratelimi.Common.Bytes.{codes}
use traefik_cluster_ratelimi.Common.Result.{ok, err, panic}
use traefik_cluster_ratelimi.Redis.Breaker.{Breaker, new_script_with_breaker}
use traefik_cluster_ratelimi.Redis.Breaker.Trace.{Attempt, run_all}
use traefik_cluster_ratelimi.Redis.Breaker.Interleaved.{
  Step, enters, leaves, admissions, admissions-armed,
}
use traefik_cluster_ratelimi.Redis.Breaker.Threshold.{new_script-reaches, recovers}

-- Three errors; the next attempt is due after 100.
abbrev open_breaker : Breaker
open_breaker = record {
  error_count = pos 3;
  next_attempt = pos 100;
  breaker_threshold = pos 3;
  reattempt_period = pos 15;
}

abbrev failing : ℕ → Attempt ℕ
failing now = record { now = pos now; later = pos (now + 1); answer = err (codes "refused") }

abbrev succeeding : ℕ → Attempt ℕ
succeeding now = record { now = pos now; later = pos (now + 1); answer = ok 7 }

-- Two calls are under way when a third one fails.
abbrev overlapping : List (Step ℕ)
overlapping =
    enters (pos 103)
    ∷ leaves (pos 104) (err (codes "refused"))
    ∷ enters (pos 105)
    ∷ leaves (pos 106) panic
    ∷ enters (pos 15000000102)
    ∷ []

admissions-armed_example :
    admissions open_breaker (leaves (pos 102) (err (codes "refused")) ∷ overlapping) ≡ 0
admissions-armed_example =
    admissions-armed open_breaker (pos 102) (codes "refused") 3 15 overlapping refl (omega arith)
      (omega arith) (omega arith) refl (omega arith)
      (omega int_laws, (omega arith, (omega int_laws, (tt, (omega int_laws, tt)))))

new_script-reaches_example :
    (run_all
      (new_script_with_breaker (pos 0) (pos 1) (pos 15))
      0
      (failing 10 ∷ failing 20 ∷ failing 30 ∷ [])).2
    ≡ 3
new_script-reaches_example =
    new_script-reaches (pos 0) (pos 15) 1 (failing 10 ∷ failing 20 ∷ failing 30 ∷ [])
      (inr (omega arith)) (omega arith) (omega arith, (omega arith, (omega arith, tt)))
      ((codes "refused", refl), ((codes "refused", refl), ((codes "refused", refl), tt)))

recovers_example :
    ((run_all open_breaker 0 (succeeding 101 ∷ succeeding 50 ∷ [])).0 ≡ ok 7 ∷ ok 7 ∷ [])
    × ((run_all open_breaker 0 (succeeding 101 ∷ succeeding 50 ∷ [])).2 ≡ 2)
recovers_example =
    recovers open_breaker 0 (succeeding 101) (succeeding 50 ∷ []) (omega arith)
      ((7, refl), ((7, refl), tt))
