-- ===== src/Redis/Breaker/Threshold.antt =====
-- How many errors it takes until the breaker refuses a call, and how it recovers.
use traefik_cluster_ratelimi.Common.{
  ℕ, suc, ◌+◌, ◌^◌, ◌≤◌, ◌<◌, ◌≡◌, refl, ap, ◌∙◌, ◌⊎◌, inl, inr, true, List, [], ◌∷◌, map, arith,
  All, length, Bool-cases, leb→le,
}
use traefik_cluster_ratelimi.Common.Int.{ℤ, pos, pos_part, neg_part, ◌<ℤ◌, leb_ℤ}
use traefik_cluster_ratelimi.Redis.Breaker.{
  Breaker, new_script_with_breaker, attempts, after_error, after_run,
}
use traefik_cluster_ratelimi.Redis.Breaker.Trace.{Attempt, run_all}
use traefik_cluster_ratelimi.Redis.Breaker.Open.{
  HasFailed, HasSucceeded, run_attempt_reached, run_all-low_count, after_error_count,
  attempts_of_low, attempts_of_late,
}

-- The next attempt is as at the start, before any of the calls, until the count reaches the threshold.
abbrev IsUnarmed : Breaker → ℤ → ℕ → ℕ → Type 0
IsUnarmed b start threshold n =
    (b.error_count ≡ pos n)
    × (b.breaker_threshold ≡ pos threshold)
    × (n < threshold → b.next_attempt ≡ start)

after_error-IsUnarmed :
    (b : Breaker) (later start : ℤ) (threshold n : ℕ)
    → n + 1 < 2 ^ 63
    → IsUnarmed b start threshold n
    → IsUnarmed (after_error b later) start threshold (n + 1)
after_error-IsUnarmed b later start threshold n fits (count, same, unarmed) =
    rw (after_error_count b later n count fits)
      (elim (Bool-cases (leb_ℤ b.breaker_threshold (pos (n + 1)))) [
        | inl reached ↦ rw reached (
          refl,
          same,
          λ below. absurd (omega (arith, leb→le _ _ reached, ap pos_part same, ap neg_part same)),
        )
        | inr not_yet ↦ rw not_yet (refl, same, λ below. unarmed (omega arith))
      ])

module _ {ℓ} {V : Type ℓ} (start : ℤ) (threshold : ℕ) where
  after_run-IsUnarmed :
      (b : Breaker) (later : ℤ) (t : Attempt V) (n : ℕ)
      → n + 1 < 2 ^ 63
      → HasFailed t
      → IsUnarmed b start threshold n
      → IsUnarmed (after_run b later t.answer) start threshold (n + 1)
  unfolding after_run
  after_run-IsUnarmed b later t n fits (x, failed) u =
      rw (failed, after_run) (after_error-IsUnarmed b later start threshold n fits u)

  run_all-unarmed :
      (b : Breaker) (calls n : ℕ) (ts : List (Attempt V))
      → IsUnarmed b start threshold n
      → n + length ts ≤ threshold
      → n + length ts < 2 ^ 63
      → All (λ t. start <ℤ t.now) ts
      → All HasFailed ts
      → (run_all b calls ts).2 ≡ calls + length ts
  unfolding run_all
  run_all-unarmed b calls n [] u k fits _ _ = omega arith
  run_all-unarmed b calls n (t ∷ ts) u k fits (late, after) (fail, failed) =
      let through : attempts b t.now ≡ true =
        attempts_of_late b t.now (rw (u.2 (omega arith)) late) in
      rw (run_attempt_reached b calls t through) (
        run_all-unarmed (after_run b t.later t.answer) (suc calls) (n + 1) ts
          (after_run-IsUnarmed b t.later t n (omega arith) fail u) (omega arith) (omega arith) after
          failed
        ∙ omega arith)

-- While Redis fails, a new breaker lets the first calls through, as many as the threshold says, but
-- never fewer than three: whatever the configured threshold, that many failing calls after the
-- creation all reach the script. The number of calls fits int64.
pub new_script-reaches {ℓ} :
    {V : Type ℓ} (start period : ℤ) (threshold : ℕ) (ts : List (Attempt V))
    → (length ts ≤ threshold) ⊎ (length ts ≤ 3)
    → length ts < 2 ^ 63
    → All (λ t. start <ℤ t.now) ts
    → All HasFailed ts
    → (run_all (new_script_with_breaker start (pos threshold) period) 0 ts).2 ≡ length ts
unfolding new_script_with_breaker
new_script-reaches start period threshold ts (inl few) fits after failed =
    run_all-unarmed start threshold _ 0 0 ts (refl, refl, λ _. refl) (omega arith) (omega arith)
      after failed
    ∙ omega arith
new_script-reaches start period threshold ts (inr few) fits after failed =
    run_all-low_count _ 0 0 ts refl (omega arith) ∙ omega arith

-- One success clears the count: the three calls after it reach the script, whatever their times and
-- answers and however many errors there were before.
success_resets {ℓ} :
    {V : Type ℓ} (b : Breaker) (calls : ℕ) (t : Attempt V) (ts : List (Attempt V))
    → attempts b t.now ≡ true
    → HasSucceeded t
    → length ts ≤ 3
    → (run_all b calls (t ∷ ts)).2 ≡ calls + 1 + length ts
unfolding run_all
success_resets b calls t ts through (v, won) few = rw (run_attempt_reached b calls t through) (
    run_all-low_count (after_run b t.later t.answer) (suc calls) 0 ts
      (rw won (unfold after_run in refl)) (omega arith)
    ∙ omega arith)

run_all-healthy {ℓ} :
    {V : Type ℓ} (b : Breaker) (calls : ℕ) (ts : List (Attempt V))
    → b.error_count ≡ pos 0
    → All HasSucceeded ts
    → ((run_all b calls ts).0 ≡ map (λ t. t.answer) ts)
      × ((run_all b calls ts).2 ≡ calls + length ts)
unfolding run_all after_run
run_all-healthy b calls [] e _ = (refl, omega arith)
run_all-healthy b calls (t ∷ ts) e ((v, won), more) =
    let through : attempts b t.now ≡ true = attempts_of_low b t.now (rw e (omega arith)) in
    let healed : (after_run b t.later t.answer).error_count ≡ pos 0 = rw (won, after_run) refl in
    let (results, total) =
      run_all-healthy (after_run b t.later t.answer) (suc calls) ts healed more in
    rw (run_attempt_reached b calls t through)
      (ap (λ rs. t.answer ∷ rs) results, total ∙ omega arith)

-- Recovery: once the script answers without error again, the first call after the next attempt is
-- due reaches it, and so does every later one, at whatever time; all get the script's answers.
pub recovers {ℓ} :
    {V : Type ℓ} (b : Breaker) (calls : ℕ) (t : Attempt V) (ts : List (Attempt V))
    → b.next_attempt <ℤ t.now
    → All HasSucceeded (t ∷ ts)
    → ((run_all b calls (t ∷ ts)).0 ≡ map (λ u. u.answer) (t ∷ ts))
      × ((run_all b calls (t ∷ ts)).2 ≡ calls + length (t ∷ ts))
unfolding run_all after_run
recovers b calls t ts due ((v, won), more) =
    let healed : (after_run b t.later t.answer).error_count ≡ pos 0 = rw (won, after_run) refl in
    let (results, total) =
      run_all-healthy (after_run b t.later t.answer) (suc calls) ts healed more in
    rw (run_attempt_reached b calls t (attempts_of_late b t.now due))
      (ap (λ rs. t.answer ∷ rs) results, total ∙ omega arith)
