-- ===== src/Redis/Breaker/Open.antt =====
-- When the breaker lets a call through to the script, and when it refuses.
use traefik_cluster_ratelimi.Common.{
  ℕ, suc, ◌+◌, ◌*◌, ◌^◌, ◌≤◌, ◌<◌, ◌≡◌, refl, ap, ◌∙◌, inl, inr, true, false, List, [], ◌∷◌, map,
  if◌then◌else◌, arith, All, length, Bool-cases, le→leb,
}
use traefik_cluster_ratelimi.Common.Int.{
  ℤ, pos, pos_part, neg_part, ◌+ℤ◌, ◌≤ℤ◌, ◌<ℤ◌, leb_ℤ, int_laws, pos-*ℤ, eq_of_parts,
  wrap64_of_fits,
}
use traefik_cluster_ratelimi.Common.Bytes.{Bytes}
use traefik_cluster_ratelimi.Common.Result.{Result, ok, err, panic}
use traefik_cluster_ratelimi.Redis.Breaker.{
  Breaker, duration_seconds, attempts, after_error, after_run, breaker_opened, run,
}
use traefik_cluster_ratelimi.Redis.Breaker.Trace.{Attempt, count_script, run_attempt, run_all}

-- What an error does to the count, within the range of int64.
pub after_error_count :
    (b : Breaker) (later : ℤ) (n : ℕ)
    → b.error_count ≡ pos n
    → n + 1 < 2 ^ 63
    → after_error b later ≡ (
        if leb_ℤ b.breaker_threshold (pos (n + 1))
        then record b {
          error_count = pos (n + 1);
          next_attempt = later +ℤ duration_seconds b.reattempt_period;
        }
        else record b { error_count = pos (n + 1) })
unfolding after_error
after_error_count b later n e h =
    let sum : b.error_count +ℤ pos 1 ≡ pos (n + 1) =
      eq_of_parts _ _ (omega (int_laws, ap pos_part e, ap neg_part e)) in
    rw (sum, wrap64_of_fits (n + 1) h)

pub after_run-count {ℓ} :
    {V : Type ℓ} (b : Breaker) (later : ℤ) (r : Result V) (n : ℕ)
    → b.error_count ≡ pos n
    → n + 1 < 2 ^ 63
    → (m : ℕ) × ((after_run b later r).error_count ≡ pos m) × (m ≤ n + 1)
unfolding after_run
after_run-count b later (ok v) n e h = (0, refl, omega arith)
after_run-count b later panic n e h = (n, e, omega arith)
after_run-count b later (err x) n e h = (
  n + 1,
  rw (after_error_count b later n e h)
      (elim (Bool-cases (leb_ℤ b.breaker_threshold (pos (n + 1)))) [ inl t ↦ rw t | inr t ↦ rw t ]),
  omega arith,
)

pub attempts_of_low : (b : Breaker) (now : ℤ) → b.error_count <ℤ pos 3 → attempts b now ≡ true
unfolding attempts
attempts_of_low b now h = ground arith

pub attempts_of_late : (b : Breaker) (now : ℤ) → b.next_attempt <ℤ now → attempts b now ≡ true
unfolding attempts
attempts_of_late b now h = ground arith

pub attempts_of_open :
    (b : Breaker) (now : ℤ)
    → pos 3 ≤ℤ b.error_count
    → now ≤ℤ b.next_attempt
    → attempts b now ≡ false
unfolding attempts
attempts_of_open b now h k = ground arith

module _ {ℓ} {V : Type ℓ} where
  abbrev pub HasFailed : Attempt V → Type ℓ
  HasFailed t = (e : Bytes) × (t.answer ≡ err e)

  abbrev pub HasSucceeded : Attempt V → Type ℓ
  HasSucceeded t = (v : V) × (t.answer ≡ ok v)

  pub run_attempt_reached :
      (b : Breaker) (calls : ℕ) (t : Attempt V)
      → attempts b t.now ≡ true
      → run_attempt b calls t ≡ (t.answer, after_run b t.later t.answer, suc calls)
  unfolding run_attempt run count_script
  run_attempt_reached b calls t h = rw h

  pub run_attempt_refused :
      (b : Breaker) (calls : ℕ) (t : Attempt V)
      → attempts b t.now ≡ false
      → run_attempt b calls t ≡ (err breaker_opened, b, calls)
  unfolding run_attempt run count_script
  run_attempt_refused b calls t h = rw h

  -- A breaker that counts at least three errors refuses every call up to its next attempt.
  pub run_all_refused :
      (b : Breaker) (calls : ℕ) (ts : List (Attempt V))
      → pos 3 ≤ℤ b.error_count
      → All (λ t. t.now ≤ℤ b.next_attempt) ts
      → run_all b calls ts ≡ (map (λ t. err breaker_opened) ts, b, calls)
  unfolding run_all
  run_all_refused b calls [] h _ = refl
  run_all_refused b calls (t ∷ ts) h (early, more) =
      let shut : attempts b t.now ≡ false = attempts_of_open b t.now h early in
      rw (run_attempt_refused b calls t shut, run_all_refused b calls ts h more)

  -- A breaker that counts few errors lets every call through.
  pub run_all-low_count :
      (b : Breaker) (calls n : ℕ) (ts : List (Attempt V))
      → b.error_count ≡ pos n
      → n + length ts ≤ 3
      → (run_all b calls ts).2 ≡ calls + length ts
  unfolding run_all
  run_all-low_count b calls n [] e h = omega arith
  run_all-low_count b calls n (t ∷ ts) e h =
      let through : attempts b t.now ≡ true = attempts_of_low b t.now (rw e (omega arith)) in
      rw (run_attempt_reached b calls t through) (
        let (m, count, le) = after_run-count b t.later t.answer n e (omega arith) in
        run_all-low_count (after_run b t.later t.answer) (suc calls) m ts count (omega arith)
        ∙ omega arith)

pub duration_seconds_of_fits :
    (seconds : ℕ)
    → seconds * 1000000000 < 2 ^ 63
    → duration_seconds (pos seconds) ≡ pos (seconds * 1000000000)
unfolding duration_seconds
duration_seconds_of_fits seconds h =
    rw (pos-*ℤ seconds 1000000000) (wrap64_of_fits (seconds * 1000000000) h)

pub after_run-armed {ℓ} :
    {V : Type ℓ} (b : Breaker) (later : ℤ) (r : Result V) (n : ℕ)
    → b.error_count ≡ pos n
    → n + 1 < 2 ^ 63
    → b.breaker_threshold ≤ℤ pos (n + 1)
    → (x : Bytes) × (r ≡ err x)
    → ((after_run b later r).error_count ≡ pos (n + 1))
      × ((after_run b later r).next_attempt ≡ later +ℤ duration_seconds b.reattempt_period)
unfolding after_run
after_run-armed b later r n e h reached (x, failed) =
    let armed : leb_ℤ b.breaker_threshold (pos (n + 1)) ≡ true = le→leb _ _ reached in
    rw (failed, after_run) (rw (after_error_count b later n e h, armed) (refl, refl))

-- A call that reaches the script, is answered by an error and brings the count to at least three
-- and to the threshold, arms the breaker: every further call up to the reattempt period after the
-- error is refused with "breaker opened", without the script being reached, and changes nothing.
-- This holds for the probe of an open breaker as well, so it re-arms. The period is at least zero
-- and fits int64 in nanoseconds, and so does the count.
rearm_refuses {ℓ} :
    {V : Type ℓ} (b : Breaker) (calls n period : ℕ) (t : Attempt V) (ts : List (Attempt V))
    → b.error_count ≡ pos n
    → 2 ≤ n
    → n + 1 < 2 ^ 63
    → b.breaker_threshold ≤ℤ pos (n + 1)
    → b.reattempt_period ≡ pos period
    → period * 1000000000 < 2 ^ 63
    → attempts b t.now ≡ true
    → HasFailed t
    → All (λ u. u.now ≤ℤ t.later +ℤ pos (period * 1000000000)) ts
    → run_all b calls (t ∷ ts)
      ≡ (t.answer ∷ map (λ u. err breaker_opened) ts, after_run b t.later t.answer, suc calls)
unfolding run_all
rearm_refuses b calls n period t ts e two fits reached p short through failed soon =
    let (count, next) = after_run-armed b t.later t.answer n e fits reached failed in
    rw (run_attempt_reached b calls t through) (
      rw (
        run_all_refused (after_run b t.later t.answer) (suc calls) ts (rw count (omega arith))
          (rw (next, p, duration_seconds_of_fits period short) soon)))
