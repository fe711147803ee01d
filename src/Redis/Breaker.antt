-- ===== src/Redis/Breaker.antt =====
-- internal/redis/script_breaker.go. Instants are integers, in nanoseconds; each call reads the
-- clock on entry (`now`) and, where it re-arms the breaker, again when the script has returned
-- (`later`).
pub mod Trace
pub mod Open
pub mod Threshold
pub mod Interleaved
use traefik_cluster_ratelimi.Common.{ℕ, Bool, ◌||◌, if◌then◌else◌}
use traefik_cluster_ratelimi.Common.Int.{ℤ, pos, ◌+ℤ◌, ◌*ℤ◌, ltb_ℤ, leb_ℤ, wrap64}
use traefik_cluster_ratelimi.Common.Bytes.{Bytes, codes}
use traefik_cluster_ratelimi.Common.Result.{Result, ok, err, panic}

-- ScriptWithBreaker; the wrapped script is an argument of `run`.
pub record Breaker : Type 0 where
  pub error_count : ℤ
  pub next_attempt : ℤ
  pub breaker_threshold : ℤ
  pub reattempt_period : ℤ

-- time.Duration(seconds) * time.Second, an int64
unfoldable pub duration_seconds : ℤ → ℤ
duration_seconds seconds = wrap64 (seconds *ℤ pos 1000000000)

unfoldable pub new_script_with_breaker : ℤ → ℤ → ℤ → Breaker
new_script_with_breaker now threshold period = record {
  error_count = pos 0;
  next_attempt = now;
  breaker_threshold = threshold;
  reattempt_period = period;
}

-- swb.errorCount < 3 || time.Now().After(swb.nextAttempt)
unfoldable pub attempts : Breaker → ℤ → Bool
attempts b now = ltb_ℤ b.error_count (pos 3) || ltb_ℤ b.next_attempt now

-- The bookkeeping after the script has returned.
unfoldable pub after_error : Breaker → ℤ → Breaker
after_error b later =
    let count = wrap64 (b.error_count +ℤ pos 1) in
    if leb_ℤ b.breaker_threshold count
    then record b {
      error_count = count;
      next_attempt = later +ℤ duration_seconds b.reattempt_period;
    }
    else record b { error_count = count }

unfoldable pub after_run {ℓ} : {V : Type ℓ} → Breaker → ℤ → Result V → Breaker
after_run b later (ok v) = record b { error_count = pos 0 }
after_run b later (err e) = after_error b later
after_run b later panic = b

abbrev pub breaker_opened : Bytes
breaker_opened = codes "breaker opened"

-- A panic of the script leaves the call at once.
-- `script` runs the wrapped script on its own state, such as the client and the server behind it.
module _ {ℓ κ} {S : Type ℓ} {V : Type κ} (script : S → Result V × S) where
  unfoldable pub run : Breaker → S → ℤ → ℤ → Result V × Breaker × S
  run b s now later =
      if attempts b now
      then (let (res, s') = script s in (res, after_run b later res, s'))
      else (err breaker_opened, b, s)
