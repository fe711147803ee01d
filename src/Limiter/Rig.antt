-- ===== src/Limiter/Rig.antt =====
-- rate.go and internal/redis put together: the limiter's scripts are run by the client, each behind
-- its breaker. Reading the clock is the parameter `now`.
use traefik_cluster_ratelimi.Common.{
  ◌≡◌, refl, ap, ℕ, ◌<◌, true, false, List, [], ◌∷◌, ◌++◌, length, arith,
}
use traefik_cluster_ratelimi.Common.Int.{ℤ, pos}
use traefik_cluster_ratelimi.Common.Bytes.{Bytes, codes, is_empty}
use traefik_cluster_ratelimi.Common.Decimal.{format_int}
use traefik_cluster_ratelimi.Common.Result.{Result, ok, err}
use traefik_cluster_ratelimi.Common.State.{M}
use traefik_cluster_ratelimi.Redis.Value.{Answer}
use traefik_cluster_ratelimi.Redis.Resp.{command}
use traefik_cluster_ratelimi.Redis.Resp.Protocol.{scalar, many, whole, blob, HasNoLf, FitsInt64}
use traefik_cluster_ratelimi.Redis.Network.{Network, World, sent}
use traefik_cluster_ratelimi.Redis.Client.{Client}
use traefik_cluster_ratelimi.Redis.Client.Pool.{del}
use traefik_cluster_ratelimi.Redis.Client.Answered.{IsAnswered, returned, del-answered}
use traefik_cluster_ratelimi.Redis.Script.{Script, run}
use traefik_cluster_ratelimi.Redis.Script.Cached.{eval_command, run-known}
use traefik_cluster_ratelimi.Redis.Breaker
use traefik_cluster_ratelimi.Redis.Breaker.{Breaker, attempts, after_run}
use traefik_cluster_ratelimi.Limiter.{
  Limit, Floats, Scripts, dur, parse_answer, args_of, allow_n, reset,
}

pub record Rig (W : Type 0) : Type 0 where
  pub allow_n_breaker : Breaker
  pub allow_at_most_breaker : Breaker
  pub world : World W

module _ {W : Type 0} (net : Network W) (now : W → ℤ) (format_seconds : ℤ → Bytes) (c : Client)
    (allow_n_script allow_at_most_script : Script) where
  -- A script behind its breaker, which reads the clock again when the script has returned.
  abbrev guarded : Breaker → M (World W) Answer → World W → Result Answer × Breaker × World W
  guarded b script s = Breaker.run script b s (now s.env) (now (script s).1.env)

  unfoldable pub rigged : Scripts (Rig W)
  rigged = record {
    run_allow_n = λ keys args rig.
        let (r, b, s) =
          guarded rig.allow_n_breaker (run net format_seconds c allow_n_script keys args)
            rig.world in
        (r, record rig { allow_n_breaker = b; world = s });
    run_allow_at_most = λ keys args rig.
        let (r, b, s) =
          guarded rig.allow_at_most_breaker
            (run net format_seconds c allow_at_most_script keys args) rig.world in
        (r, record rig { allow_at_most_breaker = b; world = s });
    run_del = λ key rig. let (r, s) = del net c key rig.world in (r, record rig { world = s });
  }

  -- Reset of a key on an idle connection of a pool that is not closed, when the server answers with
  -- the number of keys that it removed, an int64: Reset returns that number as an error.
  pub reset-rigged :
      (f : Floats) (redis_prefix key : Bytes) (n : ℤ) (conn : ℕ) (rest : List ℕ) (rig : Rig W)
      (env' : W)
      → rig.world.idle ≡ conn ∷ rest
      → rig.world.shut ≡ false
      → length rest < c.pool_size
      → FitsInt64 n
      → IsAnswered net conn c.connection_timeout
          (codes "DEL" ∷ (redis_prefix ++ key) ∷ [])
          (scalar (whole n))
          rig.world.env
          env'
      → (reset f rigged redis_prefix key rig).0
        ≡ err (codes "DEL result error: %!s(int64=" ++ (format_int n ++ codes ")"))
  unfolding rigged reset
  reset-rigged f redis_prefix key n conn rest rig env' first running short fits answered =
      ap (λ (out : Result (Unit {0}) × World W). out.0)
        (del-answered net c (redis_prefix ++ key) n conn rest rig.world env' first running short
          fits answered)

  -- AllowN with a breaker that lets the call through, a script whose sha is known, an idle connection
  -- of a pool that is not closed, and the four values of the script as the server's answer: AllowN
  -- returns these values as its verdict, one command is sent, and the breaker counts no errors.
  pub allow_n-rigged :
      (f : Floats) (redis_prefix key : Bytes) (limit : Limit) (n : ℤ) (conn : ℕ) (rest : List ℕ)
      (rig : Rig W) (env' : W) (allowed remaining : ℤ) (retry_text reset_text : Bytes)
      (retry_after reset_after : f.Float)
      → let s = rig.world in
        let args = args_of f rigged redis_prefix limit n in
        let cmd =
          eval_command format_seconds
            ((redis_prefix ++ key) ∷ [])
            args
            (s.shas allow_n_script.handle) in
        attempts rig.allow_n_breaker (now s.env) ≡ true
        → is_empty (s.shas allow_n_script.handle) ≡ false
        → s.idle ≡ conn ∷ rest
        → s.shut ≡ false
        → length rest < c.pool_size
        → FitsInt64 allowed
        → FitsInt64 remaining
        → HasNoLf retry_text
        → HasNoLf reset_text
        → f.parse_float retry_text ≡ ok retry_after
        → f.parse_float reset_text ≡ ok reset_after
        → IsAnswered net conn c.connection_timeout cmd
            (many (whole allowed ∷ whole remaining ∷ blob retry_text ∷ blob reset_text ∷ []))
            s.env
            env'
        → allow_n f rigged redis_prefix key limit n rig ≡ (
          ok (record {
            limit = limit;
            allowed = allowed;
            remaining = remaining;
            retry_after = dur f retry_after;
            reset_after = dur f reset_after;
          }),
          record rig {
            allow_n_breaker = record rig.allow_n_breaker { error_count = pos 0 };
            world = returned conn rest (sent conn (command cmd) ∷ []) env' s;
          },
        )
  unfolding allow_n rigged Breaker.run after_run parse_answer
  allow_n-rigged f redis_prefix key limit n conn rest rig env' allowed remaining retry_text
        reset_text retry_after reset_after through known first running short fits_allowed
        fits_remaining one_line one_line' retry_read reset_read answered =
      let args = args_of f rigged redis_prefix limit n in
      let done =
        run-known net format_seconds c allow_n_script ((redis_prefix ++ key) ∷ []) args conn rest
          (many (whole allowed ∷ whole remaining ∷ blob retry_text ∷ blob reset_text ∷ []))
          rig.world env' known first running short
          ((fits_allowed, (fits_remaining, (one_line, (one_line', tt)))), omega arith) answered in
      rw (through, done, retry_read, reset_read) refl
