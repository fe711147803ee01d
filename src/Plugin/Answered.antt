-- ===== src/Plugin/Answered.antt =====
-- ratelimit.go over rate.go, the circuit breaker and the client: a request that is counted, and what
-- the server answers to the script.
use traefik_cluster_ratelimi.Common.{
  ◌≡◌, ◌≢◌, refl, ap, ◌∙◌, inl, inr, Bool-cases, ℕ, ◌<◌, true, false, some, List, [], ◌∷◌, ◌++◌,
  if◌then◌else◌, length,
}
use traefik_cluster_ratelimi.Common.Int.{ℤ, pos, ◌+ℤ◌, leb_ℤ, quot_ℤ, wrap64}
use traefik_cluster_ratelimi.Common.Bytes.{Bytes, is_empty}
use traefik_cluster_ratelimi.Common.Result.{Result, ok}
use traefik_cluster_ratelimi.Http.{Request}
use traefik_cluster_ratelimi.Ip.Net.{Codec}
use traefik_cluster_ratelimi.Redis.Resp.{command}
use traefik_cluster_ratelimi.Redis.Resp.Protocol.{many, whole, blob, HasNoLf, FitsInt64}
use traefik_cluster_ratelimi.Redis.Network.{Network, sent}
use traefik_cluster_ratelimi.Redis.Client.{Client}
use traefik_cluster_ratelimi.Redis.Client.Answered.{IsAnswered, returned}
use traefik_cluster_ratelimi.Redis.Script.{Script}
use traefik_cluster_ratelimi.Redis.Script.Cached.{eval_command}
use traefik_cluster_ratelimi.Redis.Breaker.{attempts}
use traefik_cluster_ratelimi.Limiter.{Floats, Scripts, Verdict, dur, args_of, allow}
use traefik_cluster_ratelimi.Limiter.Rig.{Rig, rigged, allow_n-rigged}
use traefik_cluster_ratelimi.Plugin.{ClusterRateLimit}
use traefik_cluster_ratelimi.Plugin.Serve.{
  Outcome, forwarded, answered, destroyed_headers, destroy, identify, limit_of, decide,
  limit_request, serve_http,
}
use traefik_cluster_ratelimi.Plugin.Serve.Admission.{IsExempt, serve_http_of}
use traefik_cluster_ratelimi.Plugin.Serve.RetryAfter.{admit-limited}

module _ {W : Type 0} (net : Network W) (now : W → ℤ) (format_seconds : ℤ → Bytes) (client : Client)
    (allow_n_script allow_at_most_script : Script) (c : Codec) (f : Floats)
    (rl : ClusterRateLimit) where
  limit_request-matched :
      {S : Type 0} (scripts : Scripts S) (s : S) (req : Request) (key : Bytes) (amount : ℤ)
      → rl.source_matcher req ≡ ok (key, amount)
      → let (v, s') = allow f scripts rl.limiter_prefix key (limit_of c rl) s in
        limit_request c f scripts rl req s ≡ (decide c rl req v, s')
  unfolding limit_request
  limit_request-matched scripts s req key amount matched = rw (limit_request, matched) refl

  decide-ok :
      {S : Type 0} (req : Request) (v : Verdict) (s : S)
      → ◌≡◌ {A = Result Outcome × S}
          (decide c rl req (ok v), s)
          (
            ok (
                if leb_ℤ v.allowed (pos 0)
                then answered 429 (some (wrap64 (quot_ℤ v.retry_after 1000000000 +ℤ pos 1)))
                else forwarded req),
            s,
          )
  unfolding decide
  decide-ok req v s = elim (Bool-cases (leb_ℤ v.allowed (pos 0))) [
    | inl over ↦ rw over refl
    | inr under ↦ rw under refl
  ]

  -- From the request to the bytes on the wire and back: a request that is counted, with a breaker
  -- that lets it through, a script whose sha is known, an idle connection of a pool that is not
  -- closed, and four values of the script as the server's answer. One EVALSHA is sent and nothing
  -- else, the connection goes back to the pool, and the breaker counts no errors. If the script
  -- allowed something, the request is forwarded, and else it is answered 429 with a retry-after of
  -- the script's in whole seconds, and one more.
  pub serve_http-rigged :
      (req req' : Request) (client_ip key : Bytes) (amount : ℤ) (conn : ℕ) (rest : List ℕ)
      (rig : Rig W) (env' : W) (allowed remaining : ℤ) (retry_text reset_text : Bytes)
      (retry_after reset_after : f.Float)
      → let s = rig.world in
        let scripts = rigged net now format_seconds client allow_n_script allow_at_most_script in
        let args = args_of f scripts rl.limiter_prefix (limit_of c rl) (pos 1) in
        let cmd =
          eval_command format_seconds
            ((rl.limiter_prefix ++ key) ∷ [])
            args
            (s.shas allow_n_script.handle) in
        rl.average ≢ pos 0
        → (IsExempt c rl.whitelist_checker client_ip → ⊥)
        → identify c rl (destroy destroyed_headers req) ≡ ok (client_ip, req')
        → rl.source_matcher req' ≡ ok (key, amount)
        → attempts rig.allow_n_breaker (now s.env) ≡ true
        → is_empty (s.shas allow_n_script.handle) ≡ false
        → s.idle ≡ conn ∷ rest
        → s.shut ≡ false
        → length rest < client.pool_size
        → FitsInt64 allowed
        → FitsInt64 remaining
        → HasNoLf retry_text
        → HasNoLf reset_text
        → f.parse_float retry_text ≡ ok retry_after
        → f.parse_float reset_text ≡ ok reset_after
        → IsAnswered net conn client.connection_timeout cmd
            (many (whole allowed ∷ whole remaining ∷ blob retry_text ∷ blob reset_text ∷ []))
            s.env
            env'
        → serve_http c f scripts rl req rig ≡ (
          ok (
              if leb_ℤ allowed (pos 0)
              then answered 429 (some (wrap64 (quot_ℤ (dur f retry_after) 1000000000 +ℤ pos 1)))
              else forwarded req'),
          record rig {
            allow_n_breaker = record rig.allow_n_breaker { error_count = pos 0 };
            world = returned conn rest (sent conn (command cmd) ∷ []) env' s;
          },
        )
  unfolding allow
  serve_http-rigged req req' client_ip key amount conn rest rig env' allowed remaining retry_text
        reset_text retry_after reset_after limited listed derived matched through known first
        running short fits_allowed fits_remaining one_line one_line' retry_read reset_read answer =
      let scripts = rigged net now format_seconds client allow_n_script allow_at_most_script in
      let done =
        allow_n-rigged net now format_seconds client allow_n_script allow_at_most_script f
          rl.limiter_prefix key (limit_of c rl) (pos 1) conn rest rig env' allowed remaining
          retry_text reset_text retry_after reset_after through known first running short
          fits_allowed fits_remaining one_line one_line' retry_read reset_read answer in
      serve_http_of c f scripts rl rig req client_ip req' derived
      ∙ admit-limited c f scripts rl rig client_ip req' limited listed
      ∙ limit_request-matched scripts rig req' key amount matched
      ∙ ap (λ (out : Result Verdict × Rig W). (decide c rl req' out.0, out.1)) done
      ∙ decide-ok req' _ _
