-- ===== src/Plugin/Outage/Start.antt =====
-- ratelimit.go over rate.go, the circuit breaker and the client: the request with which the breaker
-- opens, and those after it.
use mathlib.Core.Path.{subst}
use mathlib.Core.Option.{some_inj}
use traefik_cluster_ratelimi.Common.{
  ◌≡◌, ◌≢◌, refl, sym, ap, ◌∙◌, inl, inr, ℕ, ◌+◌, ◌*◌, ◌^◌, ◌≤◌, ◌<◌, true, Bool-cases, Option,
  none, some, List, [], ◌∷◌, map, arith,
}
use traefik_cluster_ratelimi.Common.Int.{ℤ, pos, ◌+ℤ◌, ◌≤ℤ◌, eqb_ℤ}
use traefik_cluster_ratelimi.Common.Bytes.{Bytes}
use traefik_cluster_ratelimi.Common.Result.{Result, ok, err, panic}
use traefik_cluster_ratelimi.Http.{Request}
use traefik_cluster_ratelimi.Ip.Net.{Codec}
use traefik_cluster_ratelimi.Redis.Breaker
use traefik_cluster_ratelimi.Redis.Breaker.{
  Breaker, duration_seconds, attempts, breaker_opened, after_error, after_run,
}
use traefik_cluster_ratelimi.Redis.Breaker.Open.{after_run-armed, duration_seconds_of_fits}
use traefik_cluster_ratelimi.Redis.Value.{Arg}
use traefik_cluster_ratelimi.Redis.Network.{Network, World}
use traefik_cluster_ratelimi.Redis.Client.{Client}
use traefik_cluster_ratelimi.Redis.Script.{Script, run}
use traefik_cluster_ratelimi.Limiter.{Floats, Scripts, args_of, allow}
use traefik_cluster_ratelimi.Limiter.Rig.{Rig, rigged}
use traefik_cluster_ratelimi.Plugin.{ClusterRateLimit}
use traefik_cluster_ratelimi.Plugin.Serve.{
  destroyed_headers, destroy, identify, is_whitelisted, limit_of, limit_request, admit, serve_http,
}
use traefik_cluster_ratelimi.Plugin.Shared.{key_of, counted_under}
use traefik_cluster_ratelimi.Plugin.Outage.{
  refusing, elapse, serve_timed, elapsed, IsEarly, serve_timed-refused,
}

-- The error that makes the breaker count enough of them opens it for the reattempt period.
armed-after_error :
    (b : Breaker) (later : ℤ) (n period : ℕ)
    → b.error_count ≡ pos n
    → 2 ≤ n
    → n + 1 < 2 ^ 63
    → b.breaker_threshold ≤ℤ pos (n + 1)
    → b.reattempt_period ≡ pos period
    → period * 1000000000 < 2 ^ 63
    → (pos 3 ≤ℤ (after_error b later).error_count)
      × ((after_error b later).next_attempt ≡ later +ℤ pos (period * 1000000000))
unfolding after_run
armed-after_error b later n period count two fits reached long short =
    let failure : Result (Unit {0}) = err [] in
    let (counted, next) = after_run-armed b later failure n count fits reached ([], refl) in
    (
      rw counted (omega (arith, two)),
      next
          ∙ ap (λ p. later +ℤ duration_seconds p) long
          ∙ ap (λ p. later +ℤ p) (duration_seconds_of_fits period short),
    )

module _ (c : Codec) (f : Floats) (rl : ClusterRateLimit) where
  module _ {S : Type 0} (scripts : Scripts S) (s s' : S) (x : Bytes) where
    abbrev pub Fails : Option Bytes → Type 0
    Fails counted =
        (key : Bytes)
        → counted ≡ some key
        → scripts.run_allow_n (key ∷ [])
            (args_of f scripts rl.limiter_prefix (limit_of c rl) (pos 1)) s
          ≡ (err x, s')

    limit_request-failed :
        (req : Request) (key : Result (Bytes × ℤ))
        → rl.source_matcher req ≡ key
        → key_of rl.limiter_prefix key ≢ none
        → Fails (key_of rl.limiter_prefix key)
        → limit_request c f scripts rl req s ≡ ((limit_request c f (refusing x) rl req tt).0, s')
    unfolding limit_request allow
    limit_request-failed req (ok (source, amount)) e counted fails =
        rw (e, limit_request) (rw (fails _ refl) refl)
    limit_request-failed req (err y) e counted fails = absurd (counted refl)
    limit_request-failed req panic e counted fails = absurd (counted refl)

    identified-failed :
        (req : Request) (i : Result (Bytes × Request))
        → identify c rl (destroy destroyed_headers req) ≡ i
        → counted_under c rl req ≢ none
        → Fails (counted_under c rl req)
        → serve_http c f scripts rl req s ≡ ((serve_http c f (refusing x) rl req tt).0, s')
    unfolding serve_http counted_under admit
    identified-failed req (err y) e counted fails = absurd (counted (rw (e, counted_under) refl))
    identified-failed req panic e counted fails = absurd (counted (rw (e, counted_under) refl))
    identified-failed req (ok (client_ip, req')) e counted fails =
        elim (Bool-cases (eqb_ℤ rl.average (pos 0))) [
          | inl free ↦ absurd (counted (rw (e, counted_under, free) refl))
          | inr limited ↦ elim (Bool-cases (is_whitelisted c rl client_ip)) [
            | inl listed ↦ absurd (counted (rw (e, counted_under, limited, listed) refl))
            | inr unlisted ↦
                rw (e, serve_http, admit, limited, unlisted)
                  (limit_request-failed req' (rl.source_matcher req') refl
                    (rw (e, counted_under, limited, unlisted) at counted)
                    (rw (e, counted_under, limited, unlisted) at fails))
          ]
        ]

    pub serve_http-failed :
        (req : Request)
        → counted_under c rl req ≢ none
        → Fails (counted_under c rl req)
        → serve_http c f scripts rl req s ≡ ((serve_http c f (refusing x) rl req tt).0, s')
    serve_http-failed req counted fails = identified-failed req _ refl counted fails

  module _ {W : Type 0} (net : Network W) (now : W → ℤ) (format_seconds : ℤ → Bytes)
      (client : Client) (allow_n_script allow_at_most_script : Script) where
    run_allow_n-failed :
        (rig : Rig W) (keys : List Bytes) (args : List Arg) (x : Bytes) (w : World W)
        → attempts rig.allow_n_breaker (now rig.world.env) ≡ true
        → run net format_seconds client allow_n_script keys args rig.world ≡ (err x, w)
        → (rigged net now format_seconds client allow_n_script allow_at_most_script).run_allow_n
            keys args rig
          ≡ (
            err x,
            record rig { allow_n_breaker = after_error rig.allow_n_breaker (now w.env); world = w },
          )
    unfolding rigged Breaker.run after_run
    run_allow_n-failed rig keys args x w through broke = rw (through, broke) refl

    -- An outage costs one failing call: when a counted request reaches the script, the script's run
    -- fails, and that brings the breaker's count to at least three and to the threshold, then this
    -- request and all that come within the reattempt period after the error are treated as with a
    -- limiter that refuses at once, and after that one run nothing is dialled, sent or closed. The
    -- period is not negative and fits int64 in nanoseconds, and so does the count.
    pub serve_timed-outage :
        (wait : W → W) (req : Request) (reqs : List ((W → W) × Request)) (rig : Rig W)
        (key x : Bytes) (w : World W) (n period : ℕ)
        → let b = rig.allow_n_breaker in
          let scripts = rigged net now format_seconds client allow_n_script allow_at_most_script in
          let args = args_of f scripts rl.limiter_prefix (limit_of c rl) (pos 1) in
          counted_under c rl req ≡ some key
          → attempts b (now (wait rig.world.env)) ≡ true
          → run net format_seconds client allow_n_script
              (key ∷ [])
              args
              (record rig.world { env = wait rig.world.env })
            ≡ (err x, w)
          → b.error_count ≡ pos n
          → 2 ≤ n
          → n + 1 < 2 ^ 63
          → b.breaker_threshold ≤ℤ pos (n + 1)
          → b.reattempt_period ≡ pos period
          → period * 1000000000 < 2 ^ 63
          → IsEarly now (now w.env +ℤ pos (period * 1000000000)) reqs w.env
          → serve_timed c f rl net now format_seconds client allow_n_script allow_at_most_script
              ((wait, req) ∷ reqs)
              rig
            ≡ (
              (serve_http c f (refusing x) rl req tt).0
                  ∷ map (λ (_, req). (serve_http c f (refusing breaker_opened) rl req tt).0) reqs,
              elapse
                  (elapsed reqs)
                  (record rig { allow_n_breaker = after_error b (now w.env); world = w }),
            )
    serve_timed-outage wait req reqs rig key x w n period under through broke count two fits reached
          long short early =
        let scripts = rigged net now format_seconds client allow_n_script allow_at_most_script in
        let b = rig.allow_n_breaker in
        let rig' = record rig { allow_n_breaker = after_error b (now w.env); world = w } in
        let (many, next) =
          armed-after_error b (now w.env) n period count two fits reached long short in
        rw
          (
            serve_http-failed scripts (elapse wait rig) rig' x req (λ e. cc)
                (λ k e.
                  subst
                    (λ k.
                      scripts.run_allow_n (k ∷ [])
                        (args_of f scripts rl.limiter_prefix (limit_of c rl) (pos 1))
                        (elapse wait rig)
                      ≡ (err x, rig'))
                    (some_inj.0 (sym under ∙ e))
                    (run_allow_n-failed (elapse wait rig) (key ∷ []) _ x w through broke)),
            serve_timed-refused c f rl net now format_seconds client allow_n_script
                allow_at_most_script reqs rig' many (rw next early),
          )
          refl
