-- ===== src/Plugin/Outage.antt =====
-- ratelimit.go over rate.go, the circuit breaker and the client: requests while the breaker is open.
pub mod Start
use traefik_cluster_ratelimi.Common.{
  ◌≡◌, refl, inl, inr, ℕ, ◌+◌, ◌*◌, ◌^◌, ◌≤◌, ◌<◌, Bool, true, false, Bool-cases, Option, none,
  some, List, [], ◌∷◌, map, if◌then◌else◌, arith,
}
use traefik_cluster_ratelimi.Common.Int.{ℤ, pos, ◌≤ℤ◌, eqb_ℤ}
use traefik_cluster_ratelimi.Common.Bytes.{Bytes}
use traefik_cluster_ratelimi.Common.Result.{Result, ok, err, panic}
use traefik_cluster_ratelimi.Http.{Request}
use traefik_cluster_ratelimi.Ip.Net.{Codec}
use traefik_cluster_ratelimi.Redis.Value.{Arg}
use traefik_cluster_ratelimi.Redis.Breaker
use traefik_cluster_ratelimi.Redis.Breaker.{attempts, breaker_opened}
use traefik_cluster_ratelimi.Redis.Breaker.Open.{attempts_of_open}
use traefik_cluster_ratelimi.Redis.Network.{Network}
use traefik_cluster_ratelimi.Redis.Client.{Client}
use traefik_cluster_ratelimi.Redis.Script.{Script}
use traefik_cluster_ratelimi.Limiter.{Floats, Scripts, allow, allow_n}
use traefik_cluster_ratelimi.Limiter.Rig.{Rig, rigged}
use traefik_cluster_ratelimi.Plugin.{ClusterRateLimit}
use traefik_cluster_ratelimi.Plugin.Serve.{
  Outcome, destroyed_headers, destroy, identify, is_whitelisted, limit_request, admit, serve_http,
}

-- A limiter without a server, which refuses every call.
abbrev pub refusing : Bytes → Scripts (Unit {0})
refusing x = record {
  run_allow_n = λ keys args s. (err x, s);
  run_allow_at_most = λ keys args s. (err x, s);
  run_del = λ key s. (err x, s);
}

module _ {W : Type 0} where
  abbrev pub elapse : (W → W) → Rig W → Rig W
  elapse wait rig = record rig { world = record rig.world { env = wait rig.world.env } }

  -- All that happens to the network between requests: what it does of its own.
  abbrev pub elapsed : List ((W → W) × Request) → W → W
  elapsed [] w = w
  elapsed ((wait, req) ∷ reqs) w = elapsed reqs (wait w)

  -- Each request comes by that time.
  abbrev pub IsEarly : (W → ℤ) → ℤ → List ((W → W) × Request) → W → Type 0
  IsEarly now until [] w = Unit {0}
  IsEarly now until ((wait, req) ∷ reqs) w =
      (now (wait w) ≤ℤ until) × IsEarly now until reqs (wait w)

module _ (c : Codec) (f : Floats) (rl : ClusterRateLimit) where
  module _ {S : Type 0} (scripts : Scripts S) (s : S) (x : Bytes)
      (refused : (keys : List Bytes) (args : List Arg)
        → scripts.run_allow_n keys args s ≡ (err x, s)) where
    limit_request-refused :
        (req : Request) (key : Result (Bytes × ℤ))
        → rl.source_matcher req ≡ key
        → limit_request c f scripts rl req s ≡ ((limit_request c f (refusing x) rl req tt).0, s)
    unfolding limit_request allow
    limit_request-refused req (ok (source, amount)) e =
        rw (e, limit_request) (rw (refused _ _) refl)
    limit_request-refused req (err y) e = rw (e, limit_request) refl
    limit_request-refused req panic e = rw (e, limit_request) refl

    admit-refused :
        (client_ip : Bytes) (req : Request)
        → admit c f scripts rl client_ip req s ≡ ((admit c f (refusing x) rl client_ip req tt).0, s)
    unfolding admit
    admit-refused client_ip req = elim (Bool-cases (eqb_ℤ rl.average (pos 0))) [
      | inl free ↦ rw free refl
      | inr limited ↦ elim (Bool-cases (is_whitelisted c rl client_ip)) [
        | inl listed ↦ rw limited (rw listed refl)
        | inr unlisted ↦
            rw limited (rw unlisted (limit_request-refused req (rl.source_matcher req) refl))
      ]
    ]

    identified-refused :
        (req : Request) (i : Result (Bytes × Request))
        → identify c rl (destroy destroyed_headers req) ≡ i
        → serve_http c f scripts rl req s ≡ ((serve_http c f (refusing x) rl req tt).0, s)
    unfolding serve_http
    identified-refused req (ok (client_ip, req')) e =
        rw (e, serve_http) (admit-refused client_ip req')
    identified-refused req (err y) e = rw (e, serve_http) refl
    identified-refused req panic e = rw (e, serve_http) refl

    pub serve_http-refused :
        (req : Request)
        → serve_http c f scripts rl req s ≡ ((serve_http c f (refusing x) rl req tt).0, s)
    serve_http-refused req = identified-refused req _ refl

  module _ {W : Type 0} (net : Network W) (now : W → ℤ) (format_seconds : ℤ → Bytes)
      (client : Client) (allow_n_script allow_at_most_script : Script) where
    -- Requests one after the other; before each one the network goes its own way for a while.
    abbrev pub serve_timed : List ((W → W) × Request) → Rig W → List (Result Outcome) × Rig W
    serve_timed [] rig = ([], rig)
    serve_timed ((wait, req) ∷ reqs) rig =
        let scripts = rigged net now format_seconds client allow_n_script allow_at_most_script in
        let (r, rig') = serve_http c f scripts rl req (elapse wait rig) in
        let (rs, last) = serve_timed reqs rig' in (r ∷ rs, last)

    run_allow_n-refused :
        (rig : Rig W) (keys : List Bytes) (args : List Arg)
        → attempts rig.allow_n_breaker (now rig.world.env) ≡ false
        → (rigged net now format_seconds client allow_n_script allow_at_most_script).run_allow_n
            keys args rig
          ≡ (err breaker_opened, rig)
    unfolding rigged Breaker.run
    run_allow_n-refused rig keys args shut = rw shut refl

    -- While the breaker is open, the middleware is one without a server: each request that comes by
    -- the next attempt comes to what it comes to with a limiter that refuses at once, and nothing of
    -- the limiter changes. Nothing is dialled, sent or closed, the pool and the breaker stay as they
    -- are, and the network has only gone its own way. The breaker counts at least three errors.
    pub serve_timed-refused :
        (reqs : List ((W → W) × Request)) (rig : Rig W)
        → pos 3 ≤ℤ rig.allow_n_breaker.error_count
        → IsEarly now rig.allow_n_breaker.next_attempt reqs rig.world.env
        → serve_timed reqs rig ≡ (
          map (λ (_, req). (serve_http c f (refusing breaker_opened) rl req tt).0) reqs,
          elapse (elapsed reqs) rig,
        )
    serve_timed-refused [] rig many early = refl
    serve_timed-refused ((wait, req) ∷ reqs) rig many (soon, early) =
        let scripts = rigged net now format_seconds client allow_n_script allow_at_most_script in
        let shut = attempts_of_open rig.allow_n_breaker (now (wait rig.world.env)) many soon in
        rw
          (
            serve_http-refused scripts (elapse wait rig) breaker_opened
                (λ keys args. run_allow_n-refused (elapse wait rig) keys args shut) req,
            serve_timed-refused reqs (elapse wait rig) many early,
          )
          refl
