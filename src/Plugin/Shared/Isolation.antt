-- ===== src/Plugin/Shared/Isolation.antt =====
-- ratelimit.go, rate.go, the circuit breakers and the client together: instances of the middleware on
-- one Redis, each with a configuration, a client, scripts, breakers and a pool of its own. They take
-- turns request by request, and pass the state of the network on.
use traefik_cluster_ratelimi.Common.{
  ◌≡◌, ◌≢◌, refl, ap, ◌∙◌, ℕ, inl, inr, Bool-cases, Option, some, List, [], ◌∷◌, ◌++◌, ◌==◌,
  if◌then◌else◌, All,
}
use traefik_cluster_ratelimi.Common.Int.{ℤ}
use traefik_cluster_ratelimi.Common.Bytes.{Bytes}
use traefik_cluster_ratelimi.Common.Result.{Result}
use traefik_cluster_ratelimi.Http.{Request}
use traefik_cluster_ratelimi.Ip.Net.{Codec}
use traefik_cluster_ratelimi.Redis.Value.{Arg}
use traefik_cluster_ratelimi.Redis.Network.{Network}
use traefik_cluster_ratelimi.Redis.Client.{Client}
use traefik_cluster_ratelimi.Redis.Client.Keyed.{IsKeyed}
use traefik_cluster_ratelimi.Redis.Script.{Script}
use traefik_cluster_ratelimi.Redis.Script.Spared.{run-Spared}
use traefik_cluster_ratelimi.Redis.Breaker
use traefik_cluster_ratelimi.Redis.Breaker.{attempts}
use traefik_cluster_ratelimi.Limiter.{Floats, Scripts, allow, allow_n}
use traefik_cluster_ratelimi.Limiter.Rig.{Rig, rigged}
use traefik_cluster_ratelimi.Plugin.{ClusterRateLimit}
use traefik_cluster_ratelimi.Plugin.Serve.{Outcome, serve_http}
use traefik_cluster_ratelimi.Plugin.Shared.{
  counted_under, Handled, uncounted, counted, serve_http-Handled,
}

-- What an instance is made of.
pub record Instance : Type 0 where
  pub middleware : ClusterRateLimit
  pub client : Client
  pub allow_n_script : Script
  pub allow_at_most_script : Script

-- The breakers and the client of each instance, and the network of all.
pub record Fleet (W : Type 0) : Type 0 where
  pub rigs : ℕ → Rig W
  pub network : W

-- An instance finds the network as it is, and leaves it behind.
abbrev enter : {W : Type 0} → Fleet W → ℕ → Rig W
enter fleet i =
    let rig = fleet.rigs i in record rig { world = record rig.world { env = fleet.network } }

abbrev leave : {W : Type 0} → Fleet W → ℕ → Rig W → Fleet W
leave fleet i rig = record {
  rigs = λ j. if j == i then rig else fleet.rigs j;
  network = rig.world.env;
}

module _ (c : Codec) (f : Floats) {W : Type 0} (net : Network W) (now : W → ℤ)
    (format_seconds : ℤ → Bytes) where
  abbrev scripts_of : Instance → Scripts (Rig W)
  scripts_of i = rigged net now format_seconds i.client i.allow_n_script i.allow_at_most_script

  -- Requests, each to the instance of its number, one after the other.
  unfoldable pub serve_all : (ℕ → Instance) → List (ℕ × Request) → Fleet W → Fleet W
  unfolding serve_http
  serve_all instances [] fleet = fleet
  serve_all instances ((i, req) ∷ reqs) fleet =
      let (r, rig) =
        serve_http c f (scripts_of (instances i)) (instances i).middleware req (enter fleet i) in
      serve_all instances reqs (leave fleet i rig)

  module _ {V : Type 0} (key : Bytes) (kept : W → V) (keyed : IsKeyed net key kept) where
    run_allow_n-keeps :
        (i : Instance) (other : Bytes) (args : List Arg) (rig : Rig W)
        → other ≢ key
        → kept ((scripts_of i).run_allow_n (other ∷ []) args rig).1.world.env ≡ kept rig.world.env
    unfolding rigged Breaker.run
    run_allow_n-keeps i other args rig differs =
        elim (Bool-cases (attempts rig.allow_n_breaker (now rig.world.env))) [
          | inl through ↦ rw through (
              run-Spared net key kept keyed format_seconds i.client other differs i.allow_n_script
                args rig.world)
          | inr refused ↦ rw refused refl
        ]

    Handled-keeps :
        (i : Instance) (rig : Rig W) (k : Option Bytes) (out : Result Outcome × Rig W)
        → k ≢ some key
        → Handled c f (scripts_of i) i.middleware rig k out
        → kept out.1.world.env ≡ kept rig.world.env
    unfolding allow allow_n
    Handled-keeps i rig k out differs (uncounted r) = refl
    Handled-keeps i rig k out differs (counted source req) =
        run_allow_n-keeps i (i.middleware.limiter_prefix ++ source) _ rig (λ e. differs (ap some e))

    -- Budgets are apart: requests that are not counted under a key, whichever instances serve them,
    -- over their breakers and clients, with whatever configurations, and whatever comes of them, leave
    -- what Redis keeps under the key as it was, if Redis keeps scripts to the keys that they are given
    -- and changes what it keeps by commands only.
    pub serve_all-elsewhere :
        (instances : ℕ → Instance) (reqs : List (ℕ × Request)) (fleet : Fleet W)
        → All (λ (i, req). counted_under c (instances i).middleware req ≢ some key) reqs
        → kept (serve_all instances reqs fleet).network ≡ kept fleet.network
    unfolding serve_all
    serve_all-elsewhere instances [] fleet all = refl
    serve_all-elsewhere instances ((i, req) ∷ reqs) fleet (differs, all) =
        let rig = enter fleet i in
        let served = serve_http c f (scripts_of (instances i)) (instances i).middleware req rig in
        serve_all-elsewhere instances reqs (leave fleet i served.1) all
        ∙ Handled-keeps (instances i) rig _ served differs
            (serve_http-Handled c f (scripts_of (instances i)) (instances i).middleware rig req)
