-- ===== src/Plugin/New/Connected.antt =====
-- ratelimit.go, New, over NewLimiter of rate.go and NewClient of internal/redis/redis.go.
use mathlib.Core.Path.{subst}
use traefik_cluster_ratelimi.Common.{
  ◌≡◌, refl, sym, ap, ◌∙◌, ◌↔◌, Bool, true, false, not, ◌||◌, Option, none, some,
}
use traefik_cluster_ratelimi.Common.Int.{ℤ, pos, ltb_ℤ}
use traefik_cluster_ratelimi.Common.Bytes.{Bytes, is_empty}
use traefik_cluster_ratelimi.Common.Result.{
  Result, ok, err, panic, >>=-eq-ok, ok-inj, with_context, check-eq-ok,
}
use traefik_cluster_ratelimi.Ip.Net.{Codec}
use traefik_cluster_ratelimi.Ip.Subnet.{min_ipv6_subnet, max_ipv6_subnet}
use traefik_cluster_ratelimi.Redis.Options.{Options}
use traefik_cluster_ratelimi.Redis.Breaker.{new_script_with_breaker}
use traefik_cluster_ratelimi.Redis.Tls.{tls_requested}
use traefik_cluster_ratelimi.Redis.Network.{Network, World, TlsConfig}
use traefik_cluster_ratelimi.Redis.Client.{Client}
use traefik_cluster_ratelimi.Redis.Client.Pool.{client_of, new_client}
use traefik_cluster_ratelimi.Redis.Client.Secured.{IsSecured, new_client-IsMade}
use traefik_cluster_ratelimi.Limiter.{Limiter, new_limiter}
use traefik_cluster_ratelimi.Plugin.{ClusterRateLimit}
use traefik_cluster_ratelimi.Plugin.Config.{
  Config, from_environment, subnet_in_force, subnet_message, check_limits, read_credentials,
  check_ipv6_subnet,
}
use traefik_cluster_ratelimi.Plugin.New.{
  Derivation, client_context, middleware_of, options_of, settle, new, derive,
}
use traefik_cluster_ratelimi.Plugin.New.Valid.{check_limits_cases}

-- No setting of TLS is given.
abbrev pub AsksNoTls : Config → Type 0
AsksNoTls config =
    (config.redis_tls ≡ false)
    × (is_empty config.redis_ca_cert_file ≡ true)
    × (is_empty config.redis_client_cert_file ≡ true)
    × (is_empty config.redis_client_key_file ≡ true)
    × (is_empty config.redis_server_name ≡ true)

none-set :
    (a b c d e : Bool)
    → (a || (not b || (not c || (not d || not e)))) ≡ false
    → (a ≡ false) × (b ≡ true) × (c ≡ true) × (d ≡ true) × (e ≡ true)
none-set false true true true true h = (refl, refl, refl, refl, refl)
none-set true b c d e h = cc
none-set false false c d e h = cc
none-set false true false d e h = cc
none-set false true true false e h = cc
none-set false true true true false h = cc

tls_requested-AsksNoTls :
    (config : Config) → (tls_requested (options_of config) ≡ false) ↔ AsksNoTls config
unfolding tls_requested
tls_requested-AsksNoTls config = (
  λ h.
      none-set config.redis_tls (is_empty config.redis_ca_cert_file)
        (is_empty config.redis_client_cert_file) (is_empty config.redis_client_key_file)
        (is_empty config.redis_server_name) h,
  λ (tls, ca, cert, key, server). rw (tls, ca, cert, key, server) refl,
)

-- The middleware and its limiter agree, and the client has the credentials and the encryption that
-- the configuration asks for.
pub record IsConnected (getenv : Bytes → Bytes) (config : Config) (rl : ClusterRateLimit)
    (limiter : Limiter) (client : Client) : Type 0 where
  pub prefixed : rl.limiter_prefix ≡ limiter.redis_prefix
  pub retried : rl.retry_after ≡ limiter.allow_n_breaker.reattempt_period
  pub user : client.username ≡ from_environment getenv config.redis_username
  pub password : client.auth ≡ from_environment getenv config.redis_password
  pub password_file : client.auth_file ≡ config.redis_password_file
  pub plain_iff : (client.tls_cfg ≡ none) ↔ AsksNoTls config

-- The settings that the client is made of, before and after a step, where `f` is what the step does
-- to the credentials.
abbrev Keeps : (Bytes → Bytes) → Config → Config → Type 0
Keeps f config settled =
    (settled.redis_username ≡ f config.redis_username)
    × (settled.redis_password ≡ f config.redis_password)
    × (settled.redis_password_file ≡ config.redis_password_file)
    × (tls_requested (options_of settled) ≡ tls_requested (options_of config))

check_limits-Keeps :
    (config limited : Config) → check_limits config ≡ ok limited → Keeps (λ t. t) config limited
unfolding tls_requested
check_limits-Keeps config limited h =
    let (average, burst, mode, moded, same) = check_limits_cases config limited h in
    rw (← same) (refl, refl, refl, refl)

read_credentials-Keeps :
    (getenv : Bytes → Bytes) (config credited : Config)
    → read_credentials getenv config ≡ ok credited
    → Keeps (from_environment getenv) config credited
unfolding read_credentials tls_requested
read_credentials-Keeps getenv config credited h =
    let (one, h1) = check-eq-ok _ _ _ h in
    let same = ok-inj _ _ h1 in rw (← same) (refl, refl, refl, refl)

check_ipv6_subnet-Keeps :
    (config settled : Config)
    → check_ipv6_subnet config ≡ ok settled
    → Keeps (λ t. t) config settled
unfolding check_ipv6_subnet tls_requested
check_ipv6_subnet-Keeps config settled h =
    let n = subnet_in_force config.ipv6_subnet in
    let (range, h1) =
      check-eq-ok (ltb_ℤ n (pos min_ipv6_subnet) || ltb_ℤ (pos max_ipv6_subnet) n)
        (subnet_message n) (ok (record config { ipv6_subnet = n })) h in
    let same : record config { ipv6_subnet = n } ≡ settled = ok-inj _ _ h1 in
    rw (← same) (refl, refl, refl, refl)

Keeps-trans :
    (f : Bytes → Bytes) (config limited credited checked : Config)
    → Keeps (λ t. t) config limited
    → Keeps f limited credited
    → Keeps (λ t. t) credited checked
    → Keeps f config checked
Keeps-trans f config limited credited checked (u, p, w, t) (u', p', w', t') (u'', p'', w'', t'') =
    (u'' ∙ u' ∙ ap f u, p'' ∙ p' ∙ ap f p, w'' ∙ w' ∙ w, t'' ∙ t' ∙ t)

settle-Keeps :
    (c : Codec) (getenv : Bytes → Bytes) {Client : Type 0} (new_client : Options → Result Client)
    (config settled : Config) (derivation : Derivation)
    → settle c getenv new_client config ≡ ok (settled, derivation)
    → Keeps (from_environment getenv) config settled
unfolding settle
settle-Keeps c getenv new_client config settled derivation h =
    let (limited, e1, h1) = >>=-eq-ok (check_limits config) _ h in
    let (credited, e2, h2) = >>=-eq-ok (read_credentials getenv limited) _ h1 in
    let (checked, e3, h3) = >>=-eq-ok (check_ipv6_subnet credited) _ h2 in
    let (derived, e4, h4) = >>=-eq-ok (derive c checked) _ h3 in
    let same = ok-inj (checked, derived) (settled, derivation) h4 in
    subst (λ p. Keeps (from_environment getenv) config p.0) same
      (Keeps-trans (from_environment getenv) config limited credited checked
        (check_limits-Keeps config limited e1) (read_credentials-Keeps getenv limited credited e2)
        (check_ipv6_subnet-Keeps credited checked e3))

IsSecured-plain_iff :
    {W : Type 0} (net : Network W) (o : Options) (config : Config) (cfg : Option TlsConfig)
    → tls_requested o ≡ tls_requested (options_of config)
    → IsSecured net o cfg
    → (cfg ≡ none) ↔ AsksNoTls config
IsSecured-plain_iff net o config none same plain =
    (λ e. (tls_requested-AsksNoTls config).0 (sym same ∙ plain), λ h. refl)
IsSecured-plain_iff net o config (some cfg) same (wanted, trusted) =
    (λ e. cc, λ h. let plain = (tls_requested-AsksNoTls config).1 h in cc)

made-IsConnected :
    {W : Type 0} (net : Network W) (getenv : Bytes → Bytes) (config settled : Config)
    (derivation : Derivation) (name : Bytes) (now now' : ℤ) (client : Client)
    → IsSecured net (options_of settled) client.tls_cfg
    → client ≡ client_of (options_of settled) client.tls_cfg
    → Keeps (from_environment getenv) config settled
    → IsConnected getenv config
        (middleware_of settled derivation name)
        (new_limiter name settled.breaker_threshold settled.breaker_reattempt now now')
        client
unfolding new_limiter new_script_with_breaker
made-IsConnected net getenv config settled derivation name now now' client secured of_options
      (user, password, file, tls) =
    record {
      prefixed = refl;
      retried = refl;
      user = ap (λ c. c.username) of_options ∙ user;
      password = ap (λ c. c.auth) of_options ∙ password;
      password_file = ap (λ c. c.auth_file) of_options ∙ file;
      plain_iff = IsSecured-plain_iff net (options_of settled) config client.tls_cfg tls secured;
    }

with_context-ok :
    {A : Type 0} (context : Bytes) (r : Result A) (a : A) → with_context context r ≡ ok a → r ≡ ok a
with_context-ok context (ok b) a h = h
with_context-ok context (err e) a h = cc
with_context-ok context panic a h = cc

module _ {W : Type 0} (net : Network W) (s : World W) where
  -- The client that NewClient makes.
  abbrev pub dialled_client : Options → Result Client
  dialled_client o = (new_client net o s).0

  -- A middleware that New makes with the client of NewClient has the reattempt period of its breaker
  -- as its retry-after, and counts under the prefix of its limiter. Its client has the user name and
  -- the password of the configuration, those with a '$' from the environment, and the password file,
  -- and it goes without TLS just when no setting of TLS is given.
  pub new-IsConnected :
      (c : Codec) (getenv : Bytes → Bytes) (config : Config) (name : Bytes) (now now' : ℤ)
      (rl : ClusterRateLimit) (limiter : Limiter) (client : Client)
      → new c getenv dialled_client config name now now' ≡ ok (rl, limiter, client)
      → IsConnected getenv config rl limiter client
  unfolding new
  new-IsConnected c getenv config name now now' rl limiter client h =
      let ((settled, derivation), e, h1) = >>=-eq-ok (settle c getenv dialled_client config) _ h in
      let (made, e1, h2) =
        >>=-eq-ok (with_context client_context (dialled_client (options_of settled))) _ h1 in
      let same = ok-inj _ _ h2 in
      let (secured, of_options) =
        new_client-IsMade net (options_of settled) s made (with_context-ok client_context _ _ e1) in
      subst
        (λ (out : ClusterRateLimit × Limiter × Client). IsConnected getenv config out.0 out.1 out.2)
        same
        (made-IsConnected net getenv config settled derivation name now now' made secured of_options
          (settle-Keeps c getenv dialled_client config settled derivation e))
