-- ===== src/Plugin/New/BucketKey.antt =====
-- What the middleware that New returns counts a request under, and whose address it derives.
use traefik_cluster_ratelimi.Common.{
  ◌≡◌, refl, sym, ap, ◌∙◌, ◌≢◌, ◌↔◌, true, false, ◌&&◌, ◌||◌, Option, none, some, List, [], ◌∷◌,
  arith, length, lt→ltb, ltb,
}
use traefik_cluster_ratelimi.Common.Int.{ℤ, pos, ltb_ℤ}
use traefik_cluster_ratelimi.Common.Bytes.{Bytes}
use traefik_cluster_ratelimi.Common.Result.{
  Result, ok, >>=-eq-ok, ok-inj, with_context, with_context-eq-ok, check-eq-ok,
}
use traefik_cluster_ratelimi.Ip.Net.{Codec}
use traefik_cluster_ratelimi.Ip.Checker.{Checker, new_checker}
use traefik_cluster_ratelimi.Ip.Interface.{Strategy, trusted_proxy}
use traefik_cluster_ratelimi.Ip.Subnet.{subnet, min_ipv6_subnet, max_ipv6_subnet}
use traefik_cluster_ratelimi.Ip.TrustedProxy.{get_ip}
use traefik_cluster_ratelimi.Http.{Request}
use traefik_cluster_ratelimi.Utils.{Extractor, SourceCriterion, get_source_extractor, is_some}
use traefik_cluster_ratelimi.Redis.Options.{Options}
use traefik_cluster_ratelimi.Limiter.{Limiter}
use traefik_cluster_ratelimi.Plugin.{ClusterRateLimit}
use traefik_cluster_ratelimi.Plugin.Config.{
  Config, subnet_in_force, subnet_message, check_limits, read_credentials, check_ipv6_subnet,
  has_ip_strategy, ip_strategy_of, counts_by_other,
}
use traefik_cluster_ratelimi.Plugin.New.{
  Derivation, exclusive_message, proxies_context, settle, new, derive, strategy_of, whitelist_of,
  walk_extractor,
}
use traefik_cluster_ratelimi.Plugin.New.Valid.{check_limits_cases, new_cases, settle_cases}

-- The fields that say where addresses come from.
abbrev pub address_fields : Config → List Bytes × Option SourceCriterion
address_fields config = (config.trusted_proxies, config.source_criterion)

check_limits-keeps :
    (config limited : Config)
    → check_limits config ≡ ok limited
    → address_fields limited ≡ address_fields config
check_limits-keeps config limited h =
    let (average, burst, mode, checked, same) = check_limits_cases config limited h in
    ap address_fields (sym same)

read_credentials-keeps_address :
    (getenv : Bytes → Bytes) (config credited : Config)
    → read_credentials getenv config ≡ ok credited
    → address_fields credited ≡ address_fields config
unfolding read_credentials
read_credentials-keeps_address getenv config credited h =
    let (both, h1) = check-eq-ok _ _ _ h in ap address_fields (sym (ok-inj _ credited h1))

check_ipv6_subnet-keeps_address :
    (config settled : Config)
    → check_ipv6_subnet config ≡ ok settled
    → address_fields settled ≡ address_fields config
unfolding check_ipv6_subnet
check_ipv6_subnet-keeps_address config settled h =
    let n = subnet_in_force config.ipv6_subnet in
    let (range, h1) =
      check-eq-ok (ltb_ℤ n (pos min_ipv6_subnet) || ltb_ℤ (pos max_ipv6_subnet) n)
        (subnet_message n) (ok (record config { ipv6_subnet = n })) h in
    ap address_fields (sym (ok-inj (record config { ipv6_subnet = n }) settled h1))

pub settle-keeps :
    (c : Codec) (getenv : Bytes → Bytes) {Client : Type 0} (new_client : Options → Result Client)
    (config settled : Config) (derivation : Derivation)
    → settle c getenv new_client config ≡ ok (settled, derivation)
    → address_fields settled ≡ address_fields config
unfolding settle
settle-keeps c getenv new_client config settled derivation h =
    let (limited, e1, h1) = >>=-eq-ok (check_limits config) _ h in
    let (credited, e2, h2) = >>=-eq-ok (read_credentials getenv limited) _ h1 in
    let (checked, e3, h3) = >>=-eq-ok (check_ipv6_subnet credited) _ h2 in
    let (derived, e4, h4) = >>=-eq-ok (derive c checked) _ h3 in
    let same = ok-inj _ _ h4 in
    ap (λ p. address_fields p.0) (sym same)
    ∙ check_ipv6_subnet-keeps_address credited checked e3
    ∙ read_credentials-keeps_address getenv limited credited e2
    ∙ check_limits-keeps config limited e1

-- What the middleware counts requests under, and whose address it derives, in either case.
abbrev IsDerived : Codec → Config → Strategy → Extractor → Type 0
IsDerived c config strategy matcher =
    ((checker : Checker) × (new_checker c config.trusted_proxies ≡ ok checker)
      × (strategy ≡ trusted_proxy (some checker))
      × (counts_by_other config.source_criterion ≡ false
          → matcher ≡ walk_extractor c checker config.ipv6_subnet))

strategy_of-walk :
    (c : Codec) (config : Config) (matcher matcher' : Extractor) (strategy : Strategy)
    → ltb 0 (length config.trusted_proxies) ≡ true
    → strategy_of c config matcher ≡ ok (strategy, matcher')
    → IsDerived c config strategy matcher'
unfolding strategy_of
strategy_of-walk c config matcher matcher' strategy given h =
    let (checker, e, h1) =
      >>=-eq-ok (with_context proxies_context (new_checker c config.trusted_proxies)) _
        (rw (given, strategy_of) at h) in
    let same = ok-inj _ _ h1 in
    (
      checker,
      with_context-eq-ok proxies_context (new_checker c config.trusted_proxies) e,
      ap (λ p. p.0) (sym same),
      λ plain. ap (λ p. p.1) (sym same) ∙ rw plain refl,
    )

-- The two ways of deriving addresses exclude each other, and one of them is given.
pub derive_cases :
    (c : Codec) (config : Config) (derivation : Derivation)
    → derive c config ≡ ok derivation
    → ((ltb 0 (length config.trusted_proxies) && has_ip_strategy config) ≡ false)
      × (matcher : Extractor) × (get_source_extractor c config.source_criterion ≡ ok matcher)
      × (strategy_of c config matcher ≡ ok (derivation.ip_strategy, derivation.source_matcher))
unfolding derive
derive_cases c config derivation h =
    let (exclusive, h1) =
      check-eq-ok (ltb 0 (length config.trusted_proxies) && has_ip_strategy config)
        exclusive_message _ h in
    let (matcher, e1, h2) = >>=-eq-ok (get_source_extractor c config.source_criterion) _ h1 in
    let (whitelist, e2, h3) = >>=-eq-ok (whitelist_of c config.whitelist_ips) _ h2 in
    let ((strategy, matcher'), e3, h4) = >>=-eq-ok (strategy_of c config matcher) _ h3 in
    let same = ok-inj _ derivation h4 in
    (exclusive, matcher, e1, e3 ∙ ap (λ d. ok (d.ip_strategy, d.source_matcher)) same)

ltb-length {ℓ} : {A : Type ℓ} (xs : List A) → xs ≢ [] → ltb 0 (length xs) ≡ true
ltb-length [] h = absurd (h refl)
ltb-length (x ∷ xs) h = lt→ltb _ _ (omega arith)

is_some-false {ℓ} : {A : Type ℓ} (o : Option A) → is_some o ≡ false → o ≡ none
is_some-false none h = refl
is_some-false (some a) h = cc

-- Without trusted proxies, an address is derived only where an ipStrategy is given.
strategy_of-given :
    (c : Codec) (config : Config) (matcher : Extractor) {r : Strategy × Extractor}
    → strategy_of c config matcher ≡ ok r
    → ip_strategy_of config.source_criterion ≡ none
    → config.trusted_proxies ≢ []
unfolding strategy_of
strategy_of-given c config matcher h absent empty =
    let h' = rw (strategy_of, empty, absent) at h in cc

module _ (c : Codec) (getenv : Bytes → Bytes) {Client : Type 0}
    (new_client : Options → Result Client) (config : Config) (name : Bytes) (now now' : ℤ)
    (rl : ClusterRateLimit) (limiter : Limiter) (client : Client)
    (made : new c getenv new_client config name now now' ≡ ok (rl, limiter, client)) where
  -- Of a configuration with trusted proxies New makes a middleware that derives each address by
  -- the walk over those proxies, and which, unless the configuration names a header or the host to
  -- count by, counts each request under the network of that address, at the prefix in force.
  pub new-buckets :
      config.trusted_proxies ≢ []
      → (checker : Checker) × (new_checker c config.trusted_proxies ≡ ok checker)
        × (rl.ip_strategy ≡ some (trusted_proxy (some checker)))
        × (counts_by_other config.source_criterion ≡ false
            → (req : Request)
            → rl.source_matcher req
              ≡ ok (subnet c (get_ip c (some checker) req) rl.ipv6_subnet, pos 1))
  new-buckets given =
      let (settled, derivation, e, same, _) =
        new_cases c getenv new_client config name now now' made in
      let (_, _, _, derived) = settle_cases c getenv new_client config settled derivation e in
      let (_, matcher, _, chosen) = derive_cases c settled derivation derived in
      let kept = settle-keeps c getenv new_client config settled derivation e in
      let proxies = ap (λ p. p.0) kept in
      let criterion = ap (λ p. p.1) kept in
      let (checker, parsed, strategy, counted) =
        strategy_of-walk c settled matcher derivation.source_matcher derivation.ip_strategy
          (rw proxies (ltb-length config.trusted_proxies given)) chosen in
      (
        checker,
        rw (← proxies) parsed,
        rw same (ap some strategy),
        λ plain req. rw same (rw (counted (rw criterion plain)) refl),
      )

  -- New succeeds only if exactly one way of deriving addresses is configured: there are trusted
  -- proxies exactly if there is no ipStrategy.
  new-explicit : (config.trusted_proxies ≢ []) ↔ (ip_strategy_of config.source_criterion ≡ none)
  new-explicit =
      let (settled, derivation, e, same, _) =
        new_cases c getenv new_client config name now now' made in
      let (_, _, _, derived) = settle_cases c getenv new_client config settled derivation e in
      let (exclusive, matcher, _, chosen) = derive_cases c settled derivation derived in
      let kept = settle-keeps c getenv new_client config settled derivation e in
      let proxies = ap (λ p. p.0) kept in
      let criterion = ap (λ p. p.1) kept in
      (
        λ given.
            let absent =
              rw (proxies, criterion, ltb-length config.trusted_proxies given) at exclusive in
            is_some-false (ip_strategy_of config.source_criterion) absent,
        λ absent empty.
            strategy_of-given c settled matcher chosen (ap ip_strategy_of criterion ∙ absent)
              (proxies ∙ empty),
      )
