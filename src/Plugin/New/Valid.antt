-- ===== src/Plugin/New/Valid.antt =====
-- What a middleware satisfies that New has made.
use traefik_cluster_ratelimi.Common.{
  ℕ, ◌≤◌, ◌≡◌, sym, ap, ◌∙◌, ◌⊎◌, inl, inr, false, ◌||◌, [], ◌∷◌, arith, Bool-cases, ltb_false→le,
  or_false, true, refl,
}
use traefik_cluster_ratelimi.Common.Int.{ℤ, pos, negsuc, pos_part, ◌≤ℤ◌, ltb_ℤ}
use traefik_cluster_ratelimi.Common.Bytes.{Bytes, codes, bytes_eq, bytes_eq_iff}
use traefik_cluster_ratelimi.Common.Result.{
  Result, ok, >>=-eq-ok, ok-inj, with_context, check-eq-ok,
}
use traefik_cluster_ratelimi.Ip.Net.{Codec}
use traefik_cluster_ratelimi.Ip.Subnet.{min_ipv6_subnet, max_ipv6_subnet}
use traefik_cluster_ratelimi.Redis.Options.{Options}
use traefik_cluster_ratelimi.Limiter.{Limiter, new_limiter}
use traefik_cluster_ratelimi.Plugin.{ClusterRateLimit, failure_mode_open, failure_mode_closed}
use traefik_cluster_ratelimi.Plugin.Config.{
  Config, at_least_one, with_defaults, subnet_in_force, subnet_message, check_limits,
  check_failure_mode, read_credentials, check_ipv6_subnet,
}
use traefik_cluster_ratelimi.Plugin.New.{
  Derivation, client_context, middleware_of, options_of, settle, new, derive,
}

-- A number from 1 on is taken as it was given, and the default in place of any other.
abbrev pub IsTaken : ℤ → ℤ → ℤ → Type 0
IsTaken given default taken =
    ((given ≤ℤ pos 0) × (taken ≡ default)) ⊎ ((pos 1 ≤ℤ given) × (taken ≡ given))

-- The bounds that New enforces, by a check or by a default, and what it takes from the configuration
-- as it is.
abbrev pub IsValid : Config → ClusterRateLimit → Type 0
IsValid config rl =
    (pos 0 ≤ℤ rl.average)
    × (rl.average ≡ config.average)
    × (pos 1 ≤ℤ rl.burst)
    × (rl.burst ≡ config.burst)
    × (pos 1 ≤ℤ rl.period)
    × IsTaken config.period (pos 1) rl.period
    × (pos 1 ≤ℤ rl.retry_after)
    × IsTaken config.breaker_reattempt (pos 15) rl.retry_after
    × ((rl.failure_mode ≡ failure_mode_open) ⊎ (rl.failure_mode ≡ failure_mode_closed))
    × (min_ipv6_subnet ≤ rl.ipv6_subnet)
    × (rl.ipv6_subnet ≤ max_ipv6_subnet)

abbrev IsLimited : Config → Config → Type 0
IsLimited given config =
    (pos 0 ≤ℤ config.average)
    × (config.average ≡ given.average)
    × (pos 1 ≤ℤ config.burst)
    × (config.burst ≡ given.burst)
    × (pos 1 ≤ℤ config.period)
    × IsTaken given.period (pos 1) config.period
    × (pos 1 ≤ℤ config.breaker_threshold)
    × (pos 1 ≤ℤ config.breaker_reattempt)
    × IsTaken given.breaker_reattempt (pos 15) config.breaker_reattempt
    × ((config.failure_mode ≡ failure_mode_open) ⊎ (config.failure_mode ≡ failure_mode_closed))

ltb_ℤ_false→le : (a b : ℤ) → ltb_ℤ a b ≡ false → b ≤ℤ a
ltb_ℤ_false→le a b h = ltb_false→le _ _ h

at_least_one-ge : (value : ℤ) (n : ℕ) → 1 ≤ n → pos 1 ≤ℤ at_least_one value (pos n)
at_least_one-ge value n h = elim (Bool-cases (ltb_ℤ value (pos 1))) [
  | inl low ↦ rw low (omega (arith, h))
  | inr high ↦ rw high (ltb_ℤ_false→le value (pos 1) high)
]

ltb_ℤ-one : (a : ℤ) → ltb_ℤ a (pos 1) ≡ true → a ≤ℤ pos 0
ltb_ℤ-one (pos n) h = ground arith
ltb_ℤ-one (negsuc n) h = ground arith

at_least_one-IsTaken : (value least : ℤ) → IsTaken value least (at_least_one value least)
at_least_one-IsTaken value least = elim (Bool-cases (ltb_ℤ value (pos 1))) [
  | inl low ↦ rw low (inl (ltb_ℤ-one value low, refl))
  | inr high ↦ rw high (inr (ltb_ℤ_false→le value (pos 1) high, refl))
]

check_failure_mode-ok :
    (mode result : Bytes)
    → check_failure_mode mode ≡ ok result
    → (result ≡ failure_mode_open) ⊎ (result ≡ failure_mode_closed)
unfolding check_failure_mode
check_failure_mode-ok [] result h = inr (sym (ok-inj _ _ h))
check_failure_mode-ok (b ∷ bs) result h = elim (Bool-cases (bytes_eq (b ∷ bs) failure_mode_open)) [
  | inl is_open ↦
      let h' = ok-inj _ _ (rw is_open at h) in inl (sym h' ∙ (bytes_eq_iff _ _).0 is_open)
  | inr not_open ↦ elim (Bool-cases (bytes_eq (b ∷ bs) failure_mode_closed)) [
    | inl is_closed ↦
        let h' = ok-inj _ _ (rw is_closed at (rw not_open at h)) in
        inr (sym h' ∙ (bytes_eq_iff _ _).0 is_closed)
    | inr other ↦ let h' = rw other at (rw not_open at h) in cc
  ]
]

-- The checks that `check_limits` was passed by, and what it gives.
pub check_limits_cases :
    (config limited : Config)
    → check_limits config ≡ ok limited
    → (ltb_ℤ config.average (pos 0) ≡ false)
      × (ltb_ℤ config.burst (pos 1) ≡ false)
      × (mode : Bytes) × (check_failure_mode config.failure_mode ≡ ok mode)
      × (with_defaults config mode ≡ limited)
unfolding check_limits
check_limits_cases config limited h =
    let (average, h1) =
      check-eq-ok (ltb_ℤ config.average (pos 0)) (codes "average must be >=0. 0 means unlimited") _
        h in
    let (burst, h2) = check-eq-ok (ltb_ℤ config.burst (pos 1)) (codes "burst must be >=1") _ h1 in
    let (mode, checked, h3) =
      >>=-eq-ok (check_failure_mode config.failure_mode) (λ mode. ok (with_defaults config mode))
        h2 in
    (average, burst, mode, checked, ok-inj (with_defaults config mode) limited h3)

check_limits-IsLimited :
    (config limited : Config) → check_limits config ≡ ok limited → IsLimited config limited
check_limits-IsLimited config limited h =
    let (average, burst, mode, checked, same) = check_limits_cases config limited h in
    rw (← same) (
      ltb_ℤ_false→le config.average (pos 0) average,
      refl,
      ltb_ℤ_false→le config.burst (pos 1) burst,
      refl,
      at_least_one-ge config.period 1 (omega arith),
      at_least_one-IsTaken config.period (pos 1),
      at_least_one-ge config.breaker_threshold 3 (omega arith),
      at_least_one-ge config.breaker_reattempt 15 (omega arith),
      at_least_one-IsTaken config.breaker_reattempt (pos 15),
      check_failure_mode-ok _ _ checked,
    )

read_credentials-keeps :
    (getenv : Bytes → Bytes) (given config credited : Config)
    → read_credentials getenv config ≡ ok credited
    → IsLimited given config
    → IsLimited given credited
unfolding read_credentials
read_credentials-keeps getenv given config credited h limited =
    let (both, h1) = check-eq-ok _ _ _ h in let same = ok-inj _ _ h1 in rw (← same) limited

check_ipv6_subnet-keeps :
    (given config settled : Config)
    → check_ipv6_subnet config ≡ ok settled
    → IsLimited given config
    → IsLimited given settled
      × (pos min_ipv6_subnet ≤ℤ settled.ipv6_subnet)
      × (settled.ipv6_subnet ≤ℤ pos max_ipv6_subnet)
unfolding check_ipv6_subnet
check_ipv6_subnet-keeps given config settled h limited =
    let n = subnet_in_force config.ipv6_subnet in
    let (range, h1) =
      check-eq-ok (ltb_ℤ n (pos min_ipv6_subnet) || ltb_ℤ (pos max_ipv6_subnet) n)
        (subnet_message n) (ok (record config { ipv6_subnet = n })) h in
    let (low, high) = or_false _ _ range in
    let same : record config { ipv6_subnet = n } ≡ settled = ok-inj _ _ h1 in
    rw (← same) (
      limited,
      ltb_ℤ_false→le n (pos min_ipv6_subnet) low,
      ltb_ℤ_false→le (pos max_ipv6_subnet) n high,
    )

-- What New puts together.
pub new_cases :
    (c : Codec) (getenv : Bytes → Bytes) {Client : Type 0} (new_client : Options → Result Client)
    (config : Config) (name : Bytes) (now now' : ℤ) {r : ClusterRateLimit × Limiter × Client}
    → new c getenv new_client config name now now' ≡ ok r
    → (settled : Config) × (derivation : Derivation) × (settle c getenv new_client config
        ≡ ok (settled, derivation))
      × (r.0 ≡ middleware_of settled derivation name)
      × (r.1 ≡ new_limiter name settled.breaker_threshold settled.breaker_reattempt now now')
unfolding new
new_cases c getenv new_client config name now now' h =
    let ((settled, derivation), e, h1) = >>=-eq-ok (settle c getenv new_client config) _ h in
    let (client, e1, h2) =
      >>=-eq-ok (with_context client_context (new_client (options_of settled))) _ h1 in
    let same = ok-inj _ _ h2 in
    (settled, derivation, e, ap (λ p. p.0) (sym same), ap (λ p. p.1) (sym same))

-- What the checks leave behind, together with what is derived from it.
abbrev IsSettled : Codec → Config → Config × Derivation → Type 0
IsSettled c config (settled, derivation) =
    IsLimited config settled
    × (pos min_ipv6_subnet ≤ℤ settled.ipv6_subnet)
    × (settled.ipv6_subnet ≤ℤ pos max_ipv6_subnet)
    × (derive c settled ≡ ok derivation)

IsSettled-carries :
    (c : Codec) (config : Config) {p q : Config × Derivation}
    → p ≡ q
    → IsSettled c config p
    → IsSettled c config q
IsSettled-carries c config e h = rw (← e) h

pub settle_cases :
    (c : Codec) (getenv : Bytes → Bytes) {Client : Type 0} (new_client : Options → Result Client)
    (config settled : Config) (derivation : Derivation)
    → settle c getenv new_client config ≡ ok (settled, derivation)
    → IsSettled c config (settled, derivation)
unfolding settle
settle_cases c getenv new_client config settled derivation h =
    let (limited, e1, h1) = >>=-eq-ok (check_limits config) _ h in
    let (credited, e2, h2) = >>=-eq-ok (read_credentials getenv limited) _ h1 in
    let (checked, e3, h3) = >>=-eq-ok (check_ipv6_subnet credited) _ h2 in
    let (derived, e4, h4) = >>=-eq-ok (derive c checked) _ h3 in
    let same = ok-inj _ _ h4 in
    let limited_kept =
      read_credentials-keeps getenv config limited credited e2
        (check_limits-IsLimited config limited e1) in
    let (a, low, high) = check_ipv6_subnet-keeps config credited checked e3 limited_kept in
    IsSettled-carries c config same (a, low, high, e4)

pos_part-bounds : (a : ℤ) (m n : ℕ) → pos m ≤ℤ a → a ≤ℤ pos n → (m ≤ pos_part a) × (pos_part a ≤ n)
pos_part-bounds (pos k) m n low high = (omega (arith, low), omega (arith, high))
pos_part-bounds (negsuc k) m n low high = (omega (arith, low), omega (arith, low))

-- A middleware that New returns has the rate and the burst of the configuration, and these are at
-- least 0 and 1. Its period and its retry-after are those of the configuration if these are at least
-- 1, and else 1 and 15. Its failure mode is open or closed, and its IPv6 prefix is from 32 to 64 bits
-- long.
pub new-IsValid :
    (c : Codec) (getenv : Bytes → Bytes) {Client : Type 0} (new_client : Options → Result Client)
    (config : Config) (name : Bytes) (now now' : ℤ) (rl : ClusterRateLimit) (limiter : Limiter)
    (client : Client)
    → new c getenv new_client config name now now' ≡ ok (rl, limiter, client)
    → IsValid config rl
new-IsValid c getenv new_client config name now now' rl limiter client h =
    let (settled, derivation, e, same, made) =
      new_cases c getenv new_client config name now now' h in
    let (
      (average, given, burst, given', period, taken, threshold, reattempt, taken', mode),
      low,
      high,
      e',
    ) =
      settle_cases c getenv new_client config settled derivation e in
    let (low', high') =
      pos_part-bounds settled.ipv6_subnet min_ipv6_subnet max_ipv6_subnet low high in
    rw same (average, given, burst, given', period, taken, reattempt, taken', mode, low', high')
