-- ===== src/Plugin/Serve/Admission.antt =====
-- Which requests reach the next handler, and what the others are answered.
use traefik_cluster_ratelimi.Common.{
  ◌≡◌, refl, sym, ap, ◌∙◌, ◌≢◌, ◌↔◌, ◌⊎◌, inl, inr, Bool, true, false, not, ◌&&◌, Option, none,
  some, [], ◌∷◌, arith, Bool-cases, Option-cases, leb_false→lt, leb→le, ==_iff, ==_refl, &&-eq-true,
}
use traefik_cluster_ratelimi.Common.Int.{ℤ, pos, ◌<ℤ◌, leb_ℤ, eqb_ℤ, eq_of_parts}
use traefik_cluster_ratelimi.Common.Bytes.{Bytes, is_empty, bytes_eq, bytes_eq_iff}
use traefik_cluster_ratelimi.Common.Result.{Result, ok, err, panic}
use traefik_cluster_ratelimi.Http.{Request}
use traefik_cluster_ratelimi.Ip.Net.{Codec}
use traefik_cluster_ratelimi.Ip.Checker.{Checker, contains}
use traefik_cluster_ratelimi.Ip.TrustedProxy.{is_ok_true}
use traefik_cluster_ratelimi.Limiter.{Floats, Scripts, Verdict, allow}
use traefik_cluster_ratelimi.Plugin.{ClusterRateLimit, failure_mode_open}
use traefik_cluster_ratelimi.Plugin.Serve.{
  destroyed_headers, destroy, forwarded, identify, is_whitelisted, limit_of, decide, limit_request,
  admit, serve_http,
}

pub eqb_ℤ_iff : (a b : ℤ) → (eqb_ℤ a b ≡ true) ↔ (a ≡ b)
eqb_ℤ_iff a b = (λ e. eq_of_parts a b ((==_iff _ _).0 e), λ e. rw e (==_refl _))

is_ok_true_iff : (r : Result Bool) → (is_ok_true r ≡ true) ↔ (r ≡ ok true)
is_ok_true_iff (ok b) = (λ e. ap ok e, λ e. cc)
is_ok_true_iff (err e) = (λ h. cc, λ h. cc)
is_ok_true_iff panic = (λ h. cc, λ h. cc)

-- The limiter's answer lets a counted request pass: it allows events, or it failed and the mode is
-- open.
abbrev pub Passes : ClusterRateLimit → Result Verdict → Type 0
Passes rl (ok v) = pos 0 <ℤ v.allowed
Passes rl (err e) = rl.failure_mode ≡ failure_mode_open
Passes rl panic = ⊥

-- The address is in the list of those that are not limited.
abbrev pub IsExempt : Codec → Option Checker → Bytes → Type 0
IsExempt c none client_ip = ⊥
IsExempt c (some checker) client_ip = (client_ip ≢ []) × (contains c checker client_ip ≡ ok true)

pub is_empty_iff : (s : Bytes) → (is_empty s ≡ false) ↔ (s ≢ [])
is_empty_iff [] = (λ e. cc, λ h. absurd (h refl))
is_empty_iff (b ∷ bs) = (λ e h. cc, λ h. refl)

not-true : (b : Bool) → not b ≡ true → b ≡ false
not-true true e = cc
not-true false e = refl

true-ne-false : ◌≡◌ {A = Bool} true false → ⊥
true-ne-false e = cc

module _ (c : Codec) (rl : ClusterRateLimit) where
  whitelist_iff :
      (checker : Checker) (client_ip : Bytes)
      → ((not (is_empty client_ip) && is_ok_true (contains c checker client_ip)) ≡ true)
        ↔ ((client_ip ≢ []) × (contains c checker client_ip ≡ ok true))
  whitelist_iff checker client_ip =
      let (to, back) = is_empty_iff client_ip in
      let (to', back') = is_ok_true_iff (contains c checker client_ip) in
      (
        λ e. let (h, k) = &&-eq-true _ _ e in (to (not-true _ h), to' k),
        λ (h, k). rw (back h) (back' k),
      )

  pub is_whitelisted_iff :
      (client_ip : Bytes)
      → (is_whitelisted c rl client_ip ≡ true) ↔ IsExempt c rl.whitelist_checker client_ip
  unfolding is_whitelisted
  is_whitelisted_iff client_ip = elim (Option-cases rl.whitelist_checker) [
    | inl e ↦ rw (e, is_whitelisted) (λ h. cc, λ h. absurd h)
    | inr (checker, e) ↦ rw (e, is_whitelisted) (whitelist_iff checker client_ip)
  ]

  pub decide-forwarded_iff :
      (req req' : Request) (r : Result Verdict)
      → (decide c rl req r ≡ ok (forwarded req')) ↔ ((req ≡ req') × Passes rl r)
  unfolding decide
  decide-forwarded_iff req req' (ok v) = elim (Bool-cases (leb_ℤ v.allowed (pos 0))) [
    | inl over ↦ rw over (λ e. cc, λ h. absurd (omega (arith, leb→le _ _ over, h.1)))
    | inr under ↦ rw under (λ e. (cc, leb_false→lt _ _ under), λ h. cc (h.0))
  ]
  decide-forwarded_iff req req' (err e) =
      elim (Bool-cases (bytes_eq rl.failure_mode failure_mode_open)) [
        | inl open_mode ↦ rw open_mode (λ e. (cc, (bytes_eq_iff _ _).0 open_mode), λ h. cc (h.0))
        | inr closed ↦ rw closed (λ e. cc, λ h. let e' = (bytes_eq_iff _ _).1 h.1 in cc)
      ]
  decide-forwarded_iff req req' panic = (λ e. cc, λ h. absurd h.1)

module _ (c : Codec) (f : Floats) {S : Type 0} (scripts : Scripts S) (rl : ClusterRateLimit)
    (s : S) where
  -- A key is derived from the request, and the limiter's answer for it lets it pass.
  abbrev pub PassesLimit : Result (Bytes × ℤ) → Type 0
  PassesLimit (ok (key, amount)) =
      Passes rl (allow f scripts rl.limiter_prefix key (limit_of c rl) s).0
  PassesLimit (err e) = ⊥
  PassesLimit panic = ⊥

  limit_request-forwarded_iff :
      (req req' : Request) (key : Result (Bytes × ℤ))
      → rl.source_matcher req ≡ key
      → ((limit_request c f scripts rl req s).0 ≡ ok (forwarded req'))
        ↔ ((req ≡ req') × PassesLimit key)
  unfolding limit_request
  limit_request-forwarded_iff req req' (ok (key, amount)) e =
      rw (e, limit_request) (decide-forwarded_iff c rl req req' _)
  limit_request-forwarded_iff req req' (err x) e = rw (e, limit_request) (λ h. cc, λ h. absurd h.1)
  limit_request-forwarded_iff req req' panic e = rw (e, limit_request) (λ h. cc, λ h. absurd h.1)

  -- The reasons for which a request may reach the next handler.
  abbrev pub MayPass : Bytes → Request → Type 0
  MayPass client_ip req =
      (rl.average ≡ pos 0)
      ⊎ IsExempt c rl.whitelist_checker client_ip
      ⊎ PassesLimit (rl.source_matcher req)

  admit-forwarded_iff :
      (client_ip : Bytes) (req req' : Request)
      → ((admit c f scripts rl client_ip req s).0 ≡ ok (forwarded req'))
        ↔ ((req ≡ req') × MayPass client_ip req)
  unfolding admit
  admit-forwarded_iff client_ip req req' =
      let (unlimited, back) = eqb_ℤ_iff rl.average (pos 0) in
      let (exempt, back') = is_whitelisted_iff c rl client_ip in
      let (counted, back'') = limit_request-forwarded_iff req req' (rl.source_matcher req) refl in
      elim (Bool-cases (eqb_ℤ rl.average (pos 0))) [
        | inl free ↦ rw free (λ e. (cc, inl (unlimited free)), λ h. cc (h.0))
        | inr limited ↦ elim (Bool-cases (is_whitelisted c rl client_ip)) [
          | inl listed ↦
              rw limited (rw listed (λ e. (cc, inr (inl (exempt listed))), λ h. cc (h.0)))
          | inr unlisted ↦ rw limited (
              rw unlisted (
                λ e. let (same, pass) = counted e in (same, inr (inr pass)),
                λ (same, pass). elim pass [
                  | inl free ↦ let free' = back free in absurd (true-ne-false (sym free' ∙ limited))
                  | inr (inl listed) ↦
                      let listed' = back' listed in absurd (true-ne-false (sym listed' ∙ unlisted))
                  | inr (inr pass') ↦ back'' (same, pass')
                ],
              ))
        ]
      ]

  pub serve_http_of :
      (req : Request) (client_ip : Bytes) (req' : Request)
      → identify c rl (destroy destroyed_headers req) ≡ ok (client_ip, req')
      → serve_http c f scripts rl req s ≡ admit c f scripts rl client_ip req' s
  unfolding serve_http
  serve_http_of req client_ip req' e = rw (e, serve_http)

  serve_http-identified :
      (req req' : Request) (i : Result (Bytes × Request))
      → identify c rl (destroy destroyed_headers req) ≡ i
      → (serve_http c f scripts rl req s).0 ≡ ok (forwarded req')
      → (client_ip : Bytes) × (r : Request) × (i ≡ ok (client_ip, r))
  unfolding serve_http
  serve_http-identified req req' (ok (client_ip, r)) e h = (client_ip, r, refl)
  serve_http-identified req req' (err x) e h = let h' = rw (e, serve_http) at h in cc
  serve_http-identified req req' panic e h = let h' = rw (e, serve_http) at h in cc

  -- A request reaches the next handler exactly if its address was derived without a panic and the
  -- route is not limited, or the address is on the whitelist, or the limiter counted it under its
  -- key and allows it, or the limiter failed and the mode is open. What the handler receives is the
  -- request with the destroyed headers deleted and the derived address published.
  pub serve_http-forwarded_iff :
      (req req' : Request)
      → ((serve_http c f scripts rl req s).0 ≡ ok (forwarded req')) ↔ (
          (client_ip : Bytes) × (identify c rl (destroy destroyed_headers req)
            ≡ ok (client_ip, req'))
          × MayPass client_ip req')
  serve_http-forwarded_iff req req' = (
    λ h.
        let (client_ip, r, e) = serve_http-identified req req' _ refl h in
        let (same, pass) =
          (admit-forwarded_iff client_ip r req').0 (rw (serve_http_of req client_ip r e) at h) in
        (client_ip, rw (← same) e, rw (← same) pass),
    λ (client_ip, e, pass).
        rw (serve_http_of req client_ip req' e)
          ((admit-forwarded_iff client_ip req' req').1 (refl, pass)),
  )
