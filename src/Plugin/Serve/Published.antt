-- ===== src/Plugin/Serve/Published.antt =====
-- Which headers the next handler receives: the client's own, less what is destroyed, and what is published.
use traefik_cluster_ratelimi.Plugin.Serve.Publish.{
  resolve-agrees, publish-lines_other, publish-keeps,
}
use traefik_cluster_ratelimi.Common.{
  ℕ, ◌≡◌, refl, sym, ap, ◌∙◌, ◌≢◌, true, false, Option, none, some, [], ◌∷◌, or_false,
}
use traefik_cluster_ratelimi.Common.Bytes.{Bytes, codes, is_empty, bytes_eq}
use traefik_cluster_ratelimi.Common.Result.{ok, >>=-eq-ok, ok-inj}
use traefik_cluster_ratelimi.Http.{Request, lines, remove, set, canonical}
use traefik_cluster_ratelimi.Ip.Net.{Codec}
use traefik_cluster_ratelimi.Ip.Checker.{Checker}
use traefik_cluster_ratelimi.Ip.Strategy.{x_forwarded_for}
use traefik_cluster_ratelimi.Plugin.Serve.Admission.{serve_http-forwarded_iff, is_empty_iff}
use traefik_cluster_ratelimi.Plugin.Serve.Headers.{is_named, lines-destroy, destroy-keeps}
use traefik_cluster_ratelimi.Ip.Interface.{Strategy, trusted_proxy, strategy_get_ip}
use traefik_cluster_ratelimi.Ip.Subnet.{subnet_cidr}
use traefik_cluster_ratelimi.Ip.TrustedProxy.{Source, resolve, source_text, get_ip}
use traefik_cluster_ratelimi.Limiter.{Floats, Scripts}
use traefik_cluster_ratelimi.Plugin.{ClusterRateLimit}
use traefik_cluster_ratelimi.Plugin.Serve.{
  header_client_ip, header_client_ip_source, header_client_subnet, destroyed_headers, destroy,
  set_header, forwarded, publish_source, publish, identify, serve_http,
}
use traefik_cluster_ratelimi.Http.Laws.{lines-set}

-- A request that is passed on, as it leaves the deletions and the derivation.
serve_http-derived :
    (c : Codec) (f : Floats) {S : Type 0} (scripts : Scripts S) (rl : ClusterRateLimit) (s : S)
    (req req' : Request)
    → (serve_http c f scripts rl req s).0 ≡ ok (forwarded req')
    → (client_ip : Bytes) × (identify c rl (destroy destroyed_headers req) ≡ ok (client_ip, req'))
serve_http-derived c f scripts rl s req req' h =
    let (client_ip, e, pass) = (serve_http-forwarded_iff c f scripts rl s req req').0 h in
    (client_ip, e)

-- The address and the request that `identify` gives.
identify_cases :
    (c : Codec) (rl : ClusterRateLimit) (strategy : Strategy) (r req' : Request) (client_ip : Bytes)
    → rl.ip_strategy ≡ some strategy
    → identify c rl r ≡ ok (client_ip, req')
    → (strategy_get_ip c strategy r ≡ ok client_ip)
      × (publish c strategy rl.ipv6_subnet client_ip r ≡ req')
unfolding identify
identify_cases c rl strategy r req' client_ip e k =
    let (ip, got, k') = >>=-eq-ok _ _ (rw (e, identify) at k) in
    let same = ok-inj _ _ k' in
    let same_ip = ap (λ p. p.0) same in
    (
      got ∙ ap ok same_ip,
      ap (λ x. publish c strategy rl.ipv6_subnet x r) (sym same_ip) ∙ ap (λ p. p.1) same,
    )

identify-keeps :
    (c : Codec) (rl : ClusterRateLimit) (strategy : Option Strategy) (r req' : Request)
    (client_ip key : Bytes)
    → rl.ip_strategy ≡ strategy
    → is_named destroyed_headers key ≡ false
    → identify c rl r ≡ ok (client_ip, req')
    → (lines key req'.header ≡ lines key r.header)
      × (req'.remote_addr ≡ r.remote_addr)
      × (req'.host ≡ r.host)
unfolding identify
identify-keeps c rl none r req' client_ip key e h k =
    let same = ap (λ p. p.1) (ok-inj _ _ (rw (e, identify) at k)) in rw (← same) (refl, refl, refl)
identify-keeps c rl (some strategy) r req' client_ip key e h k =
    let (got, same) = identify_cases c rl strategy r req' client_ip e k in
    let (_, h1) = or_false _ _ h in
    let (_, h2) = or_false _ _ h1 in
    let (ip, h3) = or_false _ _ h2 in
    let (source, h4) = or_false _ _ h3 in
    let (net, _) = or_false _ _ h4 in
    let (peer, host) = publish-keeps c rl.ipv6_subnet client_ip r strategy in
    rw (← same)
      (publish-lines_other c rl.ipv6_subnet client_ip r strategy key ip source net, peer, host)

-- Of a request that is passed on, every header under another name than the destroyed ones reaches
-- the next handler with the lines it had, X-Forwarded-For among them, and so do the peer's address
-- and the host.
pub serve_http-passes_on :
    (c : Codec) (f : Floats) {S : Type 0} (scripts : Scripts S) (rl : ClusterRateLimit) (s : S)
    (req req' : Request) (key : Bytes)
    → (serve_http c f scripts rl req s).0 ≡ ok (forwarded req')
    → is_named destroyed_headers key ≡ false
    → (lines key req'.header ≡ lines key req.header)
      × (req'.remote_addr ≡ req.remote_addr)
      × (req'.host ≡ req.host)
serve_http-passes_on c f scripts rl s req req' key h named =
    let (client_ip, e) = serve_http-derived c f scripts rl s req req' h in
    let (kept, peer, host) =
      identify-keeps c rl rl.ip_strategy (destroy destroyed_headers req) req' client_ip key refl
        named e in
    let (peer', host') = destroy-keeps destroyed_headers req in
    let kept' = lines-destroy destroyed_headers req key in
    (kept ∙ kept' ∙ rw named refl, peer ∙ peer', host ∙ host')

-- The three headers hold the address, its network and the exit of the walk, and nothing else.
abbrev pub IsPublished : ClusterRateLimit → Codec → Request → Bytes → Source → Type 0
IsPublished rl c req client_ip source =
    (lines (canonical header_client_ip) req.header ≡ client_ip ∷ [])
    × (lines (canonical header_client_subnet) req.header
        ≡ subnet_cidr c client_ip rl.ipv6_subnet ∷ [])
    × (lines (canonical header_client_ip_source) req.header ≡ source_text source ∷ [])

publish-trusted_proxy :
    (c : Codec) (rl : ClusterRateLimit) (checker : Option Checker) (r : Request) (client_ip : Bytes)
    → is_empty client_ip ≡ false
    → IsPublished rl c
        (publish c (trusted_proxy checker) rl.ipv6_subnet client_ip r)
        client_ip
        (resolve c checker r).1
unfolding publish publish_source set_header canonical set lines remove
publish-trusted_proxy c rl checker r client_ip known = rw known (
  refl,
  refl,
  ap (λ p. source_text p.1 ∷ [])
      (resolve-agrees c checker _ r refl (
        lines-set (set r.header header_client_ip client_ip) header_client_subnet
          (subnet_cidr c client_ip rl.ipv6_subnet) (canonical x_forwarded_for)
        ∙ lines-set r.header header_client_ip client_ip (canonical x_forwarded_for))),
)

-- The deletions do not change what the walk gives.
resolve-destroy :
    (c : Codec) (checker : Option Checker) (req : Request)
    → resolve c checker (destroy destroyed_headers req) ≡ resolve c checker req
unfolding canonical
resolve-destroy c checker req =
    let (peer, host) = destroy-keeps destroyed_headers req in
    resolve-agrees c checker _ req peer
      (lines-destroy destroyed_headers req (canonical x_forwarded_for))

-- A destroyed header that is not published again is gone.
publish-gone :
    (c : Codec) (strategy : Strategy) (n : ℕ) (client_ip : Bytes) (req : Request) (key : Bytes)
    → is_named destroyed_headers key ≡ true
    → bytes_eq (canonical header_client_ip) key ≡ false
    → bytes_eq (canonical header_client_ip_source) key ≡ false
    → bytes_eq (canonical header_client_subnet) key ≡ false
    → lines key (publish c strategy n client_ip (destroy destroyed_headers req)).header ≡ []
publish-gone c strategy n client_ip req key named ip source net =
    publish-lines_other c n client_ip _ strategy key ip source net
    ∙ lines-destroy destroyed_headers req key
    ∙ rw named refl

-- Behind trusted proxies, a request that is passed on and whose address is known carries exactly
-- the address, its network and the exit that the walk over the client's request gives, and neither
-- Forwarded nor X-Real-Ip.
pub serve_http-publishes :
    (c : Codec) (f : Floats) {S : Type 0} (scripts : Scripts S) (rl : ClusterRateLimit) (s : S)
    (req req' : Request) (checker : Option Checker) (client_ip : Bytes) (source : Source)
    → rl.ip_strategy ≡ some (trusted_proxy checker)
    → (serve_http c f scripts rl req s).0 ≡ ok (forwarded req')
    → resolve c checker req ≡ (client_ip, source)
    → client_ip ≢ []
    → IsPublished rl c req' client_ip source
      × (lines (codes "Forwarded") req'.header ≡ [])
      × (lines (codes "X-Real-Ip") req'.header ≡ [])
unfolding strategy_get_ip get_ip canonical
serve_http-publishes c f scripts rl s req req' checker client_ip source e h walked known =
    let r = destroy destroyed_headers req in
    let (ip, derived) = serve_http-derived c f scripts rl s req req' h in
    let (got, made) = identify_cases c rl (trusted_proxy checker) r req' ip e derived in
    let walked' = resolve-destroy c checker req ∙ walked in
    let same : ip ≡ client_ip = sym (ok-inj _ _ got) ∙ ap (λ p. p.0) walked' in
    let made' : publish c (trusted_proxy checker) rl.ipv6_subnet client_ip r ≡ req' =
      rw (← same) made in
    let written =
      publish-trusted_proxy c rl checker r client_ip ((is_empty_iff client_ip).1 known) in
    rw (← made') (
      rw (ap (λ p. p.1) walked') at written,
      publish-gone c (trusted_proxy checker) rl.ipv6_subnet client_ip req _ refl refl refl refl,
      publish-gone c (trusted_proxy checker) rl.ipv6_subnet client_ip req _ refl refl refl refl,
    )
