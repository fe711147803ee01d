-- ===== src/Tests/Requests.antt =====
-- Examples of the theorems on ServeHTTP. The scripts of the examples count the calls and allow the
-- first two of them.
use traefik_cluster_ratelimi.Common.{
  ◌*◌, ◌<◌, ◌≤◌, arith, ◌+◌, ℕ, suc, ◌≡◌, refl, ◌↔◌, ◌≢◌, ◌++◌, false, none, some, [], ◌∷◌,
  if◌then◌else◌, ltb,
}
use traefik_cluster_ratelimi.Common.Int.{ℤ, pos}
use traefik_cluster_ratelimi.Common.Bytes.{
  Bytes, codes, trim_space, split, trim_prefix, trim_suffix,
}
use traefik_cluster_ratelimi.Common.Result.{Result, ok}
use traefik_cluster_ratelimi.Http.{Request, lines, get, canonical, remove, del, set}
use traefik_cluster_ratelimi.Ip.Net.{equal, split_host_port, mask, cidr_mask, cidr_mask_bytes, to4}
use traefik_cluster_ratelimi.Ip.Subnet.{subnet_cidr, network_text}
use traefik_cluster_ratelimi.Common.Decimal.{itoa}
use traefik_cluster_ratelimi.Ip.Checker.{contains, contains_ip, any_equal}
use traefik_cluster_ratelimi.Ip.Interface.{trusted_proxy, strategy_get_ip}
use traefik_cluster_ratelimi.Ip.TrustedProxy.{
  xff, source_text, resolve, remote_addr_ip, resolve_header, walk, normalise_entry, get_ip,
}
use traefik_cluster_ratelimi.Redis.Value.{Answer, array, text, integer}
use traefik_cluster_ratelimi.Limiter.{Verdict, Floats, Scripts, allow, allow_n, parse_answer, dur}
use traefik_cluster_ratelimi.Plugin.{ClusterRateLimit, failure_mode_open}
use traefik_cluster_ratelimi.Plugin.Serve.{
  destroyed_headers, destroy, forwarded, answered, limit_of, publish, publish_source, set_header,
  identify, is_whitelisted, decide, limit_request, admit, serve_http,
}
use traefik_cluster_ratelimi.Plugin.Serve.Admission.{IsExempt, MayPass, serve_http-forwarded_iff}
use traefik_cluster_ratelimi.Plugin.Serve.RetryAfter.{serve_http-retry_after}
use traefik_cluster_ratelimi.Plugin.Serve.Headers.{serve_http-ignores}
use traefik_cluster_ratelimi.Plugin.Serve.Published.{
  IsPublished, serve_http-passes_on, serve_http-publishes,
}
use traefik_cluster_ratelimi.Tests.Data.{raw, proxies, from_proxy}

abbrev pub whole_seconds : Floats
whole_seconds = record {
  Float = ℤ;
  parse_float = λ s. ok (pos 1);
  is_minus_one = λ x. false;
  nanoseconds = λ x. pos 1000000000;
}

abbrev answer_at : ℕ → Result Answer × ℕ
answer_at calls = (
  ok (
      array (
        integer (if ltb calls 2 then pos 1 else pos 0)
        ∷ integer (pos 0)
        ∷ text (codes "1")
        ∷ text (codes "1")
        ∷ [])),
  suc calls,
)

abbrev two_calls : Scripts ℕ
two_calls = record {
  run_allow_n = λ keys args calls. answer_at calls;
  run_allow_at_most = λ keys args calls. answer_at calls;
  run_del = λ key calls. (ok tt, calls);
}

abbrev pub behind_proxies : ClusterRateLimit
behind_proxies = record {
  limiter_prefix = codes "rate_";
  average = pos 1;
  burst = pos 2;
  period = pos 1;
  source_matcher = λ req. ok (codes "key", pos 1);
  whitelist_checker = none;
  ip_strategy = some (trusted_proxy (some proxies));
  failure_mode = failure_mode_open;
  ipv6_subnet = 64;
  retry_after = pos 15;
}

abbrev pub request : Request
request = from_proxy (codes "client-address-1,proxy-address-02")

abbrev pub passed : Request
passed = record {
  remote_addr = request.remote_addr;
  host = request.host;
  header =
      (codes "Gateway-Connecting-Ip-Source", codes "xff" ∷ [])
      ∷ (
        codes "Gateway-Connecting-Subnet",
        (codes "client-a" ++ 0 ∷ 0 ∷ 0 ∷ 0 ∷ 0 ∷ 0 ∷ 0 ∷ 0 ∷ codes "/64") ∷ [],
      )
      ∷ (codes "Gateway-Connecting-Ip", codes "client-address-1" ∷ [])
      ∷ (codes "X-Forwarded-For", codes "client-address-1,proxy-address-02" ∷ [])
      ∷ [];
}

serve_http-forwarded_iff_example :
    ((serve_http raw whole_seconds two_calls behind_proxies request 0).0 ≡ ok (forwarded passed))
    ↔ ((client_ip : Bytes) × (identify raw behind_proxies (destroy destroyed_headers request)
          ≡ ok (client_ip, passed))
        × MayPass raw whole_seconds two_calls behind_proxies 0 client_ip passed)
serve_http-forwarded_iff_example =
    serve_http-forwarded_iff raw whole_seconds two_calls behind_proxies 0 request passed

serve_http-ignores_example :
    serve_http raw whole_seconds two_calls behind_proxies request 0
    ≡ serve_http raw whole_seconds two_calls behind_proxies
        (record request {
          header = (codes "X-Forwarded-For", codes "client-address-1,proxy-address-02" ∷ []) ∷ [];
        })
        0
unfolding canonical
serve_http-ignores_example =
    serve_http-ignores raw whole_seconds two_calls behind_proxies request 0 (codes "Forwarded")
      (codes "for=1.2.3.4" ∷ [])
      ((codes "X-Forwarded-For", codes "client-address-1,proxy-address-02" ∷ []) ∷ []) [] refl

served : (serve_http raw whole_seconds two_calls behind_proxies request 0).0 ≡ ok (forwarded passed)
unfolding serve_http destroy identify publish publish_source set_header admit is_whitelisted
    limit_request decide strategy_get_ip get_ip resolve contains remote_addr_ip split_host_port
    contains_ip any_equal equal resolve_header trim_space get lines canonical split walk
    normalise_entry trim_prefix trim_suffix allow allow_n parse_answer dur del set remove
    subnet_cidr network_text mask cidr_mask cidr_mask_bytes to4 itoa source_text
served = refl

serve_http-passes_on_example :
    (lines (codes "X-Forwarded-For") passed.header ≡ lines (codes "X-Forwarded-For") request.header)
    × (passed.remote_addr ≡ request.remote_addr)
    × (passed.host ≡ request.host)
unfolding canonical
serve_http-passes_on_example =
    serve_http-passes_on raw whole_seconds two_calls behind_proxies 0 request passed
      (codes "X-Forwarded-For") served refl

walked : resolve raw (some proxies) request ≡ (codes "client-address-1", xff)
unfolding resolve contains remote_addr_ip split_host_port contains_ip any_equal equal resolve_header
    trim_space get lines canonical split walk normalise_entry trim_prefix trim_suffix
walked = refl

known : ◌≢◌ {A = Bytes} (codes "client-address-1") []
known e = cc

serve_http-publishes_example :
    IsPublished behind_proxies raw passed (codes "client-address-1") xff
    × (lines (codes "Forwarded") passed.header ≡ [])
    × (lines (codes "X-Real-Ip") passed.header ≡ [])
serve_http-publishes_example =
    serve_http-publishes raw whole_seconds two_calls behind_proxies 0 request passed (some proxies)
      (codes "client-address-1") xff refl served walked known

pub unlisted : IsExempt raw behind_proxies.whitelist_checker (codes "client-address-1") → ⊥
unlisted h = h

pub limited : behind_proxies.average ≢ pos 0
limited e = cc

pub identified :
    identify raw behind_proxies (destroy destroyed_headers request)
    ≡ ok (codes "client-address-1", passed)
unfolding serve_http destroy identify publish publish_source set_header admit is_whitelisted
    limit_request decide strategy_get_ip get_ip resolve contains remote_addr_ip split_host_port
    contains_ip any_equal equal resolve_header trim_space get lines canonical split walk
    normalise_entry trim_prefix trim_suffix allow allow_n parse_answer dur del set remove
    subnet_cidr network_text mask cidr_mask cidr_mask_bytes to4 itoa source_text
identified = refl

abbrev verdict : Verdict
verdict = record {
  limit = limit_of raw behind_proxies;
  allowed = pos 0;
  remaining = pos 0;
  retry_after = pos 1000000000;
  reset_after = pos 1000000000;
}

third_call :
    (allow whole_seconds two_calls behind_proxies.limiter_prefix
      (codes "key")
      (limit_of raw behind_proxies)
      2).0
    ≡ ok verdict
unfolding allow allow_n parse_answer dur
third_call = refl

serve_http-retry_after_example :
    (seconds : ℕ) × ((serve_http raw whole_seconds two_calls behind_proxies request 2).0
      ≡ ok (answered 429 (some (pos seconds))))
    × (1000000000 < seconds * 1000000000)
    × (seconds * 1000000000 ≤ 1000000000 + 1000000000)
serve_http-retry_after_example =
    serve_http-retry_after raw whole_seconds two_calls behind_proxies 2 request passed
      (codes "client-address-1") (codes "key") (pos 1) verdict 1000000000 limited unlisted
      identified refl third_call (omega arith) refl (omega arith)
