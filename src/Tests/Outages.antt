-- ===== src/Tests/Outages.antt =====
-- Examples of the theorems on the middleware over the breaker and the client.
use mathlib.Core.List.{append-nil}
use traefik_cluster_ratelimi.Common.{
  ◌≡◌, refl, sym, some, List, [], ◌∷◌, map, true, if◌then◌else◌, arith,
}
use traefik_cluster_ratelimi.Common.Int.{ℤ, pos, ◌+ℤ◌, leb_ℤ, quot_ℤ, wrap64, int_laws}
use traefik_cluster_ratelimi.Common.Bytes.{
  Bytes, codes, trim_space, split, trim_prefix, trim_suffix,
}
use traefik_cluster_ratelimi.Common.Result.{Result, ok, err}
use traefik_cluster_ratelimi.Common.Decimal.{itoa}
use traefik_cluster_ratelimi.Http.{Request, lines, get, canonical, remove, del, set}
use traefik_cluster_ratelimi.Ip.Net.{equal, split_host_port, mask, cidr_mask, cidr_mask_bytes, to4}
use traefik_cluster_ratelimi.Ip.Subnet.{subnet_cidr, network_text}
use traefik_cluster_ratelimi.Ip.Checker.{contains, contains_ip, any_equal}
use traefik_cluster_ratelimi.Ip.Interface.{strategy_get_ip}
use traefik_cluster_ratelimi.Ip.TrustedProxy.{
  source_text, resolve, remote_addr_ip, resolve_header, walk, normalise_entry, get_ip,
}
use traefik_cluster_ratelimi.Redis.Value.{Answer}
use traefik_cluster_ratelimi.Redis.Resp.{command}
use traefik_cluster_ratelimi.Redis.Network.{World, sent, close, send_command}
use traefik_cluster_ratelimi.Redis.Breaker.{
  Breaker, attempts, breaker_opened, after_error, new_script_with_breaker,
}
use traefik_cluster_ratelimi.Redis.Client.Pool
use traefik_cluster_ratelimi.Redis.Client.Pool.{with_conn, exchange}
use traefik_cluster_ratelimi.Redis.Client.Answered.{returned}
use traefik_cluster_ratelimi.Redis.Script.{run, run_on}
use traefik_cluster_ratelimi.Redis.Script.Cached.{eval_command}
use traefik_cluster_ratelimi.Limiter.{dur, args_of}
use traefik_cluster_ratelimi.Limiter.Rig.{Rig, rigged}
use traefik_cluster_ratelimi.Plugin.Serve.{
  answered, forwarded, destroy, limit_of, publish, publish_source, set_header, identify,
  is_whitelisted, serve_http,
}
use traefik_cluster_ratelimi.Plugin.Shared.{counted_under}
use traefik_cluster_ratelimi.Plugin.Answered.{serve_http-rigged}
use traefik_cluster_ratelimi.Plugin.Outage.{
  refusing, elapse, elapsed, serve_timed, serve_timed-refused,
}
use traefik_cluster_ratelimi.Plugin.Outage.Start.{serve_timed-outage}
use traefik_cluster_ratelimi.Tests.Data.{raw}
use traefik_cluster_ratelimi.Tests.Requests.{
  whole_seconds, behind_proxies, request, passed, identified, unlisted, limited,
}
use traefik_cluster_ratelimi.Tests.Servers.{
  server, severed, client, sha, pool, print_seconds, has_lf_false→HasNoLf,
}
use traefik_cluster_ratelimi.Tests.Scripted.{script, floats, rigged_scripts, answering}

abbrev clock : List Bytes → ℤ
clock w = pos 5

-- A breaker that has counted some errors, in front of one idle connection.
abbrev troubled : ℤ → ℤ → Rig (List Bytes)
troubled errors next =
    let breaker : Breaker = record {
      error_count = errors;
      next_attempt = next;
      breaker_threshold = pos 3;
      reattempt_period = pos 15;
    } in
    record { allow_n_breaker = breaker; allow_at_most_breaker = breaker; world = pool [] sha }

abbrev requests : List ((List Bytes → List Bytes) × Request)
requests = (λ w. [] ∷ w, request) ∷ (λ w. [] ∷ w, request) ∷ []

counted : counted_under raw behind_proxies request ≡ some (codes "rate_key")
unfolding counted_under serve_http destroy identify publish publish_source set_header is_whitelisted
    strategy_get_ip get_ip resolve contains remote_addr_ip split_host_port contains_ip any_equal
    equal resolve_header trim_space get lines canonical split walk normalise_entry trim_prefix
    trim_suffix del set remove subnet_cidr network_text mask cidr_mask cidr_mask_bytes to4 itoa
    source_text
counted = refl

abbrev severed_run : Result Answer × World (List Bytes)
severed_run =
    run severed print_seconds client script (codes "rate_key" ∷ [])
      (args_of whole_seconds (rigged severed clock print_seconds client script script)
        behind_proxies.limiter_prefix (limit_of raw behind_proxies) (pos 1))
      (record (pool [] sha) { env = [] ∷ [] })

broke : severed_run ≡ (err (codes "error setting deadline: closed"), severed_run.1)
unfolding run run_on with_conn exchange send_command Pool.get Pool.put close
broke = refl

ready : attempts (troubled (pos 2) (pos 0)).allow_n_breaker (pos 5) ≡ true
unfolding attempts
ready = refl

serve_timed-outage_example :
    serve_timed raw whole_seconds behind_proxies severed clock print_seconds client script script
      ((λ w. [] ∷ w, request) ∷ requests)
      (troubled (pos 2) (pos 0))
    ≡ (
      (serve_http raw whole_seconds
            (refusing (codes "error setting deadline: closed"))
            behind_proxies
            request
            tt).0
          ∷ map
              (λ (_, req).
                (serve_http raw whole_seconds (refusing breaker_opened) behind_proxies req tt).0)
              requests,
      elapse (elapsed requests) (record (troubled (pos 2) (pos 0)) {
        allow_n_breaker = after_error (troubled (pos 2) (pos 0)).allow_n_breaker (pos 5);
        world = severed_run.1;
      }),
    )
serve_timed-outage_example =
    serve_timed-outage raw whole_seconds behind_proxies severed clock print_seconds client script
      script (λ w. [] ∷ w) request requests (troubled (pos 2) (pos 0)) (codes "rate_key")
      (codes "error setting deadline: closed") severed_run.1 2 15 counted ready broke refl
      (omega arith) (omega arith) (omega arith) refl (omega arith)
      (omega int_laws, (omega int_laws, tt))

serve_timed-refused_example :
    serve_timed raw whole_seconds behind_proxies severed clock print_seconds client script script
      requests
      (troubled (pos 3) (pos 20))
    ≡ (
      map
          (λ (_, req).
            (serve_http raw whole_seconds (refusing breaker_opened) behind_proxies req tt).0)
          requests,
      elapse (elapsed requests) (troubled (pos 3) (pos 20)),
    )
serve_timed-refused_example =
    serve_timed-refused raw whole_seconds behind_proxies severed clock print_seconds client script
      script requests (troubled (pos 3) (pos 20)) (omega arith) (omega arith, (omega arith, tt))

serve_http-rigged_example :
    serve_http raw floats rigged_scripts behind_proxies request answering ≡ (
      ok (
          if leb_ℤ (pos 1) (pos 0)
          then answered 429 (some (wrap64 (quot_ℤ (dur floats (pos 2)) 1000000000 +ℤ pos 1)))
          else forwarded passed),
      record answering {
        allow_n_breaker = record answering.allow_n_breaker { error_count = pos 0 };
        world =
            returned 7 []
              (sent 7 (
                  command (
                    eval_command print_seconds
                      (codes "rate_key" ∷ [])
                      (args_of floats rigged_scripts behind_proxies.limiter_prefix
                        (limit_of raw behind_proxies)
                        (pos 1))
                      sha))
                ∷ [])
              []
              answering.world;
      },
    )
unfolding new_script_with_breaker attempts
serve_http-rigged_example =
    serve_http-rigged server clock print_seconds client script script raw floats behind_proxies
      request passed (codes "client-address-1") (codes "key") (pos 1) 7 [] answering [] (pos 1)
      (pos 9) (codes "-1") (codes "0.5") (pos 2) (pos 3) limited unlisted identified refl refl refl
      refl refl (omega arith) (omega arith) (omega arith) (has_lf_false→HasNoLf (codes "-1") refl)
      (has_lf_false→HasNoLf (codes "0.5") refl) refl refl
      (refl, refl, ([], sym (append-nil _)), refl)
