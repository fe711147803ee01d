-- ===== src/Tests/Shared.antt =====
-- Examples of the theorems on instances that share one Redis. It reads the commands that it is sent, and
-- counts under each key the scripts that are run on it; every connection has a reply to come.
use mathlib.Core.Option.{some_inj}
use traefik_cluster_ratelimi.Common.{
  ◌≡◌, ◌≢◌, refl, sym, ap, ◌∙◌, ℕ, zero, suc, false, Option, none, some, List, [], ◌∷◌, ◌++◌,
  if◌then◌else◌, All, inl, inr, Bool-cases,
}
use traefik_cluster_ratelimi.Common.Int.{ℤ, pos, ◌+ℤ◌, wrap64}
use traefik_cluster_ratelimi.Common.Bytes.{
  Bytes, codes, bytes_eq, bytes_eq_iff, trim_space, split, trim_prefix, trim_suffix,
}
use traefik_cluster_ratelimi.Common.Result.{ok, err}
use traefik_cluster_ratelimi.Common.Decimal.{itoa, atoi, format_int}
use traefik_cluster_ratelimi.Http.{Request, lines, get, canonical, remove, del, set}
use traefik_cluster_ratelimi.Ip.Net.{equal, split_host_port, mask, cidr_mask, cidr_mask_bytes, to4}
use traefik_cluster_ratelimi.Ip.Subnet.{subnet_cidr, network_text}
use traefik_cluster_ratelimi.Ip.Checker.{contains, contains_ip, any_equal}
use traefik_cluster_ratelimi.Ip.Interface.{strategy_get_ip}
use traefik_cluster_ratelimi.Ip.TrustedProxy.{
  source_text, resolve, remote_addr_ip, resolve_header, walk, normalise_entry, get_ip,
}
use traefik_cluster_ratelimi.Redis.Breaker.{duration_seconds}
use traefik_cluster_ratelimi.Plugin.Serve.{
  destroy, publish, publish_source, set_header, identify, is_whitelisted, limit_request, admit,
  serve_http,
}
use traefik_cluster_ratelimi.Limiter.{allow, allow_n}
use traefik_cluster_ratelimi.Plugin.{ClusterRateLimit, failure_mode_closed}
use traefik_cluster_ratelimi.Plugin.Shared.{counted_under}
use traefik_cluster_ratelimi.Plugin.Shared.Isolation.{
  Instance, Fleet, serve_all, serve_all-elsewhere,
}
use mathlib.Core.List.{append-nil}
use traefik_cluster_ratelimi.Redis.Resp.{
  crlf, command, bulk_strings, read_reply, read_element, read_line, read_string, trim_line,
  element_of, result_of,
}
use traefik_cluster_ratelimi.Redis.Resp.Command.{decode, decode-command}
use traefik_cluster_ratelimi.Redis.Network.{Network, send_command, write, receive_reply}
use traefik_cluster_ratelimi.Redis.Client.Pool
use traefik_cluster_ratelimi.Redis.Client.Pool.{client_of, with_conn, exchange}
use traefik_cluster_ratelimi.Redis.Client.Keyed.{
  Spares, authenticates, selects, loads, evaluates, IsKeyed,
}
use traefik_cluster_ratelimi.Redis.Script.{
  run, run_on, answer_of, convert_to_string_array, print_slice, print,
}
use traefik_cluster_ratelimi.Redis.Breaker
use traefik_cluster_ratelimi.Redis.Breaker.{new_script_with_breaker, attempts}
use traefik_cluster_ratelimi.Limiter.Rig.{rigged}
use traefik_cluster_ratelimi.Tests.Servers.{client, options, sha, print_seconds}
use traefik_cluster_ratelimi.Tests.Scripted.{script}
use traefik_cluster_ratelimi.Tests.Data.{raw}
use traefik_cluster_ratelimi.Tests.Requests.{whole_seconds, behind_proxies, request}

record Redis : Type 0 where
  answers : List Bytes
  counts : Bytes → ℕ

abbrev run_script : List Bytes → (Bytes → ℕ) → Bytes → ℕ
run_script [] counts key = counts key
run_script (script_sha ∷ []) counts key = counts key
run_script (script_sha ∷ n ∷ []) counts key = counts key
run_script (script_sha ∷ n ∷ other ∷ args) counts key =
    if bytes_eq other key then suc (counts key) else counts key

abbrev obey : Option (List Bytes × Bytes) → (Bytes → ℕ) → Bytes → ℕ
obey none counts key = counts key
obey (some ([], rest)) counts key = counts key
obey (some (name ∷ args, rest)) counts key =
    if bytes_eq name (codes "EVALSHA") then run_script args counts key else counts key

abbrev redis : Network Redis
redis = record {
  dial_timeout = λ addr timeout w. (err (codes "refused"), w);
  set_deadline = λ conn deadline w. (ok tt, w);
  handshake = λ conn cfg w. (ok tt, w);
  write = λ conn bytes w. (ok tt, record w { counts = obey (decode bytes) w.counts });
  receive = λ conn w. (record { bytes = codes "+1" ++ crlf; broken = codes "EOF" }, w);
  close = λ conn w. w;
  read_file = λ path w. (err (codes "no such file"), w);
  append_certs_from_pem = λ pem. false;
  load_x509_key_pair = λ cert key w. (err (codes "no such file"), w);
  quote = λ t. t;
}

abbrev count_of : Bytes → Redis → ℕ
count_of key w = w.counts key

obey-Spares :
    (key : Bytes) (args : List Bytes) (counts : Bytes → ℕ)
    → Spares key args
    → obey (some (args, [])) counts key ≡ counts key
obey-Spares key args counts (authenticates more) = refl
obey-Spares key args counts (selects more) = refl
obey-Spares key args counts (loads more) = refl
obey-Spares key args counts (evaluates script_sha other more differs) =
    elim (Bool-cases (bytes_eq other key)) [
      | inl same ↦ absurd (differs ((bytes_eq_iff other key).0 same))
      | inr apart ↦ rw apart refl
    ]

decode-whole : (args : List Bytes) → decode (command args) ≡ some (args, [])
decode-whole args = ap decode (sym (append-nil (command args))) ∙ decode-command args []

redis-IsKeyed : (key : Bytes) → IsKeyed redis key (count_of key)
redis-IsKeyed key = record {
  dials = λ addr timeout w. refl;
  sets = λ conn deadline w. refl;
  shakes = λ conn cfg w. refl;
  writes = λ conn args w spares.
      ap (λ read. obey read w.counts key) (decode-whole args)
      ∙ obey-Spares key args w.counts spares;
  receives = λ conn w. refl;
  closes = λ conn w. refl;
  reads = λ path w. refl;
}

abbrev counted_by : Bytes → ClusterRateLimit
counted_by source = record behind_proxies {
  failure_mode = failure_mode_closed;
  source_matcher = λ req. ok (source, pos 1);
}

abbrev key_for : Bytes → Bytes
key_for source = behind_proxies.limiter_prefix ++ source

-- Two instances with settings of their own, that count under the same key.
abbrev instances : ℕ → Instance
instances zero = record {
  middleware = counted_by (codes "a");
  client = client;
  allow_n_script = script;
  allow_at_most_script = script;
}
instances (suc i) = record {
  middleware = record (counted_by (codes "a")) { burst = pos 3 };
  client =
      client_of options
        (some (record { server_name = codes "cache"; root_cas = none; certificate = none }));
  allow_n_script = script;
  allow_at_most_script = script;
}

abbrev quiet : Redis
quiet = record { answers = []; counts = λ key. 0 }

abbrev fleet : Fleet Redis
fleet = record {
  rigs = λ i. record {
    allow_n_breaker = new_script_with_breaker (pos 0) (pos 3) (pos 15);
    allow_at_most_breaker = new_script_with_breaker (pos 0) (pos 3) (pos 15);
    world = record { env = quiet; log = []; idle = 7 ∷ []; shut = false; shas = λ handle. sha };
  };
  network = quiet;
}

abbrev clock : Redis → ℤ
clock w = pos 5

abbrev three : List (ℕ × Request)
three = (0, request) ∷ (1, request) ∷ (0, request) ∷ []

some-ne : (a b : Bytes) → bytes_eq a b ≡ false → some a ≡ some b → ⊥
some-ne a b h e = let e' = (bytes_eq_iff a b).1 (some_inj.0 e) in cc

a-ne-b : some (key_for (codes "a")) ≡ some (key_for (codes "b")) → ⊥
a-ne-b = some-ne (key_for (codes "a")) (key_for (codes "b")) refl

apart :
    All
      (λ (i, req). counted_under raw (instances i).middleware req ≢ some (key_for (codes "b")))
      three
unfolding counted_under serve_http destroy identify publish publish_source set_header is_whitelisted
    strategy_get_ip get_ip resolve contains remote_addr_ip split_host_port contains_ip any_equal
    equal resolve_header trim_space get lines canonical split walk normalise_entry trim_prefix
    trim_suffix del set remove subnet_cidr network_text mask cidr_mask cidr_mask_bytes to4 itoa
    source_text
apart = (a-ne-b, (a-ne-b, (a-ne-b, tt)))

serve_all-elsewhere_example :
    (serve_all raw whole_seconds redis clock print_seconds instances three fleet).network.counts
      (key_for (codes "b"))
    ≡ 0
serve_all-elsewhere_example =
    serve_all-elsewhere raw whole_seconds redis clock print_seconds (key_for (codes "b"))
      (count_of (key_for (codes "b"))) (redis-IsKeyed (key_for (codes "b"))) instances three fleet
      apart

-- Each of these requests runs the script once, on the key that they share.
three_counted :
    (serve_all raw whole_seconds redis clock print_seconds instances three fleet).network.counts
      (key_for (codes "a"))
    ≡ 3
unfolding serve_all rigged Breaker.run attempts new_script_with_breaker run run_on with_conn
    Pool.get Pool.put exchange send_command write receive_reply command bulk_strings decode
    read_reply read_element serve_http limit_request allow allow_n destroy identify publish
    publish_source set_header admit is_whitelisted strategy_get_ip get_ip resolve contains
    remote_addr_ip split_host_port contains_ip any_equal equal resolve_header trim_space get lines
    canonical split walk normalise_entry trim_prefix trim_suffix del set remove subnet_cidr
    network_text mask cidr_mask cidr_mask_bytes to4 itoa source_text Breaker.after_run read_line
    read_string trim_line element_of result_of answer_of Breaker.after_error wrap64 ◌+ℤ◌
    convert_to_string_array atoi print_slice print format_int
three_counted = refl
