-- ===== src/Tests/Scripted.antt =====
-- Examples of the theorems on scripts, and on the limiter that runs them.
use mathlib.Core.List.{append-nil}
use traefik_cluster_ratelimi.Common.{
  ◌≡◌, refl, sym, some, List, [], ◌∷◌, ◌++◌, arith, false, length,
}
use traefik_cluster_ratelimi.Common.Int.{ℤ, pos}
use traefik_cluster_ratelimi.Common.Bytes.{Bytes, codes}
use traefik_cluster_ratelimi.Common.Decimal.{format_int}
use traefik_cluster_ratelimi.Common.Result.{ok, err}
use traefik_cluster_ratelimi.Redis.Value.{Arg, string, single, integer}
use traefik_cluster_ratelimi.Redis.Resp.{command}
use traefik_cluster_ratelimi.Redis.Resp.Protocol.{
  failure, scalar, many, whole, blob, Reply, encode_reply,
}
use traefik_cluster_ratelimi.Redis.Network.{World, sent, closed, send_command}
use traefik_cluster_ratelimi.Redis.Client.Pool.{get}
use traefik_cluster_ratelimi.Redis.Client.Answered.{returned}
use traefik_cluster_ratelimi.Redis.Breaker.{new_script_with_breaker}
use traefik_cluster_ratelimi.Redis.Script.{Script, run, no_run}
use traefik_cluster_ratelimi.Redis.Script.Cached.{
  load_command, eval_command, cached, run-known, run-first, run-broken,
}
use traefik_cluster_ratelimi.Redis.Script.Sha.{IsKept, run-IsKept}
use traefik_cluster_ratelimi.Limiter.{Limit, Floats, Scripts, reset}
use traefik_cluster_ratelimi.Limiter.Rig.{Rig, rigged, reset-rigged}
use traefik_cluster_ratelimi.Tests.Servers.{
  server, severed, client, sha, pool, print_seconds, has_lf_false→HasNoLf,
}

abbrev pub script : Script
script = record { handle = 1; script = codes "return 1" }

abbrev keys : List Bytes
keys = codes "rate_a" ∷ []

abbrev args : List Arg
args = string (codes "x") ∷ []

abbrev no_script : Bytes
no_script = codes "NOSCRIPT No matching script."

abbrev refusing : World (List Bytes)
refusing = pool (encode_reply (failure no_script) ∷ []) sha

run-known_example : run server print_seconds client script keys args refusing ≡ (
  err (no_run no_script),
  returned 7 [] (sent 7 (command (eval_command print_seconds keys args sha)) ∷ []) [] refusing,
)
run-known_example =
    run-known server print_seconds client script keys args 7 [] (failure no_script) refusing [] refl
      refl refl (omega arith) (has_lf_false→HasNoLf no_script refl)
      (refl, refl, ([], sym (append-nil _)), refl)

-- SCRIPT LOAD, then EVALSHA.
abbrev loading : World (List Bytes)
loading = pool (encode_reply (scalar (blob sha)) ∷ encode_reply (scalar (whole (pos 1))) ∷ []) []

run-first_example : run server print_seconds client script keys args loading ≡ (
  ok (single (integer (pos 1))),
  cached 1 sha (
      returned 7 []
        (sent 7 (command (eval_command print_seconds keys args sha))
          ∷ sent 7 (command (load_command script.script))
          ∷ [])
        []
        loading),
)
run-first_example =
    run-first server print_seconds client script keys args sha 7 [] (scalar (whole (pos 1))) loading
      (encode_reply (scalar (whole (pos 1))) ∷ []) [] refl refl refl (omega arith) refl
      (has_lf_false→HasNoLf sha refl) (omega arith) (refl, refl, ([], sym (append-nil _)), refl)
      (refl, refl, ([], sym (append-nil _)), refl)

run-broken_example :
    ((run severed print_seconds client script keys args (pool [] sha)).0
      ≡ err (codes "error setting deadline: closed"))
    × ((run severed print_seconds client script keys args (pool [] sha)).1.log ≡ closed 7 ∷ [])
    × ((get severed client (run severed print_seconds client script keys args (pool [] sha)).1).0
        ≡ ok (some 7))
unfolding send_command
run-broken_example =
    run-broken severed print_seconds client script keys args 7 (pool [] sha)
      (record (pool [] sha) { idle = [] }) (codes "error setting deadline: closed") refl refl refl
      (omega arith) refl

abbrev pub floats : Floats
floats = record {
  Float = ℤ;
  parse_float = λ t. ok (pos (length t));
  is_minus_one = λ x. false;
  nanoseconds = λ x. x;
}

abbrev pub rig : List Bytes → Rig (List Bytes)
rig answers = record {
  allow_n_breaker = new_script_with_breaker (pos 0) (pos 3) (pos 15);
  allow_at_most_breaker = new_script_with_breaker (pos 0) (pos 3) (pos 15);
  world = pool answers sha;
}

reset-rigged_example :
    (reset floats
      (rigged server (λ w. pos 5) print_seconds client script script)
      (codes "rate_")
      (codes "a")
      (rig (encode_reply (scalar (whole (pos 1))) ∷ []))).0
    ≡ err (codes "DEL result error: %!s(int64=" ++ (format_int (pos 1) ++ codes ")"))
reset-rigged_example =
    reset-rigged server (λ w. pos 5) print_seconds client script script floats (codes "rate_")
      (codes "a") (pos 1) 7 [] (rig (encode_reply (scalar (whole (pos 1))) ∷ [])) [] refl refl
      (omega arith) (omega arith) (refl, refl, ([], sym (append-nil _)), refl)

-- The script's four values: one event is allowed.
abbrev values : Reply
values = many (whole (pos 1) ∷ whole (pos 9) ∷ blob (codes "-1") ∷ blob (codes "0.5") ∷ [])

abbrev limit : Limit
limit = record { rate = pos 10; burst = pos 10; period = pos 60000000000 }

abbrev pub rigged_scripts : Scripts (Rig (List Bytes))
rigged_scripts = rigged server (λ w. pos 5) print_seconds client script script

abbrev pub answering : Rig (List Bytes)
answering = rig (encode_reply values ∷ [])

run-IsKept_example : IsKept 1 loading (run server print_seconds client script keys args loading).1
run-IsKept_example = run-IsKept server print_seconds client script keys args loading
