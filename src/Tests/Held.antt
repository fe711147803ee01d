-- ===== src/Tests/Held.antt =====
-- Examples of the theorems on callers that share a client. The network numbers its connections, and
-- every server answers +OK.
use mathlib.Core.List.{Nodup}
use traefik_cluster_ratelimi.Common.{
  ◌≡◌, refl, ℕ, suc, true, none, some, List, [], ◌∷◌, ◌++◌, arith,
}
use traefik_cluster_ratelimi.Common.Bytes.{codes}
use traefik_cluster_ratelimi.Common.Result.{ok, ok-inj}
use traefik_cluster_ratelimi.Redis.Value.{Arg, string}
use traefik_cluster_ratelimi.Redis.Resp.{
  crlf, read_reply, read_element, read_line, read_string, trim_line, element_of, result_of,
}
use traefik_cluster_ratelimi.Redis.Network.{
  Network, World, send_command, write, receive_reply, dial, handshake, close,
}
use traefik_cluster_ratelimi.Redis.Client.{
  Client, new_conn, auth_secret, read_password_file, prepare, secure, authenticate, select,
  is_success, is_text, show,
}
use traefik_cluster_ratelimi.Redis.Client.Numbered.{IsNumbering}
use traefik_cluster_ratelimi.Redis.Client.Ownership.{with_taken}
use traefik_cluster_ratelimi.Redis.Client.Pool.{
  get, new_client, client_of, tls_config_of, prepopulate,
}
use traefik_cluster_ratelimi.Redis.Tls.{
  tls_requested, host_from_addr, build_tls_config, read_config, root_cas_of, certificate_of,
}
use traefik_cluster_ratelimi.Redis.Script.{Script, run}
use traefik_cluster_ratelimi.Redis.Script.Held.{IsHeld, started, got, IsHeld-Nodup, run-IsHeld}
use traefik_cluster_ratelimi.Tests.Servers.{options, print_seconds}

-- The state is the number of connections made.
abbrev numbered : Network ℕ
numbered = record {
  dial_timeout = λ addr timeout w. (ok w, suc w);
  set_deadline = λ conn deadline w. (ok tt, w);
  handshake = λ conn cfg w. (ok tt, w);
  write = λ conn bytes w. (ok tt, w);
  receive = λ conn w. (record { bytes = codes "+OK" ++ crlf; broken = codes "EOF" }, w);
  close = λ conn w. w;
  read_file = λ path w. (ok (codes "secret"), w);
  append_certs_from_pem = λ pem. true;
  load_x509_key_pair = λ cert key w. (ok cert, w);
  quote = λ t. t;
}

numbering : IsNumbering numbered (λ w. w)
numbering = record {
  dials = λ addr timeout w. omega arith;
  numbers = λ addr timeout w conn given.
      let same = ok-inj w conn given in (omega (arith, same), omega (arith, same));
  sets = λ conn deadline w. omega arith;
  shakes = λ conn cfg w. omega arith;
  writes = λ conn bytes w. omega arith;
  receives = λ conn w. omega arith;
  closes = λ conn w. omega arith;
  reads = λ path w. omega arith;
}

abbrev before : World ℕ
before = record { env = 0; log = []; idle = []; shut = true; shas = λ handle. [] }

abbrev client : Client
client =
    client_of options
      (some (record { server_name = codes "cache"; root_cas = none; certificate = none }))

abbrev fresh : World ℕ
fresh = (new_client numbered options before).1

new_client_made : new_client numbered options before ≡ (ok client, fresh)
unfolding new_client tls_config_of tls_requested build_tls_config read_config root_cas_of
    certificate_of host_from_addr prepopulate new_conn auth_secret read_password_file dial prepare
    secure authenticate select send_command write receive_reply handshake close is_success is_text
    show read_reply read_element read_line read_string trim_line element_of result_of
new_client_made = refl

-- Two callers have taken a connection each.
abbrev once : World ℕ
once = (get numbered client fresh).1

abbrev twice : World ℕ
twice = (get numbered client once).1

abbrev held : List ℕ
held = with_taken (get numbered client once).0 (with_taken (get numbered client fresh).0 [])

two_held : held ≡ 1 ∷ 0 ∷ []
unfolding get new_client tls_config_of tls_requested build_tls_config read_config root_cas_of
    certificate_of host_from_addr prepopulate new_conn auth_secret read_password_file dial prepare
    secure authenticate select send_command write receive_reply handshake close is_success is_text
    show read_reply read_element read_line read_string trim_line element_of result_of
two_held = refl

taken : IsHeld numbered client held twice
taken = got _ once (got [] fresh (started options before fresh new_client_made))

IsHeld-Nodup_example : Nodup (held ++ twice.idle)
IsHeld-Nodup_example = IsHeld-Nodup numbered (λ w. w) numbering client held twice taken

abbrev script : Script
script = record { handle = 1; script = codes "return 1" }

abbrev args : List Arg
args = string (codes "x") ∷ []

run-IsHeld_example :
    IsHeld numbered client held
      (run numbered print_seconds client script (codes "rate_a" ∷ []) args twice).1
run-IsHeld_example =
    run-IsHeld numbered client print_seconds script (codes "rate_a" ∷ []) args held twice taken
