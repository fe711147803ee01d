-- ===== src/Tests/Clients.antt =====
-- Examples of the theorems on the Redis client.
use traefik_cluster_ratelimi.Common.{◌≡◌, ◌≤◌, refl, none, some, List, [], ◌∷◌, ◌++◌, length}
use traefik_cluster_ratelimi.Common.Bytes.{Bytes, codes}
use traefik_cluster_ratelimi.Common.Result.{ok}
use traefik_cluster_ratelimi.Redis.Resp.{
  crlf, read_reply, read_element, read_line, read_string, trim_line, element_of, result_of,
}
use traefik_cluster_ratelimi.Redis.Network.{
  World, send_command, write, receive_reply, dial, handshake, close,
}
use traefik_cluster_ratelimi.Redis.Client.{
  Client, max_active, new_conn, auth_secret, read_password_file, prepare, secure, authenticate,
  select, is_success, is_text, show,
}
use traefik_cluster_ratelimi.Redis.Client.Pool.{
  ping, close_pool, new_client, client_of, tls_config_of, prepopulate,
}
use traefik_cluster_ratelimi.Redis.Client.Dial.{Dialed, new_conn-Dialed}
use traefik_cluster_ratelimi.Redis.Client.Secured.{IsSecured, new_client-IsSecured}
use traefik_cluster_ratelimi.Redis.Tls.{
  tls_requested, host_from_addr, build_tls_config, read_config, root_cas_of, certificate_of,
}
use traefik_cluster_ratelimi.Redis.Script.Reached.{made, pinged, shut_down, IsReached-bounded}
use traefik_cluster_ratelimi.Redis.Options.{Options}
use traefik_cluster_ratelimi.Tests.Servers.{server, options, client, pool, print_seconds}

abbrev ok_ok : List Bytes
ok_ok = (codes "+OK" ++ crlf) ∷ (codes "+OK" ++ crlf) ∷ []

new_conn-Dialed_example :
    Dialed server client (pool ok_ok []) (new_conn server client (pool ok_ok []))
new_conn-Dialed_example = new_conn-Dialed server client (pool ok_ok [])

abbrev before : World (List Bytes)
before = pool ok_ok []

-- TLS with the name in the options, and no files.
abbrev tls_client : Client
tls_client =
    client_of options
      (some (record { server_name = codes "cache"; root_cas = none; certificate = none }))

abbrev fresh : World (List Bytes)
fresh = (new_client server options before).1

new_client_made : new_client server options before ≡ (ok tls_client, fresh)
unfolding new_client tls_config_of tls_requested build_tls_config read_config root_cas_of
    certificate_of host_from_addr prepopulate new_conn auth_secret read_password_file dial prepare
    secure authenticate select send_command write receive_reply handshake close is_success is_text
    show read_reply read_element read_line read_string trim_line element_of result_of
new_client_made = refl

-- TLS with roots and a certificate from files; the server's file system holds one text.
abbrev with_files : Options
with_files = record options {
  ca_cert_file = codes "ca.pem";
  client_cert_file = codes "cert.pem";
  client_key_file = codes "key.pem";
}

abbrev filed_client : Client
filed_client = client_of with_files (
    some (record {
      server_name = codes "cache";
      root_cas = some (codes "secret");
      certificate = some (codes "cert.pem");
    }))

filed_client_made : (new_client server with_files before).0 ≡ ok filed_client
unfolding new_client tls_config_of tls_requested build_tls_config read_config root_cas_of
    certificate_of host_from_addr prepopulate new_conn auth_secret read_password_file dial prepare
    secure authenticate select send_command write receive_reply handshake close is_success is_text
    show read_reply read_element read_line read_string trim_line element_of result_of
filed_client_made = refl

new_client-IsSecured_example : IsSecured server with_files filed_client.tls_cfg
new_client-IsSecured_example =
    new_client-IsSecured server with_files before filed_client filed_client_made

IsReached-bounded_example :
    length (close_pool server (ping server tls_client fresh).1).1.idle ≤ max_active
IsReached-bounded_example =
    IsReached-bounded server print_seconds tls_client
      (close_pool server (ping server tls_client fresh).1).1
      (shut_down (ping server tls_client fresh).1
        (pinged fresh (made options before fresh new_client_made)))
