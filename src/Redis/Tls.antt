-- ===== src/Redis/Tls.antt =====
-- internal/redis/redis.go: tlsRequested, hostFromAddr and buildTLSConfig. The minimum version of the
-- protocol, a constant of the configuration, is left out.
use traefik_cluster_ratelimi.Common.{
  Bool, true, false, not, ◌||◌, Option, none, some, ◌++◌, if◌then◌else◌,
}
use traefik_cluster_ratelimi.Common.Bytes.{Bytes, codes, is_empty}
use traefik_cluster_ratelimi.Common.Result.{ok, err}
use traefik_cluster_ratelimi.Common.State.{M, ◌>>=◌, give, in_context}
use traefik_cluster_ratelimi.Ip.Net.{split_host_port}
use traefik_cluster_ratelimi.Redis.Options.{Options}
use traefik_cluster_ratelimi.Redis.Network.{Network, World, TlsConfig, silently}

unfoldable pub tls_requested : Options → Bool
tls_requested o =
    o.tls
    || (not (is_empty o.ca_cert_file)
        || (not (is_empty o.client_cert_file)
            || (not (is_empty o.client_key_file) || not (is_empty o.server_name))))

unfoldable pub host_from_addr : Bytes → Bytes
host_from_addr addr = elim (split_host_port addr) [ none ↦ addr | some (host, port) ↦ host ]

-- (a == "") != (b == "")
abbrev pub differ : Bool → Bool → Bool
differ true b = not b
differ false b = b

abbrev pub name_of : Options → Bytes
name_of o = if is_empty o.server_name then host_from_addr o.addr else o.server_name

module _ {W : Type 0} (net : Network W) where
  unfoldable pub root_cas_of : Options → M (World W) (Option Bytes)
  root_cas_of o = if is_empty o.ca_cert_file then give (ok none) else (do
    ca_pem ←
        in_context (codes "redis: reading caCertFile " ++ (o.ca_cert_file ++ codes ": "))
          (silently net (net.read_file o.ca_cert_file))
    give (
        if net.append_certs_from_pem ca_pem
        then ok (some ca_pem)
        else err (codes "redis: no certificates parsed from caCertFile " ++ o.ca_cert_file)))

  unfoldable pub certificate_of : Options → M (World W) (Option Bytes)
  certificate_of o = if is_empty o.client_cert_file then give (ok none) else (do
    cert ←
        in_context (codes "redis: loading client keypair: ")
          (silently net (net.load_x509_key_pair o.client_cert_file o.client_key_file))
    give (ok (some cert)))

  -- The files that the configuration names, one after the other.
  unfoldable pub read_config : Options → M (World W) TlsConfig
  read_config o = do
    root_cas ← root_cas_of o
    certificate ← certificate_of o
    give (ok (record { server_name = name_of o; root_cas = root_cas; certificate = certificate }))

  unfoldable pub build_tls_config : Options → M (World W) TlsConfig
  build_tls_config o =
      if differ (is_empty o.client_cert_file) (is_empty o.client_key_file)
      then give (err (codes "redis: clientCertFile and clientKeyFile must be set together"))
      else if is_empty (name_of o)
      then give (
          err (
            codes "redis: cannot derive a TLS server name from address "
            ++ (net.quote o.addr ++ codes "; set redisServerName")))
      else read_config o
