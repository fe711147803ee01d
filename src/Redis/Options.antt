-- ===== src/Redis/Options.antt =====
-- internal/redis/redis.go: what a client is made of. Durations are in nanoseconds.
use traefik_cluster_ratelimi.Common.{ℕ, Bool}
use traefik_cluster_ratelimi.Common.Int.{ℤ}
use traefik_cluster_ratelimi.Common.Bytes.{Bytes}

pub record Options : Type 0 where
  pub addr : Bytes
  pub db : ℕ
  pub username : Bytes
  pub password : Bytes
  pub password_file : Bytes
  pub connection_timeout : ℤ
  pub tls : Bool
  pub ca_cert_file : Bytes
  pub client_cert_file : Bytes
  pub client_key_file : Bytes
  pub server_name : Bytes
