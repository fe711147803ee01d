-- ===== src/Redis/Client.antt =====
-- internal/redis/redis.go: a client, and newConn, which gives it a connection. A duration is an int64
-- of nanoseconds. The lock around the pool is left out: each operation on the pool is one step.
pub mod Pool
mod Stages
mod Trace
pub mod Dial
pub mod Calm
pub mod Reuse
pub mod Answered
pub mod Bound
pub mod Fresh
pub mod Secured
pub mod Numbered
pub mod Keyed
pub mod Distinct
pub mod Ownership
use traefik_cluster_ratelimi.Common.{
  ℕ, Bool, Option, none, some, List, [], ◌∷◌, ◌++◌, not, ◌||◌, if◌then◌else◌,
}
use traefik_cluster_ratelimi.Common.Int.{ℤ, pos}
use traefik_cluster_ratelimi.Common.Bytes.{Bytes, codes, bytes_eq, is_empty, trim_space}
use traefik_cluster_ratelimi.Common.Decimal.{format_int}
use traefik_cluster_ratelimi.Common.Result.{Result, ok, err, panic}
use traefik_cluster_ratelimi.Common.State.{M, ◌>>=◌, ◌>>◌, give, in_context}
use traefik_cluster_ratelimi.Redis.Value.{Value, text, integer, size, nil}
use traefik_cluster_ratelimi.Redis.Resp.{RedisResult, Success, success, fail}
use traefik_cluster_ratelimi.Redis.Network.{
  Network, World, TlsConfig, silently, set_deadline, dial, handshake, close, send_command,
}

abbrev pub max_active : ℕ
max_active = 5

-- The channel `conns` is part of the world.
pub record Client : Type 0 where
  pub addr : Bytes
  pub pool_size : ℕ
  pub dial_timeout : ℤ
  pub username : Bytes
  pub auth : Bytes
  pub auth_file : Bytes
  pub db : ℤ
  pub connection_timeout : ℤ
  pub tls_cfg : Option TlsConfig

-- resp.Success == RESP_SUCCESS
unfoldable pub is_success : RedisResult → Bool
is_success res = elim res.success [ success ↦ Bool.true | _ ↦ Bool.false ]

-- resp.Result == t
unfoldable pub is_text : Bytes → RedisResult → Bool
is_text t res = elim res.result [ text s ↦ bytes_eq s t | _ ↦ Bool.false ]

-- A result in fmt's %s, which marks what is not a string.
unfoldable pub show : Value → Bytes
show nil = codes "%!s(<nil>)"
show (text t) = t
show (integer n) = codes "%!s(int64=" ++ (format_int n ++ codes ")")
show (size n) = codes "%!s(int=" ++ (format_int n ++ codes ")")

abbrev pub auth_args : Bytes → Bytes → List Bytes
auth_args username secret =
    if not (is_empty username)
    then codes "AUTH" ∷ username ∷ secret ∷ []
    else codes "AUTH" ∷ secret ∷ []

abbrev pub select_args : ℤ → List Bytes
select_args db = codes "SELECT" ∷ format_int db ∷ []

-- An answer to AUTH or SELECT other than +OK is an error.
abbrev pub expect_ok : RedisResult → Bytes → Result (Unit {0})
expect_ok resp message =
    if not (is_success resp) || not (is_text (codes "OK") resp) then err message else ok tt

module _ {W : Type 0} (net : Network W) where
  unfoldable pub read_password_file : Bytes → M (World W) Bytes
  read_password_file path = do
    raw ←
        in_context (codes "redis: reading redisPasswordFile " ++ (path ++ codes ": "))
          (silently net (net.read_file path))
    give (
        let secret = trim_space raw in
        if is_empty secret
        then err (codes "redis: redisPasswordFile " ++ (path ++ codes " is empty"))
        else ok secret)

  unfoldable pub auth_secret : Client → M (World W) Bytes
  auth_secret c = if is_empty c.auth_file then give (ok c.auth) else read_password_file c.auth_file

  abbrev pub closing : {A : Type 0} → ℕ → Result A × World W → Result A × World W
  closing conn (ok a, s) = (ok a, s)
  closing conn (err e, s) = (err e, (close net conn s).1)
  closing conn (panic, s) = (panic, s)

  -- An error closes the connection; a panic does not.
  abbrev pub or_close : {A : Type 0} → ℕ → M (World W) A → M (World W) A
  or_close conn call s = closing conn (call s)

  -- The handshake, when there is a configuration for it; it has a deadline of its own.
  unfoldable pub secure : Client → Option TlsConfig → ℕ → M (World W) (Unit {0})
  secure c none tcp = give (ok tt)
  secure c (some cfg) tcp =
      set_deadline net tcp (some c.dial_timeout)
      >> in_context (codes "TLS handshake to " ++ (c.addr ++ codes " failed: "))
          (handshake net tcp cfg)
      >> set_deadline net tcp none

  unfoldable pub authenticate : Client → ℕ → Bytes → M (World W) (Unit {0})
  authenticate c conn secret =
      if not (is_empty secret)
      then (do
        resp ← send_command net conn c.connection_timeout (auth_args c.username secret)
        give (
            expect_ok resp (codes "not able to authenticate (" ++ (show resp.result ++ codes ")"))))
      else give (ok tt)

  unfoldable pub select : Client → ℕ → M (World W) (Unit {0})
  select c conn = do
    resp ← send_command net conn c.connection_timeout (select_args c.db)
    give (
        expect_ok resp (
          codes "not able to select db "
          ++ (format_int c.db ++ (codes " (" ++ (show resp.result ++ codes ")")))))

  -- The steps from a socket to a connection that is ready for use.
  unfoldable pub prepare : Client → ℕ → Bytes → M (World W) (Unit {0})
  prepare c conn secret = secure c c.tls_cfg conn >> authenticate c conn secret >> select c conn

  unfoldable pub new_conn : Client → M (World W) ℕ
  new_conn c = do
    secret ← auth_secret c
    conn ← dial net c.addr c.dial_timeout
    or_close conn (prepare c conn secret)
    give (ok conn)
