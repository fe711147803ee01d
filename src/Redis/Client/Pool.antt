-- ===== src/Redis/Client/Pool.antt =====
-- internal/redis/redis.go: the pool of connections, and the commands that run on one of them. A
-- connection may be nil, which is `none`: that is what a closed and empty channel delivers.
use traefik_cluster_ratelimi.Common.{
  ℕ, zero, suc, Bool, not, ◌&&◌, Option, none, some, List, [], ◌∷◌, ◌++◌, if◌then◌else◌, leb,
  length,
}
use traefik_cluster_ratelimi.Common.Int.{pos, ◌*ℤ◌, wrap64}
use traefik_cluster_ratelimi.Common.Bytes.{Bytes, codes, is_empty}
use traefik_cluster_ratelimi.Common.Result.{Result, ok, err, panic}
use traefik_cluster_ratelimi.Common.State.{M, ◌>>=◌, ◌>>◌, give}
use traefik_cluster_ratelimi.Redis.Options.{Options}
use traefik_cluster_ratelimi.Redis.Resp.{RedisResult}
use traefik_cluster_ratelimi.Redis.Tls.{tls_requested, build_tls_config}
use traefik_cluster_ratelimi.Redis.Network.{Network, World, TlsConfig, close, send_command}
use traefik_cluster_ratelimi.Redis.Client.{
  Client, max_active, is_success, is_text, show, or_close, new_conn,
}

-- What a deferred call leaves of a result: its own error is dropped, its panic is not.
abbrev pub after : {A : Type 0} → Result A → Result (Unit {0}) → Result A
after r panic = panic
after r (ok tt) = r
after r (err e) = r

-- The reply is taken for an error when it is neither a simple one nor the text.
abbrev pub expect : Bytes → Bytes → RedisResult → Result (Unit {0})
expect t message res =
    if not (is_success res) && not (is_text t res) then err (message ++ show res.result) else ok tt

abbrev pub client_of : Options → Option TlsConfig → Client
client_of o tls_cfg = record {
  addr = o.addr;
  pool_size = max_active;
  dial_timeout = wrap64 (o.connection_timeout *ℤ pos 2);
  username = o.username;
  auth = o.password;
  auth_file = o.password_file;
  db = wrap64 (pos o.db);
  connection_timeout = o.connection_timeout;
  tls_cfg = tls_cfg;
}

module _ {W : Type 0} (net : Network W) where
  -- get
  abbrev pub take_idle : Client → List ℕ → M (World W) (Option ℕ)
  take_idle c (conn ∷ conns) s = (ok (some conn), record s { idle = conns })
  take_idle c [] s =
      if s.shut then (ok none, s) else (new_conn net c >>= λ conn. give (ok (some conn))) s

  unfoldable pub get : Client → M (World W) (Option ℕ)
  get c s = take_idle c s.idle s

  -- Sending on a closed channel panics.
  unfoldable pub put : Client → Option ℕ → M (World W) (Unit {0})
  put c none s = (err (codes "nil connection cannot be added to the pool"), s)
  put c (some conn) s =
      if leb c.pool_size (length s.idle)
      then close net conn s
      else if s.shut
      then (panic, s)
      else (ok tt, record s { idle = s.idle ++ conn ∷ [] })

  abbrev pub close_all : List ℕ → M (World W) (Unit {0})
  close_all [] = give (ok tt)
  close_all (conn ∷ conns) = close net conn >> close_all conns

  -- The method Close; closing a closed channel panics.
  unfoldable pub close_pool : M (World W) (Unit {0})
  close_pool s =
      if s.shut then (panic, s) else close_all s.idle (record s { idle = []; shut = Bool.true })

  abbrev pub deferring : {A : Type 0} → Client → Option ℕ → Result A × World W → Result A × World W
  deferring c conn (r, s) = let (r', s') = put c conn s in (after r r', s')

  -- defer r.put(conn)
  unfoldable pub with_conn : {A : Type 0} → Client → (Option ℕ → M (World W) A) → M (World W) A
  with_conn c body = do conn ← get c; λ s. deferring c conn (body conn s)

  -- sendCommand, after which an error closes the connection; a nil connection has no methods. The
  -- deferred call has its own copy of conn, so that setting the variable to nil is without effect.
  unfoldable pub exchange : Client → Option ℕ → List Bytes → M (World W) RedisResult
  exchange c none args = give panic
  exchange c (some conn) args = or_close net conn (send_command net conn c.connection_timeout args)

  unfoldable pub ping : Client → M (World W) (Unit {0})
  ping c = with_conn c (λ conn. do
    res ← exchange c conn (codes "PING" ∷ [])
    give (expect (codes "PONG") (codes "PING result error: ") res))

  unfoldable pub del : Client → Bytes → M (World W) (Unit {0})
  del c key = with_conn c (λ conn. do
    res ← exchange c conn (codes "DEL" ∷ key ∷ [])
    give (expect (codes "OK") (codes "DEL result error: ") res))

  abbrev pub filled : Result ℕ × World W → Result (Unit {0}) × World W
  filled (ok conn, s) = (ok tt, record s { idle = s.idle ++ conn ∷ [] })
  filled (err e, s) = (ok tt, s)
  filled (panic, s) = (panic, s)

  -- A connection that cannot be made is left out.
  unfoldable pub prepopulate : Client → ℕ → M (World W) (Unit {0})
  prepopulate c zero = give (ok tt)
  prepopulate c (suc n) = (λ s. filled (new_conn net c s)) >> prepopulate c n

  unfoldable pub tls_config_of : Options → M (World W) (Option TlsConfig)
  tls_config_of o =
      if tls_requested o
      then (build_tls_config net o >>= λ cfg. give (ok (some cfg)))
      else give (ok none)

  -- A new channel.
  abbrev pub make_pool : M (World W) (Unit {0})
  make_pool s = (ok tt, record s { idle = []; shut = Bool.false })

  -- NewClient. The test for a pool of no connections is of a constant, and left out.
  unfoldable pub new_client : Options → M (World W) Client
  new_client o =
      if not (is_empty o.password) && not (is_empty o.password_file)
      then give (err (codes "redis: redisPassword and redisPasswordFile are mutually exclusive"))
      else (do
        tls_cfg ← tls_config_of o
        let c = client_of o tls_cfg
        make_pool
        prepopulate c max_active
        give (ok c))
