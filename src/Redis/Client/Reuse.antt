-- ===== src/Redis/Client/Reuse.antt =====
-- internal/redis/redis.go: calls that take an idle connection, and where they leave it.
use traefik_cluster_ratelimi.Common.{
  ◌≡◌, refl, ◌∙◌, ℕ, ◌<◌, false, Option, some, List, [], ◌∷◌, ◌++◌, length, lt→leb_false,
}
use traefik_cluster_ratelimi.Common.Bytes.{Bytes, codes}
use traefik_cluster_ratelimi.Common.Result.{Result, ok, err}
use traefik_cluster_ratelimi.Common.State.{M, ◌>>=◌, give}
use traefik_cluster_ratelimi.Redis.Resp.{RedisResult}
use traefik_cluster_ratelimi.Redis.Network.{Network, World, closed, close, send_command}
use traefik_cluster_ratelimi.Redis.Client.{Client}
use traefik_cluster_ratelimi.Redis.Client.Calm.{Calm, >>=-Calm, exchange-Calm}
use traefik_cluster_ratelimi.Redis.Client.Pool.{
  get, put, deferring, with_conn, exchange, expect, ping,
}

module _ {W : Type 0} (net : Network W) (c : Client) where
  deferring-reuses :
      {A : Type 0} (conn : ℕ) (rest : List ℕ) (r : Result A) (s : World W)
      → s.idle ≡ rest
      → s.shut ≡ false
      → length rest < c.pool_size
      → deferring net c (some conn) (r, s) ≡ (r, record s { idle = rest ++ conn ∷ [] })
  unfolding put
  deferring-reuses conn rest r s same running short =
      rw same (rw (lt→leb_false _ _ short, running) refl)

  -- Whatever the call comes to, the connection is back in the pool.
  pub with_conn-reuses :
      {A : Type 0} (body : Option ℕ → M (World W) A) (conn : ℕ) (rest : List ℕ) (s : World W)
      → Calm (body (some conn))
      → s.idle ≡ conn ∷ rest
      → s.shut ≡ false
      → length rest < c.pool_size
      → let taken = record s { idle = rest } in
        let out = body (some conn) taken in
        with_conn net c body s ≡ (out.0, record out.1 { idle = rest ++ conn ∷ [] })
  unfolding with_conn get
  with_conn-reuses body conn rest s calm first running short =
      let taken = record s { idle = rest } in
      let (same, still) = calm taken in
      rw first (
        deferring-reuses conn rest (body (some conn) taken).0 (body (some conn) taken).1 same
          (still ∙ running) short)

  -- A command that fails on an idle connection: the connection is closed, and back in the pool.
  pub asking-broken :
      {A : Type 0} (args : List Bytes) (next : RedisResult → M (World W) A) (conn : ℕ)
      (rest : List ℕ) (s s1 : World W) (e : Bytes)
      → ((res : RedisResult) → Calm (next res))
      → s.idle ≡ conn ∷ rest
      → s.shut ≡ false
      → length rest < c.pool_size
      → send_command net conn c.connection_timeout args (record s { idle = rest }) ≡ (err e, s1)
      → with_conn net c (λ conn. exchange net c conn args >>= next) s
        ≡ (err e, record (close net conn s1).1 { idle = rest ++ conn ∷ [] })
  unfolding exchange
  asking-broken args next conn rest s s1 e calm first running short failed =
      with_conn-reuses (λ conn. exchange net c conn args >>= next) conn rest s
        (>>=-Calm (exchange net c (some conn) args) next (exchange-Calm net c (some conn) args)
          calm)
        first running short
      ∙ rw failed refl

  -- When PING fails on the only idle connection of a pool that is not closed, Ping returns the error
  -- and closes the connection, and yet the connection is what the pool hands out next.
  ping-broken :
      (conn : ℕ) (s s1 : World W) (e : Bytes)
      → s.idle ≡ conn ∷ []
      → s.shut ≡ false
      → 0 < c.pool_size
      → send_command net conn c.connection_timeout (codes "PING" ∷ []) (record s { idle = [] })
        ≡ (err e, s1)
      → let (r, s') = ping net c s in
        (r ≡ err e) × (s'.log ≡ closed conn ∷ s1.log) × ((get net c s').0 ≡ ok (some conn))
  unfolding ping get close
  ping-broken conn s s1 e first running short failed =
      let run =
        asking-broken (codes "PING" ∷ [])
          (λ res. give (expect (codes "PONG") (codes "PING result error: ") res)) conn [] s s1 e
          (λ res s. (refl, refl)) first running short failed in
      rw run (refl, refl, refl)
