-- ===== src/Redis/Client/Answered.antt =====
-- internal/redis/redis.go: commands that a server takes and answers.
use traefik_cluster_ratelimi.Common.{
  ◌≡◌, refl, ◌∙◌, ℕ, ◌<◌, false, Option, some, List, [], ◌∷◌, ◌++◌, length,
}
use traefik_cluster_ratelimi.Common.Int.{ℤ}
use traefik_cluster_ratelimi.Common.Bytes.{Bytes, codes}
use traefik_cluster_ratelimi.Common.Decimal.{format_int}
use traefik_cluster_ratelimi.Common.Result.{Result, ok, err}
use traefik_cluster_ratelimi.Common.State.{◌>>=◌, give}
use traefik_cluster_ratelimi.Redis.Resp.{RedisResult, command}
use traefik_cluster_ratelimi.Redis.Resp.Reply.{read_reply-encode_reply}
use traefik_cluster_ratelimi.Redis.Resp.Protocol.{
  Reply, scalar, whole, encode_reply, IsReadable, FitsInt64, expected,
}
use traefik_cluster_ratelimi.Redis.Network.{
  Network, World, Event, sent, write, receive_reply, send_command,
}
use traefik_cluster_ratelimi.Redis.Client.{Client, is_success, is_text, show}
use traefik_cluster_ratelimi.Redis.Client.Reuse.{with_conn-reuses}
use traefik_cluster_ratelimi.Redis.Client.Calm.{Calm, >>=-Calm, exchange-Calm}
use traefik_cluster_ratelimi.Redis.Client.Pool.{with_conn, exchange, expect, del}

-- The world after an exchange, with the connection back at the end of the queue.
abbrev pub returned : {W : Type 0} → ℕ → List ℕ → List Event → W → World W → World W
returned conn rest events env s = record s {
  env = env;
  log = events ++ s.log;
  idle = rest ++ conn ∷ [];
}

module _ {W : Type 0} (net : Network W) where
  -- The connection takes the deadline and the command, and delivers the reply and what follows it.
  abbrev pub IsAnswered : ℕ → ℤ → List Bytes → Reply → W → W → Type 0
  IsAnswered conn timeout args reply env env' =
      let (set, env1) = net.set_deadline conn (some timeout) env in
      let (wrote, env2) = net.write conn (command args) env1 in
      let (incoming, env3) = net.receive conn env2 in
      (set ≡ ok tt)
      × (wrote ≡ ok tt)
      × ((more : Bytes) × (incoming.bytes ≡ encode_reply reply ++ more))
      × (env3 ≡ env')

  pub send_command-answered :
      (conn : ℕ) (timeout : ℤ) (args : List Bytes) (reply : Reply) (s : World W) (env' : W)
      → IsReadable reply
      → IsAnswered conn timeout args reply s.env env'
      → send_command net conn timeout args s
        ≡ (ok (expected reply), record s { env = env'; log = sent conn (command args) ∷ s.log })
  unfolding send_command write receive_reply
  send_command-answered conn timeout args reply s env' readable
        (set, wrote, (more, incoming), last) =
      rw (set, wrote, incoming, read_reply-encode_reply _ reply more readable, last) refl

module _ {W : Type 0} (net : Network W) (c : Client) where
  pub exchange-answered :
      (conn : ℕ) (args : List Bytes) (reply : Reply) (s : World W) (env' : W)
      → IsReadable reply
      → IsAnswered net conn c.connection_timeout args reply s.env env'
      → exchange net c (some conn) args s
        ≡ (ok (expected reply), record s { env = env'; log = sent conn (command args) ∷ s.log })
  unfolding exchange
  exchange-answered conn args reply s env' readable answered =
      rw (send_command-answered net conn c.connection_timeout args reply s env' readable answered)
        refl

  pub asking-Calm :
      {A : Type 0} (args : List Bytes) (check : RedisResult → Result A) (conn : Option ℕ)
      → Calm {W = W} (exchange net c conn args >>= λ res. give (check res))
  asking-Calm args check conn =
      >>=-Calm (exchange net c conn args) (λ res. give (check res)) (exchange-Calm net c conn args)
        (λ res s. (refl, refl))

  -- One command on an idle connection, and a check of its reply.
  pub asking-answered :
      {A : Type 0} (args : List Bytes) (check : RedisResult → Result A) (conn : ℕ) (rest : List ℕ)
      (reply : Reply) (s : World W) (env' : W)
      → s.idle ≡ conn ∷ rest
      → s.shut ≡ false
      → length rest < c.pool_size
      → IsReadable reply
      → IsAnswered net conn c.connection_timeout args reply s.env env'
      → with_conn net c (λ conn. exchange net c conn args >>= λ res. give (check res)) s
        ≡ (check (expected reply), returned conn rest (sent conn (command args) ∷ []) env' s)
  asking-answered args check conn rest reply s env' first running short readable answered =
      let body = λ (conn : Option ℕ). exchange net c conn args >>= λ res. give (check res) in
      with_conn-reuses net c body conn rest s (asking-Calm args check (some conn)) first running
        short
      ∙ rw (exchange-answered conn args reply (record s { idle = rest }) env' readable answered)
          refl

  -- A server answers DEL with the number of keys that it removed, an int64. On an idle connection of a
  -- pool that is not closed, Del returns that number as an error, and the connection is back in the
  -- pool.
  pub del-answered :
      (key : Bytes) (n : ℤ) (conn : ℕ) (rest : List ℕ) (s : World W) (env' : W)
      → s.idle ≡ conn ∷ rest
      → s.shut ≡ false
      → length rest < c.pool_size
      → FitsInt64 n
      → IsAnswered net conn c.connection_timeout
          (codes "DEL" ∷ key ∷ [])
          (scalar (whole n))
          s.env
          env'
      → del net c key s ≡ (
        err (codes "DEL result error: %!s(int64=" ++ (format_int n ++ codes ")")),
        returned conn rest (sent conn (command (codes "DEL" ∷ key ∷ [])) ∷ []) env' s,
      )
  unfolding del is_success is_text show
  del-answered key n conn rest s env' first running short fits answered =
      asking-answered (codes "DEL" ∷ key ∷ []) (expect (codes "OK") (codes "DEL result error: "))
        conn rest (scalar (whole n)) s env' first running short fits answered
