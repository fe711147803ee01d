-- ===== src/Redis/Client/Calm.antt =====
-- internal/redis/redis.go: calls on one connection, and the pool and the shas around them.
use traefik_cluster_ratelimi.Common.{◌≡◌, refl, ◌∙◌, ℕ, Option, none, some, List, [], ◌∷◌}
use traefik_cluster_ratelimi.Common.Bytes.{Bytes}
use traefik_cluster_ratelimi.Common.Result.{Result, ok, err, panic}
use traefik_cluster_ratelimi.Common.State.{M, >>=-Along, ◌>>=◌}
use traefik_cluster_ratelimi.Redis.Network.{Network, World, Event, sent, close, send_command}
use traefik_cluster_ratelimi.Redis.Resp.{command}
use traefik_cluster_ratelimi.Redis.Client.{Client, closing, new_conn}
use traefik_cluster_ratelimi.Redis.Client.Stages.{Traced, Stage}
use traefik_cluster_ratelimi.Redis.Client.Trace.{send_command-Stage}
use traefik_cluster_ratelimi.Redis.Client.Dial.{Dialed, new_conn-Dialed}
use traefik_cluster_ratelimi.Redis.Client.Pool.{exchange}

module _ {W : Type 0} where
  abbrev pub KeepsPool : World W → World W → Type 0
  KeepsPool s s' = (s'.idle ≡ s.idle) × (s'.shut ≡ s.shut)

  abbrev pub Calm : {A : Type 0} → M (World W) A → Type 0
  Calm {A} call = (s : World W) → KeepsPool s (call s).1

  pub KeepsPool-trans : (s s1 s2 : World W) → KeepsPool s s1 → KeepsPool s1 s2 → KeepsPool s s2
  KeepsPool-trans s s1 s2 (i, b) (j, d) = (j ∙ i, d ∙ b)

  pub >>=-Calm :
      {A B : Type 0} (call : M (World W) A) (next : A → M (World W) B)
      → Calm call
      → ((a : A) → Calm (next a))
      → Calm (call >>= next)
  >>=-Calm call next k calm = >>=-Along KeepsPool KeepsPool-trans call next k calm

  Traced-KeepsPool :
      {A : Type 0} (events : List Event) (s : World W) (r : Result A × World W)
      → Traced events s r
      → KeepsPool s r.1
  Traced-KeepsPool events s (ok a, s') ((i, b, h), l) = (i, b)
  Traced-KeepsPool events s (err e, s') ((i, b, h), l) = (i, b)
  Traced-KeepsPool events s (panic, s') ((i, b, h), l) = (i, b)

module _ {W : Type 0} (net : Network W) (c : Client) where
  closing-KeepsPool :
      {A : Type 0} (conn : ℕ) (s : World W) (r : Result A × World W)
      → KeepsPool s r.1
      → KeepsPool s (closing net conn r).1
  unfolding close
  closing-KeepsPool conn s (ok a, s1) k = k
  closing-KeepsPool conn s (err e, s1) k = k
  closing-KeepsPool conn s (panic, s1) k = k

  pub exchange-Calm : (conn : Option ℕ) (args : List Bytes) → Calm (exchange net c conn args)
  unfolding exchange Stage
  exchange-Calm none args s = (refl, refl)
  exchange-Calm (some conn) args s =
      closing-KeepsPool conn s (send_command net conn c.connection_timeout args s) (
        Traced-KeepsPool (sent conn (command args) ∷ []) s
          (send_command net conn c.connection_timeout args s)
          (send_command-Stage net conn c.connection_timeout args s))

  Dialed-KeepsPool : (s : World W) (r : Result ℕ × World W) → Dialed net c s r → KeepsPool s r.1
  Dialed-KeepsPool s (ok conn, s') ((i, b, h), d) = (i, b)
  Dialed-KeepsPool s (err e, s') ((i, b, h), d) = (i, b)
  Dialed-KeepsPool s (panic, s') ((i, b, h), d) = (i, b)

  pub new_conn-Calm : Calm (new_conn net c)
  new_conn-Calm s = Dialed-KeepsPool s (new_conn net c s) (new_conn-Dialed net c s)

  Dialed-shas : (s : World W) (r : Result ℕ × World W) → Dialed net c s r → r.1.shas ≡ s.shas
  Dialed-shas s (ok conn, s') ((i, b, h), d) = h
  Dialed-shas s (err e, s') ((i, b, h), d) = h
  Dialed-shas s (panic, s') ((i, b, h), d) = h

  pub new_conn-shas : (s : World W) → (new_conn net c s).1.shas ≡ s.shas
  new_conn-shas s = Dialed-shas s (new_conn net c s) (new_conn-Dialed net c s)

  closing-shas :
      {A : Type 0} (conn : ℕ) (events : List Event) (s : World W) (r : Result A × World W)
      → Traced events s r
      → (closing net conn r).1.shas ≡ s.shas
  unfolding close
  closing-shas conn events s (ok a, s1) ((i, b, h), l) = h
  closing-shas conn events s (err e, s1) ((i, b, h), l) = h
  closing-shas conn events s (panic, s1) ((i, b, h), l) = h

  pub exchange-shas :
      (conn : Option ℕ) (args : List Bytes) (s : World W)
      → (exchange net c conn args s).1.shas ≡ s.shas
  unfolding exchange Stage
  exchange-shas none args s = refl
  exchange-shas (some conn) args s =
      closing-shas conn (sent conn (command args) ∷ []) s
        (send_command net conn c.connection_timeout args s)
        (send_command-Stage net conn c.connection_timeout args s)
