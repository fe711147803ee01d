-- ===== src/Redis/Client/Dial.antt =====
-- internal/redis/redis.go: what newConn comes to.
use mathlib.Core.List.{append-eq-nil_iff}
use traefik_cluster_ratelimi.Common.{
  ◌≡◌, refl, ap, sym, ◌⊎◌, inl, inr, ℕ, List, [], ◌∷◌, ◌++◌, if-both,
}
use traefik_cluster_ratelimi.Common.Bytes.{Bytes, codes, is_empty}
use traefik_cluster_ratelimi.Common.Result.{Result, ok, err, panic}
use traefik_cluster_ratelimi.Common.State.{M, continue, ◌>>=◌, give, in_context}
use traefik_cluster_ratelimi.Redis.Network.{
  Network, World, Event, opened, closed, silently, log_open, dial, close,
}
use traefik_cluster_ratelimi.Redis.Client.{
  Client, read_password_file, auth_secret, closing, or_close, prepare, new_conn,
}
use traefik_cluster_ratelimi.Redis.Client.Stages.{
  Keeps, LogsPart, Traced, Stage, Keeps-trans, >>=-Stage, in_context-Stage,
}
use traefik_cluster_ratelimi.Redis.Client.Trace.{
  prepare_events, silently-Stage, give-Stage, prepare-Stage,
}

nothing-logged : {W : Type 0} (s s' : World W) → LogsPart [] s s' → s'.log ≡ s.log
nothing-logged s s' (todo, done, parts, l) =
    let (none_todo, none_done) = (append-eq-nil_iff {p = todo} {q = done}).0 (sym parts) in
    rw l (rw none_done refl)

module _ {W : Type 0} (net : Network W) (c : Client) where
  -- The log of a socket that was opened and got to some of the events of prepare.
  abbrev pub IsStopped : ℕ → List Event → World W → Type 0
  IsStopped conn log s =
      (secret : Bytes) × (todo : List Event) × (done : List Event) × (prepare_events c conn secret
        ≡ todo ++ done)
      × (log ≡ done ++ opened conn ∷ s.log)

  -- What newConn may come to, and the log that it leaves in each case.
  abbrev pub Dialed : World W → Result ℕ × World W → Type 0
  Dialed s (ok conn, s') =
      Keeps s s'
      × ((secret : Bytes) × ((auth_secret net c s).0 ≡ ok secret)
          × (s'.log ≡ prepare_events c conn secret ++ opened conn ∷ s.log))
  Dialed s (err e, s') =
      Keeps s s'
      × ((s'.log ≡ s.log)
          ⊎ ((conn : ℕ) × (log : List Event) × IsStopped conn log s × (s'.log ≡ closed conn ∷ log)))
  Dialed s (panic, s') = Keeps s s' × ((s'.log ≡ s.log) ⊎ ((conn : ℕ) × IsStopped conn s'.log s))

  prepared-Dialed :
      (conn : ℕ) (secret : Bytes) (s s1 : World W) (r : Result (Unit {0}) × World W)
      → (auth_secret net c s).0 ≡ ok secret
      → Keeps s s1
      → s1.log ≡ opened conn ∷ s.log
      → Traced (prepare_events c conn secret) s1 r
      → Dialed s (continue (λ t. give (ok conn)) (closing net conn r))
  unfolding close
  prepared-Dialed conn secret s s1 (ok t, s2) known k l (k', l') =
      (Keeps-trans s s1 s2 k k', (secret, known, rw l' (rw l refl)))
  prepared-Dialed conn secret s s1 (err e, s2) known k l (k', (todo, done, parts, l')) = (
    Keeps-trans s s1 s2 k k',
    inr (conn, s2.log, (secret, todo, done, parts, rw l' (rw l refl)), refl),
  )
  prepared-Dialed conn secret s s1 (panic, s2) known k l (k', (todo, done, parts, l')) =
      (Keeps-trans s s1 s2 k k', inr (conn, (secret, todo, done, parts, rw l' (rw l refl))))

  abbrev after_secret : Bytes → M (World W) ℕ
  after_secret secret = dial net c.addr c.dial_timeout >>= λ conn.
      or_close net conn (prepare net c conn secret) >>= λ t. give (ok conn)

  connected-Dialed :
      (secret : Bytes) (s s1 : World W) (env' : W) (r : Result ℕ)
      → (auth_secret net c s).0 ≡ ok secret
      → Keeps s s1
      → s1.log ≡ s.log
      → Dialed s (
          continue
            (λ conn. or_close net conn (prepare net c conn secret) >>= λ t. give (ok conn))
            (r, record s1 { env = env'; log = log_open net r s1.log }))
  unfolding Stage
  connected-Dialed secret s s1 env' (ok conn) known k l =
      let s2 = record s1 { env = env'; log = opened conn ∷ s1.log } in
      prepared-Dialed conn secret s s2 (prepare net c conn secret s2) known k
        (ap (◌∷◌ (opened conn)) l) (prepare-Stage net c conn secret s2)
  connected-Dialed secret s s1 env' (err e) known k l = (k, inl l)
  connected-Dialed secret s s1 env' panic known k l = (k, inl l)

  secret-Dialed :
      (s s1 : World W) (r : Result Bytes)
      → (auth_secret net c s).0 ≡ r
      → Traced [] s (r, s1)
      → Dialed s (continue after_secret (r, s1))
  unfolding dial
  secret-Dialed s s1 (ok secret) known (k, l) =
      let (r, env') = net.dial_timeout c.addr c.dial_timeout s1.env in
      connected-Dialed secret s s1 env' r known k l
  secret-Dialed s s1 (err e) known (k, l) = (k, inl (nothing-logged s s1 l))
  secret-Dialed s s1 panic known (k, l) = (k, inl (nothing-logged s s1 l))

  read_password_file-Stage : (path : Bytes) → Stage [] (read_password_file net path)
  unfolding read_password_file
  read_password_file-Stage path =
      let context = codes "redis: reading redisPasswordFile " ++ (path ++ codes ": ") in
      >>=-Stage [] [] (in_context context (silently net (net.read_file path))) _
        (in_context-Stage [] context (silently net (net.read_file path)) (silently-Stage net _))
        (λ raw. give-Stage net _)

  auth_secret-Stage : Stage [] (auth_secret net c)
  unfolding auth_secret
  auth_secret-Stage =
      if-both (Stage []) (is_empty c.auth_file) _ (read_password_file net c.auth_file)
        (give-Stage net (ok c.auth)) (read_password_file-Stage c.auth_file)

  -- newConn leaves the pool alone. When it gives a connection, it has opened one and none besides, has
  -- secured it first if there is a TLS configuration, then sent AUTH if the secret is not empty, then
  -- SELECT, and nothing else. When it fails, it has opened no connection, or got to some of these steps
  -- and then closed the one it opened. When it panics, the same without the closing.
  pub new_conn-Dialed : (s : World W) → Dialed s (new_conn net c s)
  unfolding new_conn Stage
  new_conn-Dialed s =
      let (r, s1) = auth_secret net c s in secret-Dialed s s1 r refl (auth_secret-Stage s)
