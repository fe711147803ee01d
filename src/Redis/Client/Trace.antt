-- ===== src/Redis/Client/Trace.antt =====
-- internal/redis/redis.go: newConn, from its first call to its last.
use traefik_cluster_ratelimi.Common.{
  refl, ℕ, Bool, true, false, not, Option, none, some, List, [], ◌∷◌, ◌++◌, if◌then◌else◌,
}
use traefik_cluster_ratelimi.Common.Int.{ℤ}
use traefik_cluster_ratelimi.Common.Bytes.{Bytes, codes, is_empty}
use traefik_cluster_ratelimi.Common.Decimal.{format_int}
use traefik_cluster_ratelimi.Common.Result.{Result, ok, err, panic}
use traefik_cluster_ratelimi.Common.State.{M, continue, ◌>>=◌, ◌>>◌, give, in_context}
use traefik_cluster_ratelimi.Redis.Resp.{command, read_reply, RedisResult}
use traefik_cluster_ratelimi.Redis.Network.{
  Network, World, Event, secured, sent, TlsConfig, silently, set_deadline, log_secured, handshake,
  write, receive_reply, send_command,
}
use traefik_cluster_ratelimi.Redis.Client.{Client, secure, authenticate, select, prepare}
use traefik_cluster_ratelimi.Redis.Client.Stages.{
  Keeps, Logs, Traced, Stage, >>=-Stage, Logs-Traced, in_context-Stage,
}

-- The command that gives the secret, with the user's name when there is one.
abbrev auth_command : Bytes → Bytes → List Bytes
auth_command username secret =
    if not (is_empty username)
    then codes "AUTH" ∷ username ∷ secret ∷ []
    else codes "AUTH" ∷ secret ∷ []

-- The command that selects a database.
abbrev select_command : ℤ → List Bytes
select_command db = codes "SELECT" ∷ format_int db ∷ []

-- The events of each step, and of all of them.
unfoldable pub secure_events : Option TlsConfig → ℕ → List Event
secure_events none conn = []
secure_events (some cfg) conn = secured conn ∷ []

unfoldable pub auth_events : Client → ℕ → Bytes → List Event
auth_events c conn secret =
    if not (is_empty secret) then sent conn (command (auth_command c.username secret)) ∷ [] else []

unfoldable pub prepare_events : Client → ℕ → Bytes → List Event
prepare_events c conn secret =
    sent conn (command (select_command c.db))
    ∷ (auth_events c conn secret ++ secure_events c.tls_cfg conn)

module _ {W : Type 0} (net : Network W) where
  pub silently-Stage : {A : Type 0} (call : W → Result A × W) → Stage [] (silently net call)
  unfolding Stage
  silently-Stage call s = Logs-Traced [] s _ (call s.env).0 (refl, refl, refl) refl

  write-Stage : (conn : ℕ) (bytes : Bytes) → Stage (sent conn bytes ∷ []) (write net conn bytes)
  unfolding write Stage
  write-Stage conn bytes s =
      Logs-Traced (sent conn bytes ∷ []) s _ (net.write conn bytes s.env).0 (refl, refl, refl) refl

  handshake-Traced :
      (conn : ℕ) (s : World W) (env' : W) (r : Result (Unit {0}))
      → Traced
          (secured conn ∷ [])
          s
          (r, record s { env = env'; log = log_secured net conn r s.log })
  handshake-Traced conn s env' (ok tt) = ((refl, refl, refl), refl)
  handshake-Traced conn s env' (err e) = ((refl, refl, refl), (secured conn ∷ [], [], refl, refl))
  handshake-Traced conn s env' panic = ((refl, refl, refl), (secured conn ∷ [], [], refl, refl))

  handshake-Stage :
      (conn : ℕ) (cfg : TlsConfig) → Stage (secured conn ∷ []) (handshake net conn cfg)
  unfolding handshake Stage
  handshake-Stage conn cfg s =
      let (r, env') = net.handshake conn cfg s.env in handshake-Traced conn s env' r

  read-Traced :
      (s s' : World W) (r : Result (RedisResult × Bytes))
      → Keeps s s'
      → Logs [] s s'
      → Traced [] s (continue (λ (reply, rest) s. (ok reply, s)) (r, s'))
  read-Traced s s' (ok (reply, rest)) k l = (k, l)
  read-Traced s s' (err e) k l = (k, ([], [], refl, l))
  read-Traced s s' panic k l = (k, ([], [], refl, l))

  receive_reply-Stage : (conn : ℕ) → Stage [] (receive_reply net conn)
  unfolding receive_reply Stage
  receive_reply-Stage conn s =
      let (incoming, env') = net.receive conn s.env in
      read-Traced s _ (read_reply incoming.broken incoming.bytes) (refl, refl, refl) refl

  set_deadline-Stage :
      (context : Bytes) (conn : ℕ) (deadline : Option ℤ)
      → Stage [] (in_context context (set_deadline net conn deadline))
  set_deadline-Stage context conn deadline =
      in_context-Stage [] context (set_deadline net conn deadline) (silently-Stage _)

  pub send_command-Stage :
      (conn : ℕ) (timeout : ℤ) (args : List Bytes)
      → Stage (sent conn (command args) ∷ []) (send_command net conn timeout args)
  unfolding send_command
  send_command-Stage conn timeout args =
      let wrote = in_context (codes "error sending command: ") (write net conn (command args)) in
      let read = receive_reply net conn in
      let wrote-Stage =
        in_context-Stage _ (codes "error sending command: ") (write net conn (command args))
          (write-Stage conn (command args)) in
      >>=-Stage [] (sent conn (command args) ∷ [])
        (in_context (codes "error setting deadline: ") (set_deadline net conn (some timeout)))
        (λ t. wrote >> read)
        (set_deadline-Stage (codes "error setting deadline: ") conn (some timeout))
        (λ t.
          >>=-Stage (sent conn (command args) ∷ []) [] wrote (λ t'. read) wrote-Stage
            (λ t'. receive_reply-Stage conn))

  pub give-Stage : {A : Type 0} (r : Result A) → Stage {W = W} [] (give r)
  unfolding Stage
  give-Stage r s = Logs-Traced [] s s r (refl, refl, refl) refl

  secure-Stage :
      (c : Client) (cfg : Option TlsConfig) (conn : ℕ)
      → Stage (secure_events cfg conn) (secure net c cfg conn)
  unfolding secure secure_events Stage
  secure-Stage c none conn = give-Stage (ok tt)
  secure-Stage c (some cfg) conn =
      let before = set_deadline net conn (some c.dial_timeout) in
      let context = codes "TLS handshake to " ++ (c.addr ++ codes " failed: ") in
      let shake = in_context context (handshake net conn cfg) in
      >>=-Stage (secured conn ∷ []) [] (before >> shake) (λ t. set_deadline net conn none)
        (>>=-Stage [] (secured conn ∷ []) before (λ t. shake)
          (silently-Stage (net.set_deadline conn (some c.dial_timeout)))
          (λ t.
            in_context-Stage (secured conn ∷ []) context (handshake net conn cfg)
              (handshake-Stage conn cfg)))
        (λ t. silently-Stage (net.set_deadline conn none))

  -- A command, and a check of its reply.
  asked-Stage :
      {A : Type 0} (conn : ℕ) (timeout : ℤ) (args : List Bytes) (check : RedisResult → Result A)
      → Stage
          (sent conn (command args) ∷ [])
          (send_command net conn timeout args >>= λ resp. give (check resp))
  asked-Stage conn timeout args check =
      >>=-Stage (sent conn (command args) ∷ []) [] (send_command net conn timeout args)
        (λ resp. give (check resp)) (send_command-Stage conn timeout args)
        (λ resp. give-Stage (check resp))

  pub if-Stage :
      (test : Bool) (events : List Event) (call : M (World W) (Unit {0}))
      → Stage events call
      → Stage (if test then events else []) (if test then call else give (ok tt))
  unfolding Stage
  if-Stage true events call t = t
  if-Stage false events call t = give-Stage (ok tt)

  pub prepare-Stage :
      (c : Client) (conn : ℕ) (secret : Bytes)
      → Stage (prepare_events c conn secret) (prepare net c conn secret)
  unfolding prepare authenticate select prepare_events auth_events
  prepare-Stage c conn secret =
      >>=-Stage (auth_events c conn secret ++ secure_events c.tls_cfg conn) _
        (secure net c c.tls_cfg conn >> authenticate net c conn secret) (λ t. select net c conn)
        (>>=-Stage (secure_events c.tls_cfg conn) (auth_events c conn secret)
          (secure net c c.tls_cfg conn) (λ t. authenticate net c conn secret)
          (secure-Stage c c.tls_cfg conn)
          (λ t. if-Stage _ _ _ (asked-Stage conn c.connection_timeout _ _)))
        (λ t. asked-Stage conn c.connection_timeout (select_command c.db) _)
