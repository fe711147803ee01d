-- ===== src/Redis/Client/Keyed.antt =====
-- internal/redis/redis.go and script.go: of the keys in Redis, a call of the client touches none but
-- those that its commands name.
use traefik_cluster_ratelimi.Common.{
  ◌≡◌, ◌≢◌, refl, ◌∙◌, ℕ, Bool, true, false, Option, none, some, List, [], ◌∷◌, ◌++◌, if◌then◌else◌,
  leb, length,
}
use traefik_cluster_ratelimi.Common.Int.{ℤ}
use traefik_cluster_ratelimi.Common.Bytes.{Bytes, codes, is_empty}
use traefik_cluster_ratelimi.Common.Result.{Result, ok, err, panic}
use traefik_cluster_ratelimi.Common.State.{
  M, continue, ◌>>=◌, ◌>>◌, give, in_context, Along, >>=-Along,
}
use traefik_cluster_ratelimi.Redis.Resp.{command, read_reply, RedisResult}
use traefik_cluster_ratelimi.Redis.Network.{
  Network, World, TlsConfig, silently, set_deadline, dial, handshake, close, write, receive_reply,
  send_command,
}
use traefik_cluster_ratelimi.Redis.Client.{
  Client, auth_args, select_args, read_password_file, auth_secret, closing, or_close, secure,
  authenticate, select, prepare, new_conn,
}
use traefik_cluster_ratelimi.Redis.Client.Pool.{get, take_idle, put, with_conn, exchange}

-- The commands of the client that do not name the key: they handle the connection or load a script, or
-- run a script with another key.
pub data Spares (key : Bytes) : List Bytes → Type 0 where
  authenticates : (args : List Bytes) → Spares key (codes "AUTH" ∷ args)
  selects : (args : List Bytes) → Spares key (codes "SELECT" ∷ args)
  loads : (args : List Bytes) → Spares key (codes "SCRIPT" ∷ args)
  evaluates :
      (sha other : Bytes) (args : List Bytes)
      → other ≢ key
      → Spares key (codes "EVALSHA" ∷ sha ∷ codes "1" ∷ other ∷ args)

-- What Redis keeps under a key is part of the network's state, whatever it may be. As documented, a
-- script touches no key but those it is given, and of the other commands these touch none. Nothing but
-- a command that is written changes what is kept.
pub record IsKeyed {W V : Type 0} (net : Network W) (key : Bytes) (kept : W → V) : Type 0 where
  pub dials :
      (addr : Bytes) (timeout : ℤ) (w : W) → kept (net.dial_timeout addr timeout w).1 ≡ kept w
  pub sets :
      (conn : ℕ) (deadline : Option ℤ) (w : W) → kept (net.set_deadline conn deadline w).1 ≡ kept w
  pub shakes : (conn : ℕ) (cfg : TlsConfig) (w : W) → kept (net.handshake conn cfg w).1 ≡ kept w
  pub writes :
      (conn : ℕ) (args : List Bytes) (w : W)
      → Spares key args
      → kept (net.write conn (command args) w).1 ≡ kept w
  pub receives : (conn : ℕ) (w : W) → kept (net.receive conn w).1 ≡ kept w
  pub closes : (conn : ℕ) (w : W) → kept (net.close conn w) ≡ kept w
  pub reads : (path : Bytes) (w : W) → kept (net.read_file path w).1 ≡ kept w

module _ {W V : Type 0} (net : Network W) (key : Bytes) (kept : W → V)
    (keyed : IsKeyed net key kept) where
  open keyed use {dials, sets, shakes, writes, receives, closes, reads}

  abbrev pub Same : World W → World W → Type 0
  Same s s' = kept s'.env ≡ kept s.env

  Same-trans : (s s1 s2 : World W) → Same s s1 → Same s1 s2 → Same s s2
  Same-trans s s1 s2 h k = k ∙ h

  abbrev pub Spared : {A : Type 0} → M (World W) A → Type 0
  Spared call = Along Same call

  pub >>=-Spared :
      {A B : Type 0} (call : M (World W) A) (next : A → M (World W) B)
      → Spared call
      → ((a : A) → Spared (next a))
      → Spared (call >>= next)
  >>=-Spared call next h along = >>=-Along Same Same-trans call next h along

  pub give-Spared : {A : Type 0} (r : Result A) → Spared (give r)
  give-Spared r s = refl

  write-Spared :
      (conn : ℕ) (args : List Bytes) → Spares key args → Spared (write net conn (command args))
  unfolding write
  write-Spared conn args spares s = writes conn args s.env spares

  handshake-Spared : (conn : ℕ) (cfg : TlsConfig) → Spared (handshake net conn cfg)
  unfolding handshake
  handshake-Spared conn cfg s = shakes conn cfg s.env

  read-Spared :
      (s s' : World W) (r : Result (RedisResult × Bytes))
      → Same s s'
      → Same s (continue (λ (reply, rest) s. (ok reply, s)) (r, s')).1
  read-Spared s s' (ok (reply, rest)) h = h
  read-Spared s s' (err e) h = h
  read-Spared s s' panic h = h

  receive_reply-Spared : (conn : ℕ) → Spared (receive_reply net conn)
  unfolding receive_reply
  receive_reply-Spared conn s =
      let (incoming, env') = net.receive conn s.env in
      read-Spared s (record s { env = env' }) (read_reply incoming.broken incoming.bytes)
        (receives conn s.env)

  deadline-Spared : (conn : ℕ) (deadline : Option ℤ) → Spared (set_deadline net conn deadline)
  deadline-Spared conn deadline s = sets conn deadline s.env

  send_command-Spared :
      (conn : ℕ) (timeout : ℤ) (args : List Bytes)
      → Spares key args
      → Spared (send_command net conn timeout args)
  unfolding send_command
  send_command-Spared conn timeout args spares =
      let wrote = in_context (codes "error sending command: ") (write net conn (command args)) in
      let read = receive_reply net conn in
      >>=-Spared
        (in_context (codes "error setting deadline: ") (set_deadline net conn (some timeout)))
        (λ t. wrote >> read) (deadline-Spared conn (some timeout))
        (λ t.
          >>=-Spared wrote (λ t'. read) (write-Spared conn args spares)
            (λ t'. receive_reply-Spared conn))

  closing-Spared :
      {A : Type 0} (conn : ℕ) (s : World W) (r : Result A × World W)
      → Same s r.1
      → Same s (closing net conn r).1
  unfolding close
  closing-Spared conn s (ok a, s1) h = h
  closing-Spared conn s (err e, s1) h = closes conn s1.env ∙ h
  closing-Spared conn s (panic, s1) h = h

  pub exchange-Spared :
      (c : Client) (conn : Option ℕ) (args : List Bytes)
      → Spares key args
      → Spared (exchange net c conn args)
  unfolding exchange
  exchange-Spared c none args spares s = refl
  exchange-Spared c (some conn) args spares s =
      closing-Spared conn s (send_command net conn c.connection_timeout args s)
        (send_command-Spared conn c.connection_timeout args spares s)

  secure-Spared : (c : Client) (cfg : Option TlsConfig) (conn : ℕ) → Spared (secure net c cfg conn)
  unfolding secure
  secure-Spared c none conn = give-Spared (ok tt)
  secure-Spared c (some cfg) conn =
      let before = set_deadline net conn (some c.dial_timeout) in
      let shake =
        in_context (codes "TLS handshake to " ++ (c.addr ++ codes " failed: "))
          (handshake net conn cfg) in
      >>=-Spared (before >> shake) (λ t. set_deadline net conn none)
        (>>=-Spared before (λ t. shake) (deadline-Spared conn (some c.dial_timeout))
          (λ t. handshake-Spared conn cfg))
        (λ t. deadline-Spared conn none)

  asked-Spared :
      {A : Type 0} (conn : ℕ) (timeout : ℤ) (args : List Bytes) (check : RedisResult → Result A)
      → Spares key args
      → Spared (send_command net conn timeout args >>= λ resp. give (check resp))
  asked-Spared conn timeout args check spares =
      >>=-Spared (send_command net conn timeout args) (λ resp. give (check resp))
        (send_command-Spared conn timeout args spares) (λ resp. give-Spared (check resp))

  pub if-Spared :
      {A : Type 0} (test : Bool) (call other : M (World W) A)
      → Spared call
      → Spared other
      → Spared (if test then call else other)
  if-Spared true call other h k = h
  if-Spared false call other h k = k

  auth_args-Spares : (username secret : Bytes) → Spares key (auth_args username secret)
  auth_args-Spares [] secret = authenticates _
  auth_args-Spares (b ∷ username) secret = authenticates _

  prepare-Spared : (c : Client) (conn : ℕ) (secret : Bytes) → Spared (prepare net c conn secret)
  unfolding prepare authenticate select
  prepare-Spared c conn secret =
      >>=-Spared (secure net c c.tls_cfg conn >> authenticate net c conn secret)
        (λ t. select net c conn)
        (>>=-Spared (secure net c c.tls_cfg conn) (λ t. authenticate net c conn secret)
          (secure-Spared c c.tls_cfg conn)
          (λ t.
            if-Spared _ _ _
              (asked-Spared conn c.connection_timeout (auth_args c.username secret) _
                (auth_args-Spares c.username secret))
              (give-Spared (ok tt))))
        (λ t. asked-Spared conn c.connection_timeout (select_args c.db) _ (selects _))

  auth_secret-Spared : (c : Client) → Spared (auth_secret net c)
  unfolding auth_secret read_password_file
  auth_secret-Spared c = if-Spared (is_empty c.auth_file) _ _ (give-Spared (ok c.auth)) (
      >>=-Spared
        (in_context (codes "redis: reading redisPasswordFile " ++ (c.auth_file ++ codes ": "))
          (silently net (net.read_file c.auth_file)))
        _ (λ s. reads c.auth_file s.env) (λ raw s. refl))

  or_close-Spared :
      {A : Type 0} (conn : ℕ) (call : M (World W) A) → Spared call → Spared (or_close net conn call)
  or_close-Spared conn call spared s = closing-Spared conn s (call s) (spared s)

  dial-Spared : (addr : Bytes) (timeout : ℤ) → Spared (dial net addr timeout)
  unfolding dial
  dial-Spared addr timeout s = dials addr timeout s.env

  new_conn-Spared : (c : Client) → Spared (new_conn net c)
  unfolding new_conn
  new_conn-Spared c = >>=-Spared (auth_secret net c) _ (auth_secret-Spared c) (λ secret.
      >>=-Spared (dial net c.addr c.dial_timeout) _ (dial-Spared c.addr c.dial_timeout) (λ conn.
        >>=-Spared (or_close net conn (prepare net c conn secret)) (λ t. give (ok conn))
          (or_close-Spared conn (prepare net c conn secret) (prepare-Spared c conn secret))
          (λ t. give-Spared (ok conn))))

  either-Same :
      {A : Type 0} (test : Bool) (s : World W) (r r' : Result A × World W)
      → Same s r.1
      → Same s r'.1
      → Same s (if test then r else r').1
  either-Same true s r r' h k = h
  either-Same false s r r' h k = k

  take_idle-Spared : (c : Client) (conns : List ℕ) → Spared (take_idle net c conns)
  take_idle-Spared c (conn ∷ conns) s = refl
  take_idle-Spared c [] s =
      either-Same s.shut s (ok none, s) _ refl
        (>>=-Spared (new_conn net c) (λ conn. give (ok (some conn))) (new_conn-Spared c)
          (λ conn. give-Spared (ok (some conn))) s)

  put-Spared : (c : Client) (conn : Option ℕ) → Spared (put net c conn)
  unfolding put close
  put-Spared c none s = refl
  put-Spared c (some conn) s =
      either-Same (leb c.pool_size (length s.idle)) s _ _ (closes conn s.env)
        (either-Same s.shut s _ _ refl refl)

  pub with_conn-Spared :
      {A : Type 0} (c : Client) (body : Option ℕ → M (World W) A)
      → ((conn : Option ℕ) → Spared (body conn))
      → Spared (with_conn net c body)
  unfolding with_conn get
  with_conn-Spared c body spared =
      >>=-Spared (get net c) _ (λ s. take_idle-Spared c s.idle s)
        (λ conn s. put-Spared c conn (body conn s).1 ∙ spared conn s)
