-- ===== src/Redis/Client/Numbered.antt =====
-- internal/redis/redis.go: connections are objects of their own, which no later one is taken for. A
-- network numbers them as they are made.
use traefik_cluster_ratelimi.Common.{
  ◌≡◌, refl, ℕ, ◌≤◌, ◌<◌, Bool, true, false, Option, none, some, List, ◌++◌, if◌then◌else◌, arith,
}
use traefik_cluster_ratelimi.Common.Int.{ℤ}
use traefik_cluster_ratelimi.Common.Bytes.{Bytes, codes, is_empty}
use traefik_cluster_ratelimi.Common.Result.{Result, ok, err, panic}
use traefik_cluster_ratelimi.Common.State.{
  M, continue, ◌>>=◌, ◌>>◌, give, in_context, Along, >>=-Along,
}
use traefik_cluster_ratelimi.Redis.Resp.{command, read_reply, RedisResult}
use traefik_cluster_ratelimi.Redis.Network.{
  Network, World, TlsConfig, silently, set_deadline, dial, handshake, close, write, receive_reply,
  send_command,
}
use traefik_cluster_ratelimi.Redis.Client.{
  Client, select_args, read_password_file, auth_secret, closing, secure, authenticate, select,
  prepare, new_conn,
}
use traefik_cluster_ratelimi.Redis.Client.Pool.{exchange}

-- `made` counts the connections that were ever made. Dialling gives a number that is not below it,
-- and leaves it above that number; nothing makes it smaller.
pub record IsNumbering {W : Type 0} (net : Network W) (made : W → ℕ) : Type 0 where
  pub dials :
      (addr : Bytes) (timeout : ℤ) (w : W) → made w ≤ made (net.dial_timeout addr timeout w).1
  pub numbers :
      (addr : Bytes) (timeout : ℤ) (w : W) (conn : ℕ)
      → (net.dial_timeout addr timeout w).0 ≡ ok conn
      → (made w ≤ conn) × (conn < made (net.dial_timeout addr timeout w).1)
  pub sets :
      (conn : ℕ) (deadline : Option ℤ) (w : W) → made w ≤ made (net.set_deadline conn deadline w).1
  pub shakes : (conn : ℕ) (cfg : TlsConfig) (w : W) → made w ≤ made (net.handshake conn cfg w).1
  pub writes : (conn : ℕ) (bytes : Bytes) (w : W) → made w ≤ made (net.write conn bytes w).1
  pub receives : (conn : ℕ) (w : W) → made w ≤ made (net.receive conn w).1
  pub closes : (conn : ℕ) (w : W) → made w ≤ made (net.close conn w)
  pub reads : (path : Bytes) (w : W) → made w ≤ made (net.read_file path w).1

module _ {W : Type 0} (net : Network W) (made : W → ℕ) (numbering : IsNumbering net made) where
  open numbering use {dials, numbers, sets, shakes, writes, receives, closes, reads}

  abbrev pub Later : World W → World W → Type 0
  Later s s' = made s.env ≤ made s'.env

  Later-trans : (s s1 s2 : World W) → Later s s1 → Later s1 s2 → Later s s2
  Later-trans s s1 s2 h k = omega (arith, h, k)

  abbrev pub Grows : {A : Type 0} → M (World W) A → Type 0
  Grows call = Along Later call

  >>=-Grows :
      {A B : Type 0} (call : M (World W) A) (next : A → M (World W) B)
      → Grows call
      → ((a : A) → Grows (next a))
      → Grows (call >>= next)
  >>=-Grows call next h along = >>=-Along Later Later-trans call next h along

  give-Grows : {A : Type 0} (r : Result A) → Grows (give r)
  give-Grows r s = omega arith

  write-Grows : (conn : ℕ) (bytes : Bytes) → Grows (write net conn bytes)
  unfolding write
  write-Grows conn bytes s = writes conn bytes s.env

  handshake-Grows : (conn : ℕ) (cfg : TlsConfig) → Grows (handshake net conn cfg)
  unfolding handshake
  handshake-Grows conn cfg s = shakes conn cfg s.env

  read-Grows :
      (s s' : World W) (r : Result (RedisResult × Bytes))
      → Later s s'
      → Later s (continue (λ (reply, rest) s. (ok reply, s)) (r, s')).1
  read-Grows s s' (ok (reply, rest)) h = h
  read-Grows s s' (err e) h = h
  read-Grows s s' panic h = h

  receive_reply-Grows : (conn : ℕ) → Grows (receive_reply net conn)
  unfolding receive_reply
  receive_reply-Grows conn s =
      let (incoming, env') = net.receive conn s.env in
      read-Grows s (record s { env = env' }) (read_reply incoming.broken incoming.bytes)
        (receives conn s.env)

  deadline-Grows : (conn : ℕ) (deadline : Option ℤ) → Grows (set_deadline net conn deadline)
  deadline-Grows conn deadline s = sets conn deadline s.env

  send_command-Grows :
      (conn : ℕ) (timeout : ℤ) (args : List Bytes) → Grows (send_command net conn timeout args)
  unfolding send_command
  send_command-Grows conn timeout args =
      let wrote = in_context (codes "error sending command: ") (write net conn (command args)) in
      let read = receive_reply net conn in
      >>=-Grows
        (in_context (codes "error setting deadline: ") (set_deadline net conn (some timeout)))
        (λ t. wrote >> read) (deadline-Grows conn (some timeout))
        (λ t.
          >>=-Grows wrote (λ t'. read) (write-Grows conn (command args))
            (λ t'. receive_reply-Grows conn))

  closing-Grows :
      {A : Type 0} (conn : ℕ) (s : World W) (r : Result A × World W)
      → Later s r.1
      → Later s (closing net conn r).1
  unfolding close
  closing-Grows conn s (ok a, s1) h = h
  closing-Grows conn s (err e, s1) h = let more = closes conn s1.env in omega (arith, h, more)
  closing-Grows conn s (panic, s1) h = h

  pub exchange-Grows :
      (c : Client) (conn : Option ℕ) (args : List Bytes) → Grows (exchange net c conn args)
  unfolding exchange
  exchange-Grows c none args s = omega arith
  exchange-Grows c (some conn) args s =
      closing-Grows conn s (send_command net conn c.connection_timeout args s)
        (send_command-Grows conn c.connection_timeout args s)

  secure-Grows : (c : Client) (cfg : Option TlsConfig) (conn : ℕ) → Grows (secure net c cfg conn)
  unfolding secure
  secure-Grows c none conn = give-Grows (ok tt)
  secure-Grows c (some cfg) conn =
      let before = set_deadline net conn (some c.dial_timeout) in
      let shake =
        in_context (codes "TLS handshake to " ++ (c.addr ++ codes " failed: "))
          (handshake net conn cfg) in
      >>=-Grows (before >> shake) (λ t. set_deadline net conn none)
        (>>=-Grows before (λ t. shake) (deadline-Grows conn (some c.dial_timeout))
          (λ t. handshake-Grows conn cfg))
        (λ t. deadline-Grows conn none)

  asked-Grows :
      {A : Type 0} (conn : ℕ) (timeout : ℤ) (args : List Bytes) (check : RedisResult → Result A)
      → Grows (send_command net conn timeout args >>= λ resp. give (check resp))
  asked-Grows conn timeout args check =
      >>=-Grows (send_command net conn timeout args) (λ resp. give (check resp))
        (send_command-Grows conn timeout args) (λ resp. give-Grows (check resp))

  if-Grows :
      {A : Type 0} (test : Bool) (call other : M (World W) A)
      → Grows call
      → Grows other
      → Grows (if test then call else other)
  if-Grows true call other h k = h
  if-Grows false call other h k = k

  prepare-Grows : (c : Client) (conn : ℕ) (secret : Bytes) → Grows (prepare net c conn secret)
  unfolding prepare authenticate select
  prepare-Grows c conn secret =
      >>=-Grows (secure net c c.tls_cfg conn >> authenticate net c conn secret)
        (λ t. select net c conn)
        (>>=-Grows (secure net c c.tls_cfg conn) (λ t. authenticate net c conn secret)
          (secure-Grows c c.tls_cfg conn)
          (λ t. if-Grows _ _ _ (asked-Grows conn c.connection_timeout _ _) (give-Grows (ok tt))))
        (λ t. asked-Grows conn c.connection_timeout (select_args c.db) _)

  auth_secret-Grows : (c : Client) → Grows (auth_secret net c)
  unfolding auth_secret read_password_file
  auth_secret-Grows c = if-Grows (is_empty c.auth_file) _ _ (give-Grows (ok c.auth)) (
      >>=-Grows
        (in_context (codes "redis: reading redisPasswordFile " ++ (c.auth_file ++ codes ": "))
          (silently net (net.read_file c.auth_file)))
        _ (λ s. reads c.auth_file s.env) (λ raw s. omega arith))

  -- A connection that is given is numbered within the call; otherwise the count is not smaller.
  abbrev pub Numbers : World W → Result ℕ × World W → Type 0
  Numbers s (ok conn, s') = (made s.env ≤ conn) × (conn < made s'.env)
  Numbers s (err e, s') = Later s s'
  Numbers s (panic, s') = Later s s'

  Numbers-after :
      (s s1 : World W) (r : Result ℕ × World W) → Later s s1 → Numbers s1 r → Numbers s r
  Numbers-after s s1 (ok conn, s') h (low, high) = (omega (arith, h, low), high)
  Numbers-after s s1 (err e, s') h k = omega (arith, h, k)
  Numbers-after s s1 (panic, s') h k = omega (arith, h, k)

  secret-Numbers :
      (next : Bytes → M (World W) ℕ) (s : World W) (r : Result Bytes × World W)
      → Later s r.1
      → ((secret : Bytes) (s1 : World W) → Numbers s1 (next secret s1))
      → Numbers s (continue next r)
  secret-Numbers next s (ok secret, s1) h each =
      Numbers-after s s1 (next secret s1) h (each secret s1)
  secret-Numbers next s (err e, s1) h each = h
  secret-Numbers next s (panic, s1) h each = h

  prepared-Numbers :
      (conn : ℕ) (s : World W) (r : Result (Unit {0}) × World W)
      → made s.env ≤ conn
      → conn < made r.1.env
      → Numbers s (continue (λ t. give (ok conn)) (closing net conn r))
  unfolding close
  prepared-Numbers conn s (ok t, s1) low high = (low, high)
  prepared-Numbers conn s (err e, s1) low high =
      let more = closes conn s1.env in omega (arith, low, high, more)
  prepared-Numbers conn s (panic, s1) low high = omega (arith, low, high)

  dialled-Numbers :
      (c : Client) (secret : Bytes) (s s1 : World W) (r : Result ℕ)
      → ((conn : ℕ) → r ≡ ok conn → (made s.env ≤ conn) × (conn < made s1.env))
      → Later s s1
      → Numbers s (
          continue
            (λ conn. (λ t. closing net conn (prepare net c conn secret t)) >> give (ok conn))
            (r, s1))
  dialled-Numbers c secret s s1 (ok conn) numbered h =
      let (low, high) = numbered conn refl in
      let more = prepare-Grows c conn secret s1 in
      prepared-Numbers conn s (prepare net c conn secret s1) low (omega (arith, high, more))
  dialled-Numbers c secret s s1 (err e) numbered h = h
  dialled-Numbers c secret s s1 panic numbered h = h

  pub new_conn-Numbers : (c : Client) (s : World W) → Numbers s (new_conn net c s)
  unfolding new_conn dial
  new_conn-Numbers c s =
      secret-Numbers _ s (auth_secret net c s) (auth_secret-Grows c s) (λ secret s1.
        dialled-Numbers c secret s1 _ (net.dial_timeout c.addr c.dial_timeout s1.env).0
          (λ conn given. numbers c.addr c.dial_timeout s1.env conn given)
          (dials c.addr c.dial_timeout s1.env))
