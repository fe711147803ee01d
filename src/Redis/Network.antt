-- ===== src/Redis/Network.antt =====
-- What the client of internal/redis/redis.go does to the world: sockets, files and certificates, and
-- sendCommand on a connection. The world is the parameter `Network`, over a state of its own; next to
-- that state a log is kept of the connections that are opened, secured and closed and of what is
-- written, the latest first, and the pool of idle connections, the channel `conns`, first come first
-- served, whether that is closed, and the scriptSha of each script.
use traefik_cluster_ratelimi.Common.{ℕ, Bool, Option, some, List, ◌∷◌}
use traefik_cluster_ratelimi.Common.Int.{ℤ}
use traefik_cluster_ratelimi.Common.Bytes.{Bytes, codes}
use traefik_cluster_ratelimi.Common.Result.{Result, ok, err, panic}
use traefik_cluster_ratelimi.Common.State.{M, continue, ◌>>◌, in_context}
use traefik_cluster_ratelimi.Redis.Resp.{command, read_reply, RedisResult}

-- What a bufio.Reader on a connection will deliver, and the error after that.
pub record Incoming : Type 0 where
  pub bytes : Bytes
  pub broken : Bytes

pub record TlsConfig : Type 0 where
  pub server_name : Bytes
  pub root_cas : Option Bytes
  pub certificate : Option Bytes

-- A connection is a number. A duration counts from now, and `none` is the zero time, no deadline.
-- The TLS connection over a socket goes by the socket's number.
pub record Network (W : Type 0) : Type 0 where
  pub dial_timeout : Bytes → ℤ → W → Result ℕ × W
  pub set_deadline : ℕ → Option ℤ → W → Result (Unit {0}) × W
  pub handshake : ℕ → TlsConfig → W → Result (Unit {0}) × W
  pub write : ℕ → Bytes → W → Result (Unit {0}) × W
  pub receive : ℕ → W → Incoming × W
  pub close : ℕ → W → W
  pub read_file : Bytes → W → Result Bytes × W
  pub append_certs_from_pem : Bytes → Bool
  pub load_x509_key_pair : Bytes → Bytes → W → Result Bytes × W
  -- strconv.Quote
  pub quote : Bytes → Bytes

pub data Event : Type 0 where
  opened secured closed : ℕ → Event
  sent : ℕ → Bytes → Event

pub record World (W : Type 0) : Type 0 where
  pub env : W
  pub log : List Event
  pub idle : List ℕ
  pub shut : Bool
  pub shas : ℕ → Bytes

module _ {W : Type 0} (net : Network W) where
  -- A call that leaves no trace in the log.
  abbrev pub silently : {A : Type 0} → (W → Result A × W) → M (World W) A
  silently call s = let (r, env') = call s.env in (r, record s { env = env' })

  abbrev pub log_open : Result ℕ → List Event → List Event
  log_open (ok conn) log = opened conn ∷ log
  log_open (err e) log = log
  log_open panic log = log

  unfoldable pub dial : Bytes → ℤ → M (World W) ℕ
  dial addr timeout s =
      let (r, env') = net.dial_timeout addr timeout s.env in
      (r, record s { env = env'; log = log_open r s.log })

  abbrev pub log_secured : ℕ → Result (Unit {0}) → List Event → List Event
  log_secured conn (ok tt) log = secured conn ∷ log
  log_secured conn (err e) log = log
  log_secured conn panic log = log

  unfoldable pub handshake : ℕ → TlsConfig → M (World W) (Unit {0})
  handshake conn cfg s =
      let (r, env') = net.handshake conn cfg s.env in
      (r, record s { env = env'; log = log_secured conn r s.log })

  unfoldable pub close : ℕ → M (World W) (Unit {0})
  close conn s = (ok tt, record s { env = net.close conn s.env; log = closed conn ∷ s.log })

  -- Bytes are logged as they are handed to the connection, whether it takes them or not.
  unfoldable pub write : ℕ → Bytes → M (World W) (Unit {0})
  write conn bytes s =
      let (r, env') = net.write conn bytes s.env in
      (r, record s { env = env'; log = sent conn bytes ∷ s.log })

  unfoldable pub receive_reply : ℕ → M (World W) RedisResult
  receive_reply conn s =
      let (incoming, env') = net.receive conn s.env in
      let s' = record s { env = env' } in
      continue (λ (reply, rest) s. (ok reply, s)) (read_reply incoming.broken incoming.bytes, s')

  abbrev pub set_deadline : ℕ → Option ℤ → M (World W) (Unit {0})
  set_deadline conn deadline = silently (net.set_deadline conn deadline)

  -- sendCommand; what the reader still holds is lost with it.
  unfoldable pub send_command : ℕ → ℤ → List Bytes → M (World W) RedisResult
  unfolding write receive_reply
  send_command conn connection_timeout args = do
    in_context (codes "error setting deadline: ") (set_deadline conn (some connection_timeout))
    in_context (codes "error sending command: ") (write conn (command args))
    receive_reply conn
