-- ===== src/Tests/Servers.antt =====
-- A server for the examples: what it is going to answer is the state of the network.
use traefik_cluster_ratelimi.Common.{
  none, List, [], ◌∷◌, Bool, true, false, ◌≡◌, ◌==◌, ◌||◌, or_false, arith,
}
use traefik_cluster_ratelimi.Common.Int.{ℤ, pos}
use traefik_cluster_ratelimi.Common.Bytes.{Bytes, codes}
use traefik_cluster_ratelimi.Common.Result.{ok, err}
use traefik_cluster_ratelimi.Redis.Resp.Protocol.{HasNoLf}
use traefik_cluster_ratelimi.Redis.Options.{Options}
use traefik_cluster_ratelimi.Redis.Client.{Client}
use traefik_cluster_ratelimi.Redis.Client.Pool.{client_of}
use traefik_cluster_ratelimi.Redis.Network.{Network, World, Incoming}

abbrev next_answer : List Bytes → Incoming × List Bytes
next_answer [] = (record { bytes = []; broken = codes "EOF" }, [])
next_answer (answer ∷ answers) = (record { bytes = answer; broken = codes "EOF" }, answers)

-- Every connection goes by the number 7.
abbrev pub server : Network (List Bytes)
server = record {
  dial_timeout = λ addr timeout w. (ok 7, w);
  set_deadline = λ conn deadline w. (ok tt, w);
  handshake = λ conn cfg w. (ok tt, w);
  write = λ conn bytes w. (ok tt, w);
  receive = λ conn w. next_answer w;
  close = λ conn w. w;
  read_file = λ path w. (ok (codes "secret"), w);
  append_certs_from_pem = λ pem. true;
  load_x509_key_pair = λ cert key w. (ok cert, w);
  quote = λ t. t;
}

-- A network on which an idle connection cannot be used.
abbrev pub severed : Network (List Bytes)
severed = record server { set_deadline = λ conn deadline w. (err (codes "closed"), w) }

abbrev pub options : Options
options = record {
  addr = codes "cache:6379";
  db = 2;
  username = [];
  password = codes "secret";
  password_file = [];
  connection_timeout = pos 100;
  tls = true;
  ca_cert_file = [];
  client_cert_file = [];
  client_key_file = [];
  server_name = codes "cache";
}

abbrev pub client : Client
client = client_of options none

abbrev pub sha : Bytes
sha = codes "0123456789012345678901234567890123456789"

-- One idle connection, answers to come, and one sha for all scripts.
abbrev pub pool : List Bytes → Bytes → World (List Bytes)
pool answers known = record {
  env = answers;
  log = [];
  idle = 7 ∷ [];
  shut = false;
  shas = λ handle. known;
}

abbrev pub print_seconds : ℤ → Bytes
print_seconds d = codes "60"

abbrev pub has_lf : Bytes → Bool
has_lf [] = false
has_lf (c ∷ t) = (c == b'\n') || has_lf t

pub has_lf_false→HasNoLf : (t : Bytes) → has_lf t ≡ false → HasNoLf t
has_lf_false→HasNoLf [] h = tt
has_lf_false→HasNoLf (c ∷ t) h =
    let (other, more) = or_false (c == b'\n') (has_lf t) h in
    (λ e. ground arith, has_lf_false→HasNoLf t more)
