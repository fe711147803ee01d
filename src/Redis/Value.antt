-- ===== src/Redis/Value.antt =====
-- The dynamic values of a reply, as the clients of internal/redis see them.
use traefik_cluster_ratelimi.Common.{List}
use traefik_cluster_ratelimi.Common.Int.{ℤ}
use traefik_cluster_ratelimi.Common.Bytes.{Bytes}

-- A string, an int64, an int, and nil.
pub data Value : Type 0 where
  text : Bytes → Value
  integer size : ℤ → Value
  nil : Value

-- What Script.Run is handed: a string, an int64, an int, and the float64 of a duration's seconds.
pub data Arg : Type 0 where
  string : Bytes → Arg
  int64 int : ℤ → Arg
  seconds_of : ℤ → Arg

-- What Script.Run returns.
pub data Answer : Type 0 where
  single : Value → Answer
  array : List Value → Answer
