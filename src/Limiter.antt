-- ===== src/Limiter.antt =====
-- rate.go: the limiter in front of the two scripts. Reading a float and turning it into a duration
-- (strconv and float64) is the parameter `Floats`; the scripts, with the state behind them, are the
-- parameter `Scripts`.
pub mod Rig
pub mod Limits
use traefik_cluster_ratelimi.Common.{
  Bool, Option, none, some, List, [], ◌∷◌, ◌++◌, if◌then◌else◌, get_elem?,
}
use traefik_cluster_ratelimi.Common.Int.{ℤ, pos, negsuc}
use traefik_cluster_ratelimi.Common.Bytes.{Bytes, codes}
use traefik_cluster_ratelimi.Common.Result.{Result, ok, panic, ◌>>=◌}
use traefik_cluster_ratelimi.Redis.Value.{
  Value, text, integer, Arg, int64, int, seconds_of, Answer, single, array,
}
use traefik_cluster_ratelimi.Redis.Breaker.{Breaker, new_script_with_breaker}

pub record Limit : Type 0 where
  pub rate : ℤ
  pub burst : ℤ
  pub period : ℤ

pub record Floats : Type 1 where
  pub Float : Type 0
  pub parse_float : Bytes → Result Float
  pub is_minus_one : Float → Bool
  -- time.Duration(f * float64(time.Second))
  pub nanoseconds : Float → ℤ

pub record Scripts (S : Type 0) : Type 0 where
  pub run_allow_n : List Bytes → List Arg → S → Result Answer × S
  pub run_allow_at_most : List Bytes → List Arg → S → Result Answer × S
  pub run_del : Bytes → S → Result (Unit {0}) × S

-- The type Result of rate.go.
pub record Verdict : Type 0 where
  pub limit : Limit
  pub allowed : ℤ
  pub remaining : ℤ
  pub retry_after : ℤ
  pub reset_after : ℤ

-- v.([]interface{})
abbrev as_array : Answer → Result (List Value)
as_array (array values) = ok values
as_array (single v) = panic

-- values[i].(string) and values[i].(int64) panic out of range and at another type.
abbrev as_text : Option Value → Result Bytes
as_text (some (text s)) = ok s
as_text (some v) = panic
as_text none = panic

abbrev as_integer : Option Value → Result ℤ
as_integer (some (integer n)) = ok n
as_integer (some v) = panic
as_integer none = panic

module _ (f : Floats) where
  open f use {Float, parse_float, is_minus_one, nanoseconds}

  unfoldable pub dur : Float → ℤ
  dur x = if is_minus_one x then negsuc 0 else nanoseconds x

  unfoldable pub parse_answer : Limit → Answer → Result Verdict
  unfolding dur
  parse_answer limit v = do
    values ← as_array v
    retry_text ← as_text (get_elem? values 2)
    retry_after ← parse_float retry_text
    reset_text ← as_text (get_elem? values 3)
    reset_after ← parse_float reset_text
    allowed ← as_integer (get_elem? values 0)
    remaining ← as_integer (get_elem? values 1)
    ok (record {
      limit = limit;
      allowed = allowed;
      remaining = remaining;
      retry_after = dur retry_after;
      reset_after = dur reset_after;
    })

  module _ {S : Type 0} (scripts : Scripts S) (redis_prefix : Bytes) where
    abbrev pub args_of : Limit → ℤ → List Arg
    args_of limit n = int64 limit.burst ∷ int64 limit.rate ∷ seconds_of limit.period ∷ int n ∷ []

    unfoldable pub allow_n : Bytes → Limit → ℤ → S → Result Verdict × S
    unfolding parse_answer
    allow_n key limit n s =
        let (v, s') = scripts.run_allow_n ((redis_prefix ++ key) ∷ []) (args_of limit n) s in
        (v >>= parse_answer limit, s')

    unfoldable pub allow : Bytes → Limit → S → Result Verdict × S
    unfolding allow_n
    allow key limit s = allow_n key limit (pos 1) s

    unfoldable pub allow_at_most : Bytes → Limit → ℤ → S → Result Verdict × S
    unfolding parse_answer
    allow_at_most key limit n s =
        let (v, s') = scripts.run_allow_at_most ((redis_prefix ++ key) ∷ []) (args_of limit n) s in
        (v >>= parse_answer limit, s')

    unfoldable pub reset : Bytes → S → Result (Unit {0}) × S
    reset key s = scripts.run_del (redis_prefix ++ key) s

-- "rate_" + prefix
abbrev pub redis_prefix_of : Bytes → Bytes
redis_prefix_of prefix = codes "rate_" ++ prefix

-- Limiter, without the connection to the server: the breakers around its two scripts.
pub record Limiter : Type 0 where
  pub redis_prefix : Bytes
  pub allow_n_breaker : Breaker
  pub allow_at_most_breaker : Breaker

-- NewLimiter; each breaker reads the clock as it is made.
unfoldable pub new_limiter : Bytes → ℤ → ℤ → ℤ → ℤ → Limiter
new_limiter prefix threshold reattempt now now' = record {
  redis_prefix = redis_prefix_of prefix;
  allow_n_breaker = new_script_with_breaker now threshold reattempt;
  allow_at_most_breaker = new_script_with_breaker now' threshold reattempt;
}
