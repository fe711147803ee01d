-- ===== src/Redis/Script.antt =====
-- internal/redis/script.go: NewScript, Run and convertToStringArray. A script is known by a number,
-- under which the world keeps its scriptSha. Printing the float64 of a duration's seconds by fmt's %v
-- is the parameter `format_seconds`.
pub mod Reached
pub mod Held
pub mod Cached
pub mod Sha
pub mod Spared
use traefik_cluster_ratelimi.Common.{
  ℕ, Bool, not, Option, none, some, List, [], ◌∷◌, ◌++◌, if◌then◌else◌, length, map, ◌==◌,
}
use traefik_cluster_ratelimi.Common.Int.{ℤ}
use traefik_cluster_ratelimi.Common.Bytes.{Bytes, codes, is_empty, has_prefix}
use traefik_cluster_ratelimi.Common.Decimal.{itoa, format_int}
use traefik_cluster_ratelimi.Common.Result.{Result, ok, err, panic}
use traefik_cluster_ratelimi.Common.State.{M, ◌>>=◌, ◌>>◌, give}
use traefik_cluster_ratelimi.Redis.Value.{
  Value, text, integer, size, nil, Arg, string, int64, int, seconds_of, Answer, single, array,
}
use traefik_cluster_ratelimi.Redis.Resp.{
  RedisResult, Success, success, fail, success_with_result, success_with_results, unknown_result,
}
use traefik_cluster_ratelimi.Redis.Network.{Network, World}
use traefik_cluster_ratelimi.Redis.Client.{Client, show}
use traefik_cluster_ratelimi.Redis.Client.Pool.{with_conn, exchange}

pub record Script : Type 0 where
  pub handle : ℕ
  pub script : Bytes

-- An element of a slice of interface values: one value, or a slice in turn.
pub data Passed : Type 0 where
  one : Arg → Passed
  slice : List Arg → Passed

module _ (format_seconds : ℤ → Bytes) where
  -- fmt's %v
  unfoldable pub print : Arg → Bytes
  print (string t) = t
  print (int64 n) = format_int n
  print (int n) = format_int n
  print (seconds_of d) = format_seconds d

  abbrev pub print_more : List Arg → Bytes
  print_more [] = []
  print_more (arg ∷ args) = b' ' ∷ (print arg ++ print_more args)

  unfoldable pub print_slice : List Arg → Bytes
  print_slice [] = codes "[]"
  print_slice (arg ∷ args) = b'[' ∷ ((print arg ++ print_more args) ++ codes "]")

  unfoldable pub convert_to_string_array : List Passed → List Bytes
  convert_to_string_array [] = []
  convert_to_string_array (one arg ∷ args) = print arg ∷ convert_to_string_array args
  convert_to_string_array (slice values ∷ args) = print_slice values ∷ convert_to_string_array args

abbrev pub evalsha : Bytes → List Bytes → List Bytes → List Bytes
evalsha sha keys argsarray = codes "EVALSHA" ∷ sha ∷ itoa (length keys) ∷ (keys ++ argsarray)

abbrev pub script_load : Bytes → List Bytes
script_load script = codes "SCRIPT" ∷ codes "LOAD" ∷ script ∷ []

abbrev pub no_run : Bytes → Bytes
no_run t = codes "not able to run the script: " ++ t

-- What is neither a result nor an error is looked at as a string.
abbrev unexpected : Bytes → Value → Result Answer
unexpected code v = elim v [
  | text t ↦ err (
      if has_prefix t (codes "NOSCRIPT")
      then no_run t
      else codes "not able toget script result: " ++ code)
  | _ ↦ panic
]

unfoldable pub answer_of : RedisResult → Result Answer
answer_of res = elim res.success [
  | success_with_result ↦ ok (single res.result)
  | success_with_results ↦ ok (array res.results)
  | fail ↦ err (no_run (show res.result))
  | success ↦ unexpected (codes "0") res.result
  | unknown_result ↦ unexpected (codes "4") res.result
]

-- res.Result.(string), when it has 40 bytes
unfoldable pub as_sha : Value → Result Bytes
as_sha (text t) = if length t == 40 then ok t else err (codes "not able to load script: " ++ t)
as_sha (integer n) = panic
as_sha (size n) = panic
as_sha nil = panic

-- The sha that SCRIPT LOAD answers with.
unfoldable pub loaded : RedisResult → Result Bytes
loaded res = as_sha res.result

module _ {W : Type 0} where
  unfoldable pub set_sha : ℕ → Bytes → M (World W) (Unit {0})
  set_sha handle sha s =
      (ok tt, record s { shas = λ other. if other == handle then sha else s.shas other })

  abbrev pub sha_of : ℕ → M (World W) Bytes
  sha_of handle s = (ok (s.shas handle), s)

  -- The new object's number is an argument.
  unfoldable pub new_script : ℕ → Bytes → M (World W) Script
  unfolding set_sha
  new_script handle script =
      set_sha handle [] >> give (ok (record { handle = handle; script = script }))

module _ {W : Type 0} (net : Network W) (format_seconds : ℤ → Bytes) (c : Client) where
  abbrev pub evaluate : Option ℕ → Bytes → List Bytes → List Bytes → M (World W) Answer
  evaluate conn sha keys argsarray = do
    res ← exchange net c conn (evalsha sha keys argsarray)
    give (answer_of res)

  unfoldable pub load : Script → Option ℕ → M (World W) Bytes
  load rs conn = do
    res ← exchange net c conn (script_load rs.script)
    sha ← give (loaded res)
    set_sha rs.handle sha
    give (ok sha)

  -- What Run does on its connection; the slice of arguments is handed on as one value.
  unfoldable pub run_on : Script → List Bytes → List Arg → Option ℕ → M (World W) Answer
  run_on rs keys args conn = do
    let argsarray = convert_to_string_array format_seconds (slice args ∷ [])
    sha ← sha_of rs.handle
    if not (is_empty sha)
        then evaluate conn sha keys argsarray
        else (load rs conn >>= λ fresh. evaluate conn fresh keys argsarray)

  unfoldable pub run : Script → List Bytes → List Arg → M (World W) Answer
  run rs keys args = with_conn net c (run_on rs keys args)
