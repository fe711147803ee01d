-- ===== src/Redis/Resp.antt =====
-- internal/redis/redis.go, the wire format: the command that sendCommand writes, and the reply that
-- it reads off a bufio.Reader. A reader is the bytes that it will deliver, and the error after them.
pub mod Command
pub mod Protocol
pub mod Reply
pub mod Progress
use traefik_cluster_ratelimi.Common.{
  ℕ, zero, suc, ◌≡◌, refl, Bool, Option, none, some, List, [], ◌∷◌, ◌++◌, if◌then◌else◌, length,
  ◌==◌, ◌&&◌,
}
use traefik_cluster_ratelimi.Common.Int.{ℤ, pos, negsuc}
use traefik_cluster_ratelimi.Common.Bytes.{Bytes, codes}
use traefik_cluster_ratelimi.Common.Decimal.{itoa, atoi}
use traefik_cluster_ratelimi.Common.ParseInt.{parse_int}
use traefik_cluster_ratelimi.Common.Result.{Result, ok, err, panic, ◌>>=◌, with_context}
use traefik_cluster_ratelimi.Redis.Value.{Value, text, integer, size, nil}

abbrev pub crlf : Bytes
crlf = b'\r' ∷ b'\n' ∷ []

-- $%d\r\n%s\r\n for each argument
unfoldable pub bulk_strings : List Bytes → Bytes
bulk_strings [] = []
bulk_strings (arg ∷ args) =
    b'$' ∷ (itoa (length arg) ++ (crlf ++ (arg ++ (crlf ++ bulk_strings args))))

unfoldable pub command : List Bytes → Bytes
unfolding bulk_strings
command args = b'*' ∷ (itoa (length args) ++ (crlf ++ bulk_strings args))

-- The ELEMENT constants, each with the value that it comes with.
pub data Element : Type 0 where
  array : ℤ → Element
  string : Bytes → Element
  int : ℤ → Element
  simple error unknown : Bytes → Element

unfoldable pub value_of : Element → Value
value_of (array n) = size n
value_of (string t) = text t
value_of (int n) = integer n
value_of (simple t) = text t
value_of (error t) = text t
value_of (unknown t) = text t

-- reader.ReadString('\n'): the line with its end, and what the reader still has.
unfoldable pub read_string : Bytes → Bytes → Result (Bytes × Bytes)
read_string broken [] = err broken
read_string broken (c ∷ s) =
    let more = (do (line, rest) ← read_string broken s; ok (c ∷ line, rest)) in
    if c == b'\n' then ok (c ∷ [], s) else more

-- A line without the CR LF at its end; the test for it indexes in front of a line of one byte.
unfoldable pub trim_line : Bytes → Result Bytes
trim_line [] = panic
trim_line (c ∷ []) = if c == b'\n' then panic else ok (c ∷ [])
trim_line (c ∷ d ∷ []) = if (d == b'\n') && (c == b'\r') then ok [] else ok (c ∷ d ∷ [])
trim_line (c ∷ d ∷ e ∷ s) = do line ← trim_line (d ∷ e ∷ s); ok (c ∷ line)

abbrev pub reading : Bytes
reading = codes "error reading response: "

unfoldable pub read_line : Bytes → Bytes → Result (Bytes × Bytes)
read_line broken s = do
  (line, rest) ← with_context reading (read_string broken s)
  response ← trim_line line
  ok (response, rest)

-- The number in front of the elements of an array, and that of an integer.
abbrev pub or_zero : Option ℤ → ℤ
or_zero none = pos 0
or_zero (some n) = n

unfoldable pub element_of : Bytes → Bytes → Bytes → Result (Element × Bytes)
element_of broken [] rest = panic
element_of broken (c ∷ response) rest =
    if c == b'-'
    then ok (error response, rest)
    else if c == b'+'
    then ok (simple response, rest)
    else if c == b'$'
    then (do (bulk, rest') ← read_line broken rest; ok (string bulk, rest'))
    else if c == b'*'
    then ok (array (or_zero (parse_int response)), rest)
    else if c == b':'
    then ok (int (or_zero (parse_int response)), rest)
    else ok (unknown response, rest)

unfoldable pub read_element : Bytes → Bytes → Result (Element × Bytes)
read_element broken s = do (response, rest) ← read_line broken s; element_of broken response rest

-- The RESP constants, and RedisResult.
pub data Success : Type 0 where
  success fail success_with_result success_with_results unknown_result : Success

pub record RedisResult : Type 0 where
  pub success : Success
  pub result : Value
  pub results : List Value

abbrev pub with_value : Success → Value → RedisResult
with_value s v = record { success = s; result = v; results = [] }

abbrev pub array_context : Bytes
array_context = codes "error reading command result: "

-- The loop over the elements of an array.
unfoldable pub read_children : Bytes → ℕ → Bytes → Result (List Value × Bytes)
read_children broken zero s = ok ([], s)
read_children broken (suc n) s = do
  (child, rest) ← with_context array_context (read_element broken s)
  (values, rest') ← read_children broken n rest
  ok (value_of child ∷ values, rest')

abbrev pub rounds : ℤ → ℕ
rounds (pos n) = n
rounds (negsuc n) = 0

unfoldable pub result_of : Bytes → Element → Bytes → Result (RedisResult × Bytes)
result_of broken (simple t) rest = ok (with_value success (text t), rest)
result_of broken (error t) rest = ok (with_value fail (text t), rest)
result_of broken (string t) rest = ok (with_value success_with_result (text t), rest)
result_of broken (int n) rest = ok (with_value success_with_result (integer n), rest)
result_of broken (array n) rest = do
  (values, rest') ← read_children broken (rounds n) rest
  ok (record { success = success_with_results; result = nil; results = values }, rest')
result_of broken (unknown t) rest = err (codes "unknown command result: %!w(<nil>)")

-- What sendCommand makes of the reader, and what it leaves there.
unfoldable pub read_reply : Bytes → Bytes → Result (RedisResult × Bytes)
read_reply broken s = do
  (element, rest) ← with_context reading (read_element broken s)
  result_of broken element rest
