-- ===== src/Redis/Resp/Command.antt =====
-- What sendCommand writes, read by the protocol's own rules: a line ends at CR LF, and an argument is
-- as long as its header says.
use traefik_cluster_ratelimi.Common.{
  ℕ, zero, suc, ◌≤◌, ◌≡◌, refl, ap, false, Option, none, some, List, [], ◌∷◌, ◌++◌, if◌then◌else◌,
  length, take, drop, All, ◌==◌, ==_refl, arith,
}
use mathlib.Core.List.{append_assoc}
use traefik_cluster_ratelimi.Common.Bytes.{Bytes}
use traefik_cluster_ratelimi.Common.Decimal.{itoa, atoi, atoi-itoa, itoa-All}
use traefik_cluster_ratelimi.Redis.Resp.{crlf, bulk_strings, command}

infixl 5 ◌>>=◌
abbrev ◌>>=◌ : {A B : Type 0} → Option A → (A → Option B) → Option B
none >>= next = none
some a >>= next = next a

expect : ℕ → Bytes → Option Bytes
expect b [] = none
expect b (c ∷ s) = if c == b then some s else none

-- The text up to a CR, which a LF has to follow.
take_line : Bytes → Option (Bytes × Bytes)
take_line [] = none
take_line (c ∷ s) =
    let at_end = (do rest ← expect b'\n' s; some ([], rest)) in
    let more = (do (line, rest) ← take_line s; some (c ∷ line, rest)) in
    if c == b'\r' then at_end else more

-- A marker, a number and the end of the line.
header : ℕ → Bytes → Option (ℕ × Bytes)
header marker s = do
  number ← expect marker s
  (line, rest) ← take_line number
  n ← atoi line
  some (n, rest)

bulk_string : Bytes → Option (Bytes × Bytes)
bulk_string s = do
  (n, arg) ← header b'$' s
  end ← expect b'\r' (drop n arg)
  rest ← expect b'\n' end
  some (take n arg, rest)

arguments : ℕ → Bytes → Option (List Bytes × Bytes)
arguments zero s = some ([], s)
arguments (suc n) s = do
  (arg, more) ← bulk_string s
  (args, rest) ← arguments n more
  some (arg ∷ args, rest)

-- The arguments of a command and what follows it, as a server reads them.
unfoldable pub decode : Bytes → Option (List Bytes × Bytes)
unfolding header take_line expect arguments bulk_string
decode s = do (n, args) ← header b'*' s; arguments n args

take_line-line :
    (line rest : Bytes)
    → All (λ c. b'0' ≤ c) line
    → take_line (line ++ (crlf ++ rest)) ≡ some (line, rest)
unfolding take_line expect
take_line-line [] rest h = refl
take_line-line (c ∷ line) rest (digit, more) =
    let plain : (c == b'\r') ≡ false = ground arith in rw plain (rw (take_line-line line rest more))

header-itoa :
    (marker n : ℕ) (rest : Bytes)
    → header marker (marker ∷ (itoa n ++ (crlf ++ rest))) ≡ some (n, rest)
unfolding header expect
header-itoa marker n rest =
    rw (header, ==_refl marker, take_line-line (itoa n) rest (itoa-All n), atoi-itoa n)

take-append : (s t : Bytes) → take (length s) (s ++ t) ≡ s
take-append [] t = refl
take-append (c ∷ s) t = ap (λ r. c ∷ r) (take-append s t)

drop-append : (s t : Bytes) → drop (length s) (s ++ t) ≡ t
drop-append [] t = refl
drop-append (c ∷ s) t = drop-append s t

bulk_string-arg :
    (arg rest : Bytes)
    → bulk_string (b'$' ∷ (itoa (length arg) ++ (crlf ++ (arg ++ (crlf ++ rest)))))
      ≡ some (arg, rest)
unfolding bulk_string expect
bulk_string-arg arg rest = rw (
  bulk_string,
  header-itoa b'$' (length arg) (arg ++ (crlf ++ rest)),
  take-append arg (crlf ++ rest),
  drop-append arg (crlf ++ rest),
)

arguments-bulk_strings :
    (args : List Bytes) (rest : Bytes)
    → arguments (length args) (bulk_strings args ++ rest) ≡ some (args, rest)
unfolding arguments bulk_strings
arguments-bulk_strings [] rest = refl
arguments-bulk_strings (arg ∷ args) rest = rw (
  append_assoc (itoa (length arg)) (crlf ++ (arg ++ (crlf ++ bulk_strings args))) rest,
  append_assoc arg (crlf ++ bulk_strings args) rest,
  arguments,
  bulk_string-arg arg (bulk_strings args ++ rest),
  arguments-bulk_strings args rest,
)

-- Every command is read back by a server as exactly its arguments, whatever bytes they hold, CR and
-- LF included, and nothing of what follows the command is taken.
pub decode-command :
    (args : List Bytes) (rest : Bytes) → decode (command args ++ rest) ≡ some (args, rest)
unfolding command decode
decode-command args rest = rw (
  append_assoc (itoa (length args)) (crlf ++ bulk_strings args) rest,
  decode,
  header-itoa b'*' (length args) (bulk_strings args ++ rest),
  arguments-bulk_strings args rest,
)
