-- ===== src/Common/ParseInt.antt =====
-- strconv.Atoi and strconv.ParseInt(s, 10, 64): a sign or none, digits, and a value that fits int64;
-- `none` is an error.
use traefik_cluster_ratelimi.Common.Tests.{◌==◌, if◌then◌else◌, ltb, lt→ltb}
use Prim.Native.Nat.{ℕ, zero, suc, ◌^◌, ◌≤◌, ◌<◌}
use mathlib.Core.Path.{◌≡◌, refl, ◌∙◌}
use mathlib.Core.Bool.{true, false}
use mathlib.Core.Option.{Option, none, some}
use mathlib.Core.List.{[], ◌∷◌}
use native.Mathlib.Omega.{arith}
use traefik_cluster_ratelimi.Common.Int.{ℤ, pos, negsuc}
use traefik_cluster_ratelimi.Common.Bytes.{Bytes, codes}
use traefik_cluster_ratelimi.Common.Decimal.{itoa, format_int, atoi, atoi-itoa, itoa-cons}

abbrev positive : Option ℕ → Option ℤ
positive none = none
positive (some n) = if ltb n (2 ^ 63) then some (pos n) else none

abbrev negative : Option ℕ → Option ℤ
negative none = none
negative (some zero) = some (pos 0)
negative (some (suc n)) = if ltb n (2 ^ 63) then some (negsuc n) else none

unfoldable pub parse_int : Bytes → Option ℤ
parse_int [] = none
parse_int (c ∷ s) =
    if c == b'-'
    then negative (atoi s)
    else if c == b'+'
    then positive (atoi s)
    else positive (atoi (c ∷ s))

parse_int_examples :
    (parse_int (codes "-12") ≡ some (negsuc 11))
    × (parse_int (codes "+7") ≡ some (pos 7))
    × (parse_int (codes "1x") ≡ none)
    × (parse_int (codes "9223372036854775808") ≡ none)
unfolding parse_int atoi
parse_int_examples = (refl, refl, refl, refl)

parse_int_digits :
    (s : Bytes) (c : ℕ) (t : Bytes) → s ≡ c ∷ t → b'0' ≤ c → parse_int s ≡ positive (atoi s)
unfolding parse_int
parse_int_digits s c t e h =
    let minus : (c == b'-') ≡ false = ground arith in
    let plus : (c == b'+') ≡ false = ground arith in rw e (rw (minus, plus))

-- A printed int64 is read back.
pub parse_int-format_int_pos : (n : ℕ) → n < 2 ^ 63 → parse_int (format_int (pos n)) ≡ some (pos n)
unfolding format_int
parse_int-format_int_pos n h =
    let (c, s, e, digit) = itoa-cons n in
    let fits : ltb n (2 ^ 63) ≡ true = lt→ltb _ _ h in
    parse_int_digits (itoa n) c s e digit ∙ rw (atoi-itoa n) (rw fits)

pub parse_int-format_int_negsuc :
    (n : ℕ) → n < 2 ^ 63 → parse_int (format_int (negsuc n)) ≡ some (negsuc n)
unfolding format_int parse_int
parse_int-format_int_negsuc n h =
    let fits : ltb n (2 ^ 63) ≡ true = lt→ltb _ _ h in rw (atoi-itoa (suc n)) (rw fits)
