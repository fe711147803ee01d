-- ===== src/Redis/Resp/Reply.antt =====
-- internal/redis/redis.go: what sendCommand makes of the replies of the protocol.
use traefik_cluster_ratelimi.Common.{
  ℕ, suc, ◌^◌, ◌≤◌, ◌<◌, ◌≡◌, ◌≢◌, refl, false, some, List, [], ◌∷◌, ◌++◌, map, length, All, ◌==◌,
  arith,
}
use mathlib.Core.List.{append_assoc}
use traefik_cluster_ratelimi.Common.Int.{ℤ, pos, negsuc}
use traefik_cluster_ratelimi.Common.Bytes.{Bytes}
use traefik_cluster_ratelimi.Common.Decimal.{itoa, itoa-All, format_int}
use traefik_cluster_ratelimi.Common.ParseInt.{
  parse_int, parse_int-format_int_pos, parse_int-format_int_negsuc,
}
use traefik_cluster_ratelimi.Common.Result.{ok}
use traefik_cluster_ratelimi.Redis.Resp.Protocol.{
  Item, whole, blob, Reply, status, failure, scalar, many, encode_item, encode_items, encode_reply,
  HasNoLf, FitsInt64, IsReadableItem, IsReadable, item_value, expected,
}
use traefik_cluster_ratelimi.Redis.Resp.{
  crlf, Element, value_of, read_string, trim_line, read_line, element_of, read_element,
  read_children, result_of, read_reply,
}

read_string-line :
    (broken t rest : Bytes)
    → HasNoLf t
    → read_string broken (t ++ (crlf ++ rest)) ≡ ok (t ++ crlf, rest)
unfolding read_string
read_string-line broken [] rest h = refl
read_string-line broken (c ∷ t) rest (other, more) =
    let plain : (c == b'\n') ≡ false = ground arith in
    rw (plain, read_string-line broken t rest more)

trim_line-crlf : (t : Bytes) → trim_line (t ++ crlf) ≡ ok t
unfolding trim_line
trim_line-crlf [] = refl
trim_line-crlf (c ∷ []) = refl
trim_line-crlf (c ∷ d ∷ []) = refl
trim_line-crlf (c ∷ d ∷ e ∷ t) = rw (trim_line-crlf (d ∷ e ∷ t))

pub read_line-line :
    (broken t rest : Bytes) → HasNoLf t → read_line broken (t ++ (crlf ++ rest)) ≡ ok (t, rest)
unfolding read_line
read_line-line broken t rest h = rw (read_line, read_string-line broken t rest h, trim_line-crlf t)

digits-HasNoLf : (s : Bytes) → All (λ c. b'0' ≤ c) s → HasNoLf s
digits-HasNoLf [] h = tt
digits-HasNoLf (c ∷ s) (digit, more) =
    (λ e. absurd (omega (arith, digit, e)), digits-HasNoLf s more)

itoa-HasNoLf : (n : ℕ) → HasNoLf (itoa n)
itoa-HasNoLf n = digits-HasNoLf (itoa n) (itoa-All n)

format_int-HasNoLf : (n : ℤ) → HasNoLf (format_int n)
unfolding format_int
format_int-HasNoLf (pos n) = itoa-HasNoLf n
format_int-HasNoLf (negsuc n) = (λ e. absurd (omega (arith, e)), itoa-HasNoLf (suc n))

parse_int-format_int : (n : ℤ) → FitsInt64 n → parse_int (format_int n) ≡ some n
parse_int-format_int (pos n) h = parse_int-format_int_pos n h
parse_int-format_int (negsuc n) h = parse_int-format_int_negsuc n h

parse_int_pos : (n : ℕ) → n < 2 ^ 63 → parse_int (itoa n) ≡ some (pos n)
unfolding format_int
parse_int_pos n h = parse_int-format_int_pos n h

-- A line with a marker in front.
read_element-line :
    (broken : Bytes) (marker : ℕ) (t rest : Bytes)
    → marker ≢ b'\n'
    → HasNoLf t
    → read_element broken (marker ∷ (t ++ (crlf ++ rest))) ≡ element_of broken (marker ∷ t) rest
unfolding read_element
read_element-line broken marker t rest m h =
    rw (read_element, read_line-line broken (marker ∷ t) rest (m, h))

-- What an item is read as.
item_element : Item → Element
item_element (whole n) = Element.int n
item_element (blob t) = Element.string t

value_of-item_element : (item : Item) → value_of (item_element item) ≡ item_value item
unfolding value_of item_element
value_of-item_element (whole n) = refl
value_of-item_element (blob t) = refl

read_element-item :
    (broken : Bytes) (item : Item) (rest : Bytes)
    → IsReadableItem item
    → read_element broken (encode_item item ++ rest) ≡ ok (item_element item, rest)
unfolding element_of item_element
read_element-item broken (whole n) rest h = rw (
  append_assoc (format_int n) crlf rest,
  read_element-line broken b':' (format_int n) rest (λ e. absurd (omega (arith, e)))
      (format_int-HasNoLf n),
  parse_int-format_int n h,
)
read_element-item broken (blob t) rest h = rw (
  append_assoc (itoa (length t)) (crlf ++ (t ++ crlf)) rest,
  append_assoc t crlf rest,
  read_element-line broken b'$' (itoa (length t)) (t ++ (crlf ++ rest))
      (λ e. absurd (omega (arith, e))) (itoa-HasNoLf (length t)),
  read_line-line broken t rest h,
)

read_children-items :
    (broken : Bytes) (items : List Item) (rest : Bytes)
    → All IsReadableItem items
    → read_children broken (length items) (encode_items items ++ rest)
      ≡ ok (map item_value items, rest)
unfolding read_children
read_children-items broken [] rest h = refl
read_children-items broken (item ∷ items) rest (first, more) = rw (
  append_assoc (encode_item item) (encode_items items) rest,
  read_children,
  read_element-item broken item (encode_items items ++ rest) first,
  read_children-items broken items rest more,
  value_of-item_element item,
)

read_element-many :
    (broken : Bytes) (items : List Item) (rest : Bytes)
    → length items < 2 ^ 63
    → read_element broken (encode_reply (many items) ++ rest)
      ≡ ok (Element.array (pos (length items)), encode_items items ++ rest)
unfolding element_of
read_element-many broken items rest few =
    let number : parse_int (itoa (length items)) ≡ some (pos (length items)) =
      parse_int_pos (length items) few in
    rw (
      append_assoc (itoa (length items)) (crlf ++ encode_items items) rest,
      read_element-line broken b'*' (itoa (length items)) (encode_items items ++ rest)
          (λ e. absurd (omega (arith, e))) (itoa-HasNoLf (length items)),
      number,
    )

-- A reply that the server writes is read back: a status, an error, an integer, a text and an array
-- of integers and texts come to the result with that value, and the reader is left with what follows
-- the reply. The texts hold no LF, and the integers and the length of the array fit int64.
pub read_reply-encode_reply :
    (broken : Bytes) (reply : Reply) (rest : Bytes)
    → IsReadable reply
    → read_reply broken (encode_reply reply ++ rest) ≡ ok (expected reply, rest)
unfolding result_of element_of read_reply item_element
read_reply-encode_reply broken (status t) rest h = rw (
  append_assoc t crlf rest,
  read_reply,
  read_element-line broken b'+' t rest (λ e. absurd (omega (arith, e))) h,
)
read_reply-encode_reply broken (failure t) rest h = rw (
  append_assoc t crlf rest,
  read_reply,
  read_element-line broken b'-' t rest (λ e. absurd (omega (arith, e))) h,
)
read_reply-encode_reply broken (scalar (whole n)) rest h =
    rw (read_reply, read_element-item broken (whole n) rest h, item_element)
read_reply-encode_reply broken (scalar (blob t)) rest h =
    rw (read_reply, read_element-item broken (blob t) rest h, item_element)
read_reply-encode_reply broken (many items) rest (readable, few) = rw (
  read_reply,
  read_element-many broken items rest few,
  read_children-items broken items rest readable,
)
