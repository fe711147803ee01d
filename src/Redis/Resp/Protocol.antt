-- ===== src/Redis/Resp/Protocol.antt =====
-- Replies as the protocol writes them, and the results that they stand for.
use traefik_cluster_ratelimi.Common.{◌^◌, ◌<◌, ◌≢◌, List, [], ◌∷◌, ◌++◌, map, length, All}
use traefik_cluster_ratelimi.Common.Int.{ℤ, pos, negsuc}
use traefik_cluster_ratelimi.Common.Bytes.{Bytes}
use traefik_cluster_ratelimi.Common.Decimal.{itoa, format_int}
use traefik_cluster_ratelimi.Redis.Value.{Value, text, integer, nil}
use traefik_cluster_ratelimi.Redis.Resp.{
  crlf, success, fail, success_with_result, success_with_results, RedisResult, with_value,
}

pub data Item : Type 0 where
  whole : ℤ → Item
  blob : Bytes → Item

pub data Reply : Type 0 where
  status failure : Bytes → Reply
  scalar : Item → Reply
  many : List Item → Reply

abbrev pub encode_item : Item → Bytes
encode_item (whole n) = b':' ∷ (format_int n ++ crlf)
encode_item (blob t) = b'$' ∷ (itoa (length t) ++ (crlf ++ (t ++ crlf)))

abbrev pub encode_items : List Item → Bytes
encode_items [] = []
encode_items (item ∷ items) = encode_item item ++ encode_items items

abbrev pub encode_reply : Reply → Bytes
encode_reply (status t) = b'+' ∷ (t ++ crlf)
encode_reply (failure t) = b'-' ∷ (t ++ crlf)
encode_reply (scalar item) = encode_item item
encode_reply (many items) = b'*' ∷ (itoa (length items) ++ (crlf ++ encode_items items))

-- The values are read by lines: no LF in a text. An integer fits int64.
abbrev pub HasNoLf : Bytes → Type 0
HasNoLf t = All (λ c. c ≢ b'\n') t

abbrev pub FitsInt64 : ℤ → Type 0
FitsInt64 (pos n) = n < 2 ^ 63
FitsInt64 (negsuc n) = n < 2 ^ 63

abbrev pub IsReadableItem : Item → Type 0
IsReadableItem (whole n) = FitsInt64 n
IsReadableItem (blob t) = HasNoLf t

abbrev pub IsReadable : Reply → Type 0
IsReadable (status t) = HasNoLf t
IsReadable (failure t) = HasNoLf t
IsReadable (scalar item) = IsReadableItem item
IsReadable (many items) = All IsReadableItem items × (length items < 2 ^ 63)

abbrev pub item_value : Item → Value
item_value (whole n) = integer n
item_value (blob t) = text t

abbrev pub expected : Reply → RedisResult
expected (status t) = with_value success (text t)
expected (failure t) = with_value fail (text t)
expected (scalar item) = with_value success_with_result (item_value item)
expected (many items) = record {
  success = success_with_results;
  result = nil;
  results = map item_value items;
}
