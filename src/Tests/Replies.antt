-- ===== src/Tests/Replies.antt =====
-- Examples of the theorems on the wire format.
use traefik_cluster_ratelimi.Common.{◌≡◌, refl, some, [], ◌∷◌, ◌++◌, arith}
use traefik_cluster_ratelimi.Common.Int.{negsuc}
use traefik_cluster_ratelimi.Common.Bytes.{codes}
use traefik_cluster_ratelimi.Common.Result.{ok, panic}
use traefik_cluster_ratelimi.Redis.Resp.{
  crlf, command, read_reply, read_children, read_element, read_line, read_string, trim_line,
  element_of, result_of, with_value, success, success_with_result,
}
use traefik_cluster_ratelimi.Redis.Value.{text, integer}
use traefik_cluster_ratelimi.Common.ParseInt.{parse_int}
use traefik_cluster_ratelimi.Common.Decimal.{atoi, itoa}
use traefik_cluster_ratelimi.Redis.Resp.Command.{decode, decode-command}
use traefik_cluster_ratelimi.Redis.Resp.Protocol.{many, whole, blob, encode_reply, expected}
use traefik_cluster_ratelimi.Redis.Resp.Reply.{read_reply-encode_reply}
use traefik_cluster_ratelimi.Redis.Resp.Progress.{Counted, read_children-Counted}

decode-command_example :
    decode (command (codes "SET" ∷ crlf ∷ []) ++ codes "*1")
    ≡ some (codes "SET" ∷ crlf ∷ [], codes "*1")
decode-command_example = decode-command (codes "SET" ∷ crlf ∷ []) (codes "*1")

read_reply-encode_reply_example :
    read_reply [] (encode_reply (many (whole (negsuc 0) ∷ blob (codes "0.5") ∷ [])) ++ codes "+")
    ≡ ok (expected (many (whole (negsuc 0) ∷ blob (codes "0.5") ∷ [])), codes "+")
read_reply-encode_reply_example =
    read_reply-encode_reply [] (many (whole (negsuc 0) ∷ blob (codes "0.5") ∷ [])) (codes "+") (
      (
        omega arith,
        (
          (
            λ e. absurd (omega (arith, e)),
            (λ e. absurd (omega (arith, e)), (λ e. absurd (omega (arith, e)), tt)),
          ),
          tt,
        ),
      ),
      omega arith,
    )

read_children-Counted_example :
    Counted 1 (codes ":1" ++ crlf) (read_children [] 1 (codes ":1" ++ crlf))
read_children-Counted_example = read_children-Counted [] 1 (codes ":1" ++ crlf)

-- A text with an LF is cut off after it, and a line that is empty panics.
reply_examples :
    (read_reply [] (codes "+OK" ++ crlf) ≡ ok (with_value success (text (codes "OK")), []))
    × (read_reply [] (codes ":-5" ++ crlf)
        ≡ ok (with_value success_with_result (integer (negsuc 4)), []))
    × (read_reply [] (codes "$3" ++ crlf ++ codes "a\nb" ++ crlf)
        ≡ ok (with_value success_with_result (text (codes "a\n")), codes "b" ++ crlf))
    × (read_reply [] (b'\n' ∷ []) ≡ panic)
    × (command (codes "PING" ∷ [])
        ≡ codes "*1" ++ crlf ++ codes "$4" ++ crlf ++ codes "PING" ++ crlf)
unfolding read_reply read_element read_line read_string trim_line element_of result_of parse_int
    atoi command itoa
reply_examples = (refl, refl, refl, refl, refl)
