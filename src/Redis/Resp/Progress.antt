-- ===== src/Redis/Resp/Progress.antt =====
-- internal/redis/redis.go: how much of the reader's bytes readElement and the loop over an array take.
use traefik_cluster_ratelimi.Common.{
  ℕ, zero, suc, ◌+◌, ◌≤◌, ◌<◌, ◌≡◌, refl, ap, List, [], ◌∷◌, length, ◌==◌, if-both, arith,
}
use traefik_cluster_ratelimi.Common.Bytes.{Bytes}
use traefik_cluster_ratelimi.Common.Result.{Result, ok, err, panic, ◌>>=◌, with_context}
use traefik_cluster_ratelimi.Redis.Value.{Value}
use traefik_cluster_ratelimi.Redis.Resp.{
  Element, reading, array_context, read_string, trim_line, read_line, element_of, read_element,
  read_children, value_of,
}

-- Fewer bytes than that are left on the reader.
abbrev pub Leaves : {A : Type 0} → ℕ → Result (A × Bytes) → Type 0
Leaves n (ok (a, rest)) = length rest < n
Leaves n (err e) = Unit {0}
Leaves n panic = Unit {0}

>>=-Leaves :
    {A B : Type 0} (k n : ℕ) (r : Result (A × Bytes)) (next : A × Bytes → Result (B × Bytes))
    → Leaves k r
    → ((a : A) (rest : Bytes) → length rest < k → Leaves n (next (a, rest)))
    → Leaves n (r >>= next)
>>=-Leaves k n (ok (a, rest)) next fewer more = more a rest fewer
>>=-Leaves k n (err e) next fewer more = tt
>>=-Leaves k n panic next fewer more = tt

-- A step on what was read, which leaves the reader alone.
then-Leaves :
    {A B : Type 0} (n : ℕ) (r : Result A) (next : A → Result (B × Bytes))
    → ((a : A) → Leaves n (next a))
    → Leaves n (r >>= next)
then-Leaves n (ok a) next more = more a
then-Leaves n (err e) next more = tt
then-Leaves n panic next more = tt

with_context-Leaves :
    {A : Type 0} (n : ℕ) (context : Bytes) (r : Result (A × Bytes))
    → Leaves n r
    → Leaves n (with_context context r)
with_context-Leaves n context (ok (a, rest)) h = h
with_context-Leaves n context (err e) h = tt
with_context-Leaves n context panic h = tt

read_string-Leaves : (broken s : Bytes) → Leaves (length s) (read_string broken s)
unfolding read_string
read_string-Leaves broken [] = tt
read_string-Leaves broken (c ∷ s) =
    if-both (Leaves {A = Bytes} (suc (length s))) (c == b'\n') _ _ (omega arith) (
      >>=-Leaves (length s) (suc (length s)) (read_string broken s)
        (λ (line, rest). ok (c ∷ line, rest)) (read_string-Leaves broken s)
        (λ line rest fewer. omega (arith, fewer)))

read_line-Leaves : (broken s : Bytes) → Leaves (length s) (read_line broken s)
unfolding read_line
read_line-Leaves broken s =
    let keep = λ (rest : Bytes) (response : Bytes). ok (response, rest) in
    >>=-Leaves (length s) (length s) (with_context reading (read_string broken s))
      (λ (line, rest). trim_line line >>= keep rest)
      (with_context-Leaves (length s) reading (read_string broken s) (read_string-Leaves broken s))
      (λ line rest fewer. then-Leaves (length s) (trim_line line) (keep rest) (λ response. fewer))

element_of-Leaves :
    (broken response rest : Bytes) → Leaves (suc (length rest)) (element_of broken response rest)
unfolding element_of
element_of-Leaves broken [] rest = tt
element_of-Leaves broken (c ∷ response) rest =
    let P = Leaves {A = Element} (suc (length rest)) in
    let all : length rest < suc (length rest) = omega arith in
    if-both P (c == b'-') _ _ all (
      if-both P (c == b'+') _ _ all (
        if-both P (c == b'$') _ _
          (>>=-Leaves (length rest) (suc (length rest)) (read_line broken rest)
            (λ (bulk, rest'). ok (Element.string bulk, rest')) (read_line-Leaves broken rest)
            (λ bulk rest' fewer. omega (arith, fewer)))
          (if-both P (c == b'*') _ _ all (if-both P (c == b':') _ _ all all))))

read_element-Leaves : (broken s : Bytes) → Leaves (length s) (read_element broken s)
unfolding read_element
read_element-Leaves broken s =
    >>=-Leaves (length s) (length s) (read_line broken s)
      (λ (response, rest). element_of broken response rest) (read_line-Leaves broken s)
      (λ response rest fewer.
        weaken rest (element_of broken response rest) fewer
          (element_of-Leaves broken response rest))
  where
    weaken :
        (rest : Bytes) (r : Result (Element × Bytes))
        → length rest < length s
        → Leaves (suc (length rest)) r
        → Leaves (length s) r
    weaken rest (ok (e, last)) h k = omega (arith, h, k)
    weaken rest (err e) h k = tt
    weaken rest panic h k = tt

-- An array that is read takes a byte of the input at least for each of its elements; an error or a
-- panic gives no array.
abbrev pub Counted : ℕ → Bytes → Result (List Value × Bytes) → Type 0
Counted n s (ok (values, rest)) = (length values ≡ n) × (n + length rest ≤ length s)
Counted n s (err e) = Unit {0}
Counted n s panic = Unit {0}

Counted-cons :
    (n : ℕ) (s rest : Bytes) (value : Value) (r : Result (List Value × Bytes))
    → length rest < length s
    → Counted n rest r
    → Counted (suc n) s (r >>= λ (values, rest'). ok (value ∷ values, rest'))
Counted-cons n s rest value (ok (values, rest')) fewer (many, less) =
    (ap suc many, omega (arith, fewer, less))
Counted-cons n s rest value (err e) fewer h = tt
Counted-cons n s rest value panic fewer h = tt

children-Counted :
    (broken : Bytes) (n : ℕ) (s : Bytes) (r : Result (Element × Bytes))
    → Leaves (length s) r
    → ((rest : Bytes) → Counted n rest (read_children broken n rest))
    → Counted (suc n) s (
        with_context array_context r >>= λ (child, rest).
        read_children broken n rest >>= λ (values, rest'). ok (value_of child ∷ values, rest'))
children-Counted broken n s (ok (child, rest)) fewer more =
    Counted-cons n s rest (value_of child) (read_children broken n rest) fewer (more rest)
children-Counted broken n s (err e) fewer more = tt
children-Counted broken n s panic fewer more = tt

-- The loop over an array of n elements, when it ends without an error and without a panic, has read n
-- values and taken n bytes at least off the reader. An announced number of elements beyond the bytes
-- that the server sends so never gives an array: it comes to an error or a panic.
pub read_children-Counted :
    (broken : Bytes) (n : ℕ) (s : Bytes) → Counted n s (read_children broken n s)
unfolding read_children
read_children-Counted broken zero s = (refl, omega arith)
read_children-Counted broken (suc n) s =
    children-Counted broken n s (read_element broken s) (read_element-Leaves broken s)
      (read_children-Counted broken n)
