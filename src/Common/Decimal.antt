-- ===== src/Common/Decimal.antt =====
-- Decimal numbers: strconv.Itoa and the verb %d on a natural number, and strconv.Atoi on unsigned
-- digits. The recursion takes the number itself as fuel, which is enough for its digits.
use Prim.Native.Nat.{ℕ, zero, suc, ◌+◌, ◌-◌, ◌*◌, ◌/◌, ◌%◌, ◌≤◌, ◌<◌}
use mathlib.Core.Path.{◌≡◌, refl, ap, ◌∙◌}
use mathlib.Core.Logic.{inl, inr}
use mathlib.Core.Bool.{Bool, ◌&&◌}
use mathlib.Core.Option.{Option, none, some}
use mathlib.Core.List.{[], ◌∷◌}
use native.Mathlib.Omega.{arith}
use traefik_cluster_ratelimi.Common.Tests.{
  ltb, leb, if◌then◌else◌, Bool-cases, ltb→lt, ltb_false→le,
}
use traefik_cluster_ratelimi.Common.Lists.{All}
use traefik_cluster_ratelimi.Common.Int.{ℤ, pos, negsuc}
use traefik_cluster_ratelimi.Common.Bytes.{Bytes, codes}

-- The digits of `n` in front of `rest`.
digits : ℕ → ℕ → Bytes → Bytes
digits zero n rest = (b'0' + n % 10) ∷ rest
digits (suc fuel) n rest =
    let more = digits fuel (n / 10) ((b'0' + n % 10) ∷ rest) in
    if ltb n 10 then (b'0' + n % 10) ∷ rest else more

unfoldable pub itoa : ℕ → Bytes
unfolding digits
itoa n = digits n n []

-- The verb %d on a signed number.
unfoldable pub format_int : ℤ → Bytes
unfolding itoa
format_int (pos n) = itoa n
format_int (negsuc n) = b'-' ∷ itoa (suc n)

abbrev is_digit : ℕ → Bool
is_digit c = leb b'0' c && leb c b'9'

unfoldable pub scan : ℕ → Bytes → Option ℕ
scan n [] = some n
scan n (c ∷ s) = if is_digit c then scan (n * 10 + (c - b'0')) s else none

unfoldable pub atoi : Bytes → Option ℕ
unfolding scan
atoi [] = none
atoi (c ∷ s) = scan 0 (c ∷ s)

scan_digit : (n d : ℕ) (s : Bytes) → d < 10 → scan n ((b'0' + d) ∷ s) ≡ scan (n * 10 + d) s
unfolding scan
scan_digit n d s h = ground arith

-- Reading the digits of `n` leaves `n`, if there is fuel for them.
scan-digits : (fuel n : ℕ) (rest : Bytes) → n ≤ fuel → scan 0 (digits fuel n rest) ≡ scan n rest
unfolding digits
scan-digits zero n rest h =
    scan_digit 0 (n % 10) rest (omega arith) ∙ ap (λ m. scan m rest) (omega arith)
scan-digits (suc fuel) n rest h = elim (Bool-cases (ltb n 10)) [
  | inl small ↦
      let lt = ltb→lt n 10 small in
      rw small (scan_digit 0 (n % 10) rest (omega arith) ∙ ap (λ m. scan m rest) (omega arith))
  | inr large ↦
      let ge = ltb_false→le n 10 large in
      rw large (
        scan-digits fuel (n / 10) ((b'0' + n % 10) ∷ rest) (omega arith)
        ∙ scan_digit (n / 10) (n % 10) rest (omega arith)
        ∙ ap (λ m. scan m rest) (omega arith))
]

-- Digits in front of digits.
digits-All :
    (fuel n : ℕ) (rest : Bytes)
    → All (λ c. b'0' ≤ c) rest
    → All (λ c. b'0' ≤ c) (digits fuel n rest)
unfolding digits
digits-All zero n rest h = (omega arith, h)
digits-All (suc fuel) n rest h = elim (Bool-cases (ltb n 10)) [
  | inl small ↦ rw small (omega arith, h)
  | inr large ↦ rw large (digits-All fuel (n / 10) ((b'0' + n % 10) ∷ rest) (omega arith, h))
]

pub itoa-All : (n : ℕ) → All (λ c. b'0' ≤ c) (itoa n)
unfolding itoa
itoa-All n = digits-All n n [] tt

digits-cons : (fuel n : ℕ) (rest : Bytes) → (c : ℕ) × (s : Bytes) × (digits fuel n rest ≡ c ∷ s)
unfolding digits
digits-cons zero n rest = (b'0' + n % 10, rest, refl)
digits-cons (suc fuel) n rest = elim (Bool-cases (ltb n 10)) [
  | inl small ↦ (b'0' + n % 10, rest, rw small)
  | inr large ↦
      let (c, s, e) = digits-cons fuel (n / 10) ((b'0' + n % 10) ∷ rest) in (c, s, rw (large, e))
]

-- A printed number starts with a digit.
pub itoa-cons : (n : ℕ) → (c : ℕ) × (s : Bytes) × (itoa n ≡ c ∷ s) × (b'0' ≤ c)
unfolding itoa
itoa-cons n =
    let (c, s, e) = digits-cons n n [] in
    let (first, _) = rw e at (digits-All n n [] tt) in (c, s, e, first)

atoi_of_cons : (s : Bytes) (c : ℕ) (t : Bytes) → s ≡ c ∷ t → atoi s ≡ scan 0 s
atoi_of_cons s c t e = rw e (unfold atoi in refl)

-- A printed number is read back.
pub atoi-itoa : (n : ℕ) → atoi (itoa n) ≡ some n
unfolding itoa
atoi-itoa n =
    let (c, s, e) = digits-cons n n [] in
    atoi_of_cons (digits n n []) c s e ∙ scan-digits n n [] (omega arith) ∙ unfold scan in refl

itoa_large : itoa 1024 ≡ codes "1024"
unfolding itoa
itoa_large = refl
