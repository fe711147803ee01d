-- ===== src/Common/Result.antt =====
-- What a Go call comes to: a value with a nil error, an error, given by its message, or a panic.
-- Chains of fallible calls are `do` blocks.
use mathlib.Core.Path.{◌≡◌, refl}
use mathlib.Core.Bool.{Bool, true, false}
use mathlib.Core.List.{◌++◌}
use traefik_cluster_ratelimi.Common.Tests.{if◌then◌else◌}
use traefik_cluster_ratelimi.Common.Bytes.{Bytes}

pub data Result {ℓ} (A : Type ℓ) : Type ℓ where
  ok : A → Result A
  err : Bytes → Result A
  panic : Result A

-- The first error or panic of a chain is what the chain comes to.
infixl 5 ◌>>=◌
abbrev pub ◌>>=◌ {ℓ κ} : {A : Type ℓ} {B : Type κ} → Result A → (A → Result B) → Result B
panic >>= next = panic
err message >>= next = err message
ok value >>= next = next value

-- A chain that gives a value has passed its first call.
pub >>=-eq-ok {ℓ κ} :
    {V : Type ℓ} {W : Type κ} (first : Result V) (next : V → Result W) {w : W}
    → (first >>= next) ≡ ok w
    → (v : V) × (first ≡ ok v) × (next v ≡ ok w)
>>=-eq-ok panic next passed = cc
>>=-eq-ok (err message) next passed = cc
>>=-eq-ok (ok v) next passed = (v, refl, passed)

pub ok-inj {ℓ} : {A : Type ℓ} (a b : A) → ok a ≡ ok b → a ≡ b
ok-inj a b e = cc

-- A check that fails with an error was passed.
pub check-eq-ok {ℓ} :
    {A : Type ℓ} (test : Bool) (e : Bytes) (m : Result A) {a : A}
    → (if test then err e else m) ≡ ok a
    → (test ≡ false) × (m ≡ ok a)
check-eq-ok true e m h = cc
check-eq-ok false e m h = (refl, h)

-- fmt.Errorf("…: %v", err)
abbrev pub with_context {ℓ} : {A : Type ℓ} → Bytes → Result A → Result A
with_context context (ok a) = ok a
with_context context (err e) = err (context ++ e)
with_context context panic = panic

pub with_context-eq-ok {ℓ} :
    {A : Type ℓ} (context : Bytes) (m : Result A) {a : A} → with_context context m ≡ ok a → m ≡ ok a
with_context-eq-ok context (ok b) h = h
with_context-eq-ok context (err e) h = cc
with_context-eq-ok context panic h = cc
