-- ===== src/Common/State.antt =====
-- Calls that act on a state: the result, and the state that is left behind. An error or a panic ends
-- a chain, and keeps the state as it is then.
use mathlib.Core.Path.{◌≡◌, subst}
use traefik_cluster_ratelimi.Common.Bytes.{Bytes}
use traefik_cluster_ratelimi.Common.Result.{Result, ok, err, panic, with_context, ok-inj}

abbrev pub M : Type 0 → Type 0 → Type 0
M S A = S → Result A × S

-- The rest of a chain after a call.
abbrev pub continue : {S A B : Type 0} → (A → M S B) → Result A × S → Result B × S
continue next (ok a, s) = next a s
continue next (err e, s) = (err e, s)
continue next (panic, s) = (panic, s)

infixl 5 ◌>>=◌ ◌>>◌
abbrev pub ◌>>=◌ : {S A B : Type 0} → M S A → (A → M S B) → M S B
◌>>=◌ call next s = continue next (call s)

abbrev pub ◌>>◌ : {S A B : Type 0} → M S A → M S B → M S B
call >> next = call >>= λ _. next

abbrev pub give : {S A : Type 0} → Result A → M S A
give r s = (r, s)

abbrev pub in_context : {S A : Type 0} → Bytes → M S A → M S A
in_context context call s = let (r, s') = call s in (with_context context r, s')

-- What holds of the value, when there is one.
abbrev pub Gives : {S A : Type 0} → (A → Type 0) → Result A × S → Type 0
Gives P (ok a, s) = P a
Gives P (err e, s) = Unit {0}
Gives P (panic, s) = Unit {0}

pub continue-Gives :
    {S A B : Type 0} (P : A → Type 0) (Q : B → Type 0) (next : A → M S B) (r : Result A × S)
    → Gives P r
    → ((a : A) (s : S) → P a → Gives Q (next a s))
    → Gives Q (continue next r)
continue-Gives P Q next (ok a, s) p each = each a s p
continue-Gives P Q next (err e, s) p each = tt
continue-Gives P Q next (panic, s) p each = tt

-- What is true of every value is true of the value.
pub Gives-all : {S A : Type 0} (P : A → Type 0) (r : Result A × S) → ((a : A) → P a) → Gives P r
Gives-all P (ok a, s) all = all a
Gives-all P (err e, s) all = tt
Gives-all P (panic, s) all = tt

pub Gives-ok :
    {S A : Type 0} (P : A → Type 0) (r : Result A × S) (a : A) → Gives P r → r.0 ≡ ok a → P a
Gives-ok P (ok b, s) a p h = subst P (ok-inj b a h) p
Gives-ok P (err e, s) a p h = cc
Gives-ok P (panic, s) a p h = cc

-- A relation that each step of a chain keeps to, from its state to the one it leaves.
module _ {S : Type 0} (R : S → S → Type 0) where
  abbrev pub Along : {A : Type 0} → M S A → Type 0
  Along call = (s : S) → R s (call s).1

  module _ (R_trans : (s s1 s2 : S) → R s s1 → R s1 s2 → R s s2) where
    pub continue-Along :
        {A B : Type 0} (next : A → M S B) (s : S) (r : Result A × S)
        → R s r.1
        → ((a : A) → Along (next a))
        → R s (continue next r).1
    continue-Along next s (ok a, s1) h along = R_trans s s1 (next a s1).1 h (along a s1)
    continue-Along next s (err e, s1) h along = h
    continue-Along next s (panic, s1) h along = h

    pub >>=-Along :
        {A B : Type 0} (call : M S A) (next : A → M S B)
        → Along call
        → ((a : A) → Along (next a))
        → Along (call >>= next)
    >>=-Along call next h along s = continue-Along next s (call s) (h s) along
