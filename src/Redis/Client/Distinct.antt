-- ===== src/Redis/Client/Distinct.antt =====
-- Lists of distinct numbers below a bound: the connections that are in use or idle.
use mathlib.Core.List.{
  Mem, eq-or-mem_of_mem-cons, mem-cons_of_mem, mem-append_left, Nodup, Nodup-cons, Nodup-append,
  not-mem-nil, append-nil, append_assoc, perm_middle, Pairwise, Perm,
}
use mathlib.Core.List.Perm
use mathlib.Core.Logic.{∥∥₁_elim}
use mathlib.Core.Path.{subst}
use native.Mathlib.Bridge.{le_prop}
use traefik_cluster_ratelimi.Common.{sym, ℕ, ◌≤◌, ◌<◌, inl, inr, List, [], ◌∷◌, ◌++◌, arith}

abbrev pub IsDistinctBelow : ℕ → List ℕ → Type 0
IsDistinctBelow n xs = Nodup xs × ((x : ℕ) → Mem x xs → x < n)

pub nil-IsDistinctBelow : (n : ℕ) → IsDistinctBelow n []
nil-IsDistinctBelow n = (Pairwise.nil, λ x m. absurd (not-mem-nil m))

pub IsDistinctBelow-grow :
    (n n' : ℕ) (xs : List ℕ) → n ≤ n' → IsDistinctBelow n xs → IsDistinctBelow n' xs
IsDistinctBelow-grow n n' xs h (distinct, below) =
    (distinct, λ x m. let small = below x m in omega (arith, h, small))

pub IsDistinctBelow-perm :
    (n : ℕ) (xs ys : List ℕ) → Perm xs ys → IsDistinctBelow n xs → IsDistinctBelow n ys
IsDistinctBelow-perm n xs ys p (distinct, below) =
    (Perm.nodup p distinct, λ x m. below x ((Perm.mem_iff p).1 m))

pub IsDistinctBelow-cons :
    (n n' x : ℕ) (xs : List ℕ) → n ≤ x → x < n' → IsDistinctBelow n xs → IsDistinctBelow n' (x ∷ xs)
IsDistinctBelow-cons n n' x xs low high (distinct, below) = (
  Nodup-cons.1 (λ m. let small = below x m in omega (arith, low, small), distinct),
  λ y m. ∥∥₁_elim (eq-or-mem_of_mem-cons m) le_prop (λ which. elim which [
    | inl e ↦ subst (λ z. z < n') (sym e) high
    | inr m' ↦ let small = below y m' in omega (arith, low, high, small)
  ]),
)

pub IsDistinctBelow-tail :
    (n x : ℕ) (xs : List ℕ) → IsDistinctBelow n (x ∷ xs) → IsDistinctBelow n xs
IsDistinctBelow-tail n x xs (distinct, below) =
    ((Nodup-cons.0 distinct).1, λ y m. below y (mem-cons_of_mem x m))

pub IsDistinctBelow-front :
    (n : ℕ) (xs ys : List ℕ) → IsDistinctBelow n (xs ++ ys) → IsDistinctBelow n xs
IsDistinctBelow-front n xs ys (distinct, below) =
    ((Nodup-append.0 distinct).0, λ x m. below x (mem-append_left ys m))

-- An element goes from the front to the back.
pub concat-perm : (x : ℕ) (xs : List ℕ) → Perm (x ∷ xs) (xs ++ x ∷ [])
concat-perm x xs = Perm.symm (rw (append-nil xs) at (perm_middle {a = x} xs []))

pub concat-perm-append : (x : ℕ) (xs ys : List ℕ) → Perm (x ∷ (xs ++ ys)) (xs ++ (ys ++ x ∷ []))
concat-perm-append x xs ys = rw (append_assoc xs ys (x ∷ [])) at (concat-perm x (xs ++ ys))
