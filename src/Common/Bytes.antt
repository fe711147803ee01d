-- ===== src/Common/Bytes.antt =====
-- Go strings as lists of bytes, with what the program uses of the package `strings`.
-- `trim_space` knows the ASCII white space only: a byte from 0x80 on is never trimmed.
pub mod Trim
use Prim.Native.Nat.{ℕ, suc, ◌≤◌}
use Prim.Native.Char.{code}
use Prim.Native.String.{String}
use mathlib.Core.Path.{◌≡◌, refl, ap}
use mathlib.Core.Logic.{◌↔◌, ◌≢◌, ◌⊎◌, inl, inr}
use mathlib.Core.Bool.{Bool, true, false, not, ◌&&◌, ◌||◌}
use mathlib.Core.Option
use mathlib.Core.Option.{Option, none, some}
use mathlib.Core.List.{List, [], ◌∷◌, ◌++◌}
use native.Mathlib.Omega.{arith}
use traefik_cluster_ratelimi.Common.Tests.{◌==◌, ==_refl, Bool-cases, ==_iff, if◌then◌else◌, leb}
use traefik_cluster_ratelimi.Common.Lists.{length, All}

abbrev pub Bytes : Type 0
Bytes = List ℕ

-- The code points of a literal, which are its bytes where the text is ASCII.
abbrev pub codes : String → Bytes
codes String.[] = []
codes (String.◌∷◌ c s) = code c ∷ codes s

abbrev pub bytes_eq : Bytes → Bytes → Bool
bytes_eq [] [] = true
bytes_eq [] (y ∷ ys) = false
bytes_eq (x ∷ xs) [] = false
bytes_eq (x ∷ xs) (y ∷ ys) = (x == y) && bytes_eq xs ys

pub bytes_eq_iff : (a b : Bytes) → (bytes_eq a b ≡ true) ↔ (a ≡ b)
bytes_eq_iff [] [] = ground arith
bytes_eq_iff [] (y ∷ ys) = ground arith
bytes_eq_iff (x ∷ xs) [] = ground arith
bytes_eq_iff (x ∷ xs) (y ∷ ys) = ground (arith, bytes_eq_iff xs ys)

pub bytes_eq_comm : (a b : Bytes) → bytes_eq a b ≡ bytes_eq b a
bytes_eq_comm [] [] = refl
bytes_eq_comm [] (y ∷ ys) = refl
bytes_eq_comm (x ∷ xs) [] = refl
bytes_eq_comm (x ∷ xs) (y ∷ ys) = ground (arith, bytes_eq_comm xs ys)

abbrev pub is_empty : Bytes → Bool
is_empty [] = true
is_empty (c ∷ s) = false

-- `strings.HasPrefix`
unfoldable pub has_prefix : Bytes → Bytes → Bool
has_prefix s [] = true
has_prefix [] (p ∷ ps) = false
has_prefix (c ∷ s) (p ∷ ps) = (c == p) && has_prefix s ps

-- `strings.TrimPrefix` and `strings.TrimSuffix` with a text of one byte
unfoldable pub trim_prefix : Bytes → ℕ → Bytes
trim_prefix [] p = []
trim_prefix (c ∷ s) p = if c == p then s else c ∷ s

unfoldable pub trim_suffix : Bytes → ℕ → Bytes
trim_suffix [] p = []
trim_suffix (c ∷ s) p = if is_empty s && (c == p) then [] else c ∷ trim_suffix s p

abbrev pub is_space : ℕ → Bool
is_space c = (leb b'\t' c && leb c b'\r') || (c == b' ')

unfoldable pub trim_left : Bytes → Bytes
trim_left [] = []
trim_left (c ∷ s) = if is_space c then trim_left s else c ∷ s

unfoldable pub trim_right : Bytes → Bytes
trim_right [] = []
trim_right (c ∷ s) = let r = trim_right s in if is_empty r && is_space c then [] else c ∷ r

-- `strings.TrimSpace`
unfoldable pub trim_space : Bytes → Bytes
unfolding trim_left trim_right
trim_space s = trim_right (trim_left s)

abbrev pub cons_head : ℕ → List Bytes → List Bytes
cons_head c [] = (c ∷ []) ∷ []
cons_head c (w ∷ ws) = (c ∷ w) ∷ ws

-- `strings.Split` at a separator of one byte; never empty
unfoldable pub split : ℕ → Bytes → List Bytes
split sep [] = [] ∷ []
split sep (c ∷ s) = if c == sep then [] ∷ split sep s else cons_head c (split sep s)

-- `strings.IndexByte` and `strings.LastIndexByte`; `none` is -1
unfoldable pub index_byte : Bytes → ℕ → Option ℕ
index_byte [] b = none
index_byte (c ∷ s) b = if c == b then some 0 else Option.map suc (index_byte s b)

unfoldable pub last_index_byte : Bytes → ℕ → Option ℕ
last_index_byte [] b = none
last_index_byte (c ∷ s) b = elim (last_index_byte s b) [
  | some i ↦ some (suc i)
  | none ↦ if c == b then some 0 else none
]

split-ne-nil : (sep : ℕ) (s : Bytes) → (w : Bytes) × (ws : List Bytes) × (split sep s ≡ w ∷ ws)
unfolding split
split-ne-nil sep [] = ([], [], refl)
split-ne-nil sep (c ∷ s) = elim (Bool-cases (c == sep)) [
  | inl hit ↦ ([], split sep s, rw hit)
  | inr miss ↦ let (w, ws, e) = split-ne-nil sep s in (c ∷ w, ws, rw (miss, e))
]

-- A text joined at the separator splits into the parts of both sides.
pub split-join : (sep : ℕ) (s t : Bytes) → split sep (s ++ sep ∷ t) ≡ split sep s ++ split sep t
unfolding split
split-join sep [] t = rw (==_refl sep)
split-join sep (c ∷ s) t = elim (Bool-cases (c == sep)) [
  | inl hit ↦ rw hit (ap (λ ws. [] ∷ ws) (split-join sep s t))
  | inr miss ↦ let (w, ws, e) = split-ne-nil sep s in rw (miss, split-join sep s t, e)
]
