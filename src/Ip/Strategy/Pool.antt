-- ===== src/Ip/Strategy/Pool.antt =====
-- What the pool strategy of internal/ip/strategy.go picks.
use mathlib.Core.List.{reverse, reverse-append, reverse-cons, append_assoc}
use traefik_cluster_ratelimi.Common.{
  ◌≡◌, refl, ◌∙◌, ◌⊎◌, inl, inr, true, false, some, List, [], ◌∷◌, ◌++◌, All, All-append,
  Bool-cases,
}
use traefik_cluster_ratelimi.Common.Bytes.{Bytes, split, trim_space, is_empty}
use traefik_cluster_ratelimi.Common.Result.{ok}
use traefik_cluster_ratelimi.Http.{Request, get}
use traefik_cluster_ratelimi.Ip.Net.{Codec}
use traefik_cluster_ratelimi.Ip.Checker.{Checker, contains}
use traefik_cluster_ratelimi.Ip.Strategy.{x_forwarded_for, is_contained, first_outside, pool_get_ip}

module _ (c : Codec) (checker : Checker) where
  -- An entry is blank, or an address in the pool.
  abbrev pub IsPassed : Bytes → Type 0
  IsPassed entry =
      (is_empty (trim_space entry) ≡ true) ⊎ (contains c checker (trim_space entry) ≡ ok true)

  first_outside-passed :
      (near far : List Bytes)
      → All IsPassed near
      → first_outside c checker (near ++ far) ≡ first_outside c checker far
  unfolding first_outside
  first_outside-passed [] far passed = refl
  first_outside-passed (entry ∷ near) far (inl blank, passed) =
      rw blank (first_outside-passed near far passed)
  first_outside-passed (entry ∷ near) far (inr inside, passed) =
      elim (Bool-cases (is_empty (trim_space entry))) [
        | inl blank ↦ rw blank (first_outside-passed near far passed)
        | inr filled ↦ rw (filled, inside) (first_outside-passed near far passed)
      ]

  All-reverse : (near : List Bytes) → All IsPassed near → All IsPassed (reverse near)
  All-reverse [] passed = tt
  All-reverse (entry ∷ near) (first, passed) =
      rw (reverse-cons entry near)
        (All-append IsPassed (reverse near) (entry ∷ []) (All-reverse near passed) (first, tt))

  -- The pool strategy looks from the right: past entries that are blank or in the pool it gives the
  -- first other entry, trimmed, whatever stands to its left.
  pool_get_ip-from_right :
      (req : Request) (far near : List Bytes) (entry : Bytes)
      → split b',' (get req.header x_forwarded_for) ≡ far ++ entry ∷ near
      → All IsPassed near
      → is_empty (trim_space entry) ≡ false
      → is_contained (contains c checker (trim_space entry)) ≡ false
      → pool_get_ip c (some checker) req ≡ trim_space entry
  unfolding pool_get_ip first_outside
  pool_get_ip-from_right req far near entry parts passed filled outside =
      let turned : reverse (far ++ entry ∷ near) ≡ reverse near ++ entry ∷ reverse far =
        reverse-append far (entry ∷ near)
        ∙ rw (reverse-cons entry near) (append_assoc (reverse near) (entry ∷ []) (reverse far)) in
      rw (parts, turned)
        (first_outside-passed (reverse near) (entry ∷ reverse far) (All-reverse near passed)
          ∙ rw (filled, outside) refl)
