-- ===== src/Ip/Strategy/Depth.antt =====
-- What the depth strategy of internal/ip/strategy.go picks.
use traefik_cluster_ratelimi.Common.{
  suc, ◌-◌, ◌≡◌, refl, ap, ◌∙◌, false, some, List, [], ◌∷◌, ◌++◌, arith, length, length-append,
  get_elem?, le→ltb_false,
}
use traefik_cluster_ratelimi.Common.Int.{pos, ltb_ℤ}
use traefik_cluster_ratelimi.Common.Bytes.{Bytes, split, trim_space}
use traefik_cluster_ratelimi.Common.Result.{ok}
use traefik_cluster_ratelimi.Http.{Request, get}
use traefik_cluster_ratelimi.Ip.Strategy.{x_forwarded_for, trimmed_at, depth_get_ip}

get_elem?-append {ℓ} :
    {A : Type ℓ} (far near : List A) (x : A) → get_elem? (far ++ x ∷ near) (length far) ≡ some x
get_elem?-append [] near x = refl
get_elem?-append (y ∷ far) near x = get_elem?-append far near x

-- The index that the strategy computes is that of the entry with `length near` entries to its right.
get_elem?-from_right {ℓ} :
    {A : Type ℓ} (far near : List A) (x : A)
    → get_elem? (far ++ x ∷ near) (length (far ++ x ∷ near) - suc (length near)) ≡ some x
get_elem?-from_right far near x =
    let at_far : length (far ++ x ∷ near) - suc (length near) ≡ length far =
      omega (arith, length-append far (x ∷ near)) in
    ap (get_elem? (far ++ x ∷ near)) at_far ∙ get_elem?-append far near x

-- The depth strategy counts from the right: if the header has an entry with `length near` entries to
-- its right, depth `length near + 1` gives that entry, trimmed, whatever stands to its left.
depth_get_ip-from_right :
    (req : Request) (far near : List Bytes) (entry : Bytes)
    → split b',' (get req.header x_forwarded_for) ≡ far ++ entry ∷ near
    → depth_get_ip (pos (suc (length near))) req ≡ ok (trim_space entry)
unfolding depth_get_ip
depth_get_ip-from_right req far near entry e =
    let enough : ltb_ℤ (pos (length (far ++ entry ∷ near))) (pos (suc (length near))) ≡ false =
      le→ltb_false _ _ (omega (arith, length-append far (entry ∷ near))) in
    rw (e, depth_get_ip) (rw enough (ap trimmed_at (get_elem?-from_right far near entry)))
