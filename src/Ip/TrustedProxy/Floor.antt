-- ===== src/Ip/TrustedProxy/Floor.antt =====
-- The socket's peer as the floor of the derivation: an untrusted peer is the address itself, and no
-- derived address is empty.
use traefik_cluster_ratelimi.Common.{
  ◌≡◌, refl, ap, ◌≢◌, ◌↔◌, inl, inr, false, Option, none, some, List, [], ◌∷◌, arith, length,
  Bool-cases, Option-cases, ltb,
}
use mathlib.Core.List.{reverse}
use traefik_cluster_ratelimi.Common.Bytes.{Bytes, is_empty, split, trim_space}
use traefik_cluster_ratelimi.Http.{Request}
use traefik_cluster_ratelimi.Ip.Net.{Codec}
use traefik_cluster_ratelimi.Ip.Checker.{Checker, contains}
use traefik_cluster_ratelimi.Ip.TrustedProxy.{
  peer_untrusted, max_xff_entries, remote_addr_ip, is_ok_true, normalise_entry, walk,
  resolve_header, resolve, get_ip,
}

walk-ne-untrusted :
    (c : Codec) (checker : Checker) (peer : Bytes) (entries : List Bytes)
    → (walk c checker peer entries).1 ≢ peer_untrusted
unfolding walk
walk-ne-untrusted c checker peer [] = cc
walk-ne-untrusted c checker peer (entry ∷ entries) =
    ground (arith, walk-ne-untrusted c checker peer entries)

resolve_header-ne-untrusted :
    (c : Codec) (checker : Checker) (peer raw : Bytes)
    → (resolve_header c checker peer raw).1 ≢ peer_untrusted
unfolding resolve_header
resolve_header-ne-untrusted c checker peer raw =
    ground (arith, walk-ne-untrusted c checker peer (reverse (split b',' raw)))

normalise_entry-parses :
    (c : Codec) (entry addr : Bytes) → normalise_entry c entry ≡ some addr → c.parse_ip addr ≢ none
unfolding normalise_entry
normalise_entry-parses c entry addr e = ground arith

walk-ne-nil :
    (c : Codec) (checker : Checker) (peer : Bytes) (entries : List Bytes)
    → c.parse_ip [] ≡ none
    → peer ≢ []
    → (walk c checker peer entries).0 ≢ []
unfolding walk
walk-ne-nil c checker peer [] h p = p
walk-ne-nil c checker peer (entry ∷ entries) h p = elim (Option-cases (normalise_entry c entry)) [
  | inl e ↦ rw (e, walk) p
  | inr (addr, e) ↦ elim (Bool-cases (is_ok_true (contains c checker addr))) [
    | inl ours ↦ rw (e, walk) (rw ours (walk-ne-nil c checker peer entries h p))
    | inr other ↦
        rw (e, walk) (rw other (λ empty. normalise_entry-parses c entry addr e (rw empty h)))
  ]
]

resolve_header-ne-nil :
    (c : Codec) (checker : Checker) (peer raw : Bytes)
    → c.parse_ip [] ≡ none
    → peer ≢ []
    → (resolve_header c checker peer raw).0 ≢ []
unfolding resolve_header
resolve_header-ne-nil c checker peer raw h p = elim (Bool-cases (is_empty (trim_space raw))) [
  | inl blank ↦ rw blank p
  | inr present ↦ elim (Bool-cases (ltb max_xff_entries (length (split b',' raw)))) [
    | inl long ↦ rw present (rw long p)
    | inr few ↦ rw present (rw few (walk-ne-nil c checker peer (reverse (split b',' raw)) h p))
  ]
]

-- The source "peer-untrusted" is reported exactly for the requests whose peer is not trusted; their
-- address is the peer's, whatever their headers say.
resolve-peer_untrusted_iff :
    (c : Codec) (checker : Checker) (req : Request)
    → ((resolve c (some checker) req).1 ≡ peer_untrusted)
      ↔ (resolve c (some checker) req ≡ (remote_addr_ip req, peer_untrusted))
        × (is_ok_true (contains c checker (remote_addr_ip req)) ≡ false)
unfolding resolve
resolve-peer_untrusted_iff c checker req =
    elim (Bool-cases (is_ok_true (contains c checker (remote_addr_ip req)))) [
      | inl trusted ↦ rw trusted (
        λ e. absurd (resolve_header-ne-untrusted c checker _ _ e),
        λ h. absurd (resolve_header-ne-untrusted c checker _ _ (ap (λ r. r.1) h.0)),
      )
      | inr other ↦ rw other (λ _. (refl, refl), λ _. refl)
    ]

-- The derived address is never empty, provided that the socket's peer is not and that net.ParseIP
-- refuses the empty text.
pub get_ip-ne-nil :
    (c : Codec) (checker : Option Checker) (req : Request)
    → c.parse_ip [] ≡ none
    → remote_addr_ip req ≢ []
    → get_ip c checker req ≢ []
unfolding get_ip
get_ip-ne-nil c none req h peer = peer
get_ip-ne-nil c (some checker) req h peer =
    elim (Bool-cases (is_ok_true (contains c checker (remote_addr_ip req)))) [
      | inl trusted ↦ rw (trusted, get_ip) (resolve_header-ne-nil c checker _ _ h peer)
      | inr other ↦ rw (other, get_ip) peer
    ]
