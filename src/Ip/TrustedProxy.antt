-- ===== src/Ip/TrustedProxy.antt =====
-- internal/ip/trustedproxy.go, the walk over X-Forwarded-For.
pub mod Walk
pub mod Position
pub mod Floor
use mathlib.Core.List.{reverse}
use traefik_cluster_ratelimi.Common.{
  ℕ, Bool, true, false, Option, none, some, List, [], ◌∷◌, if◌then◌else◌, length, ltb,
}
use traefik_cluster_ratelimi.Common.Bytes.{
  Bytes, codes, is_empty, split, trim_space, trim_prefix, trim_suffix,
}
use traefik_cluster_ratelimi.Common.Result.{Result, ok, err, panic}
use traefik_cluster_ratelimi.Http.{Request, get}
use traefik_cluster_ratelimi.Ip.Net.{Codec, split_host_port}
use traefik_cluster_ratelimi.Ip.Checker.{Checker, contains}
use traefik_cluster_ratelimi.Ip.Strategy.{x_forwarded_for}

pub data Source : Type 0 where
  xff peer_untrusted peer_no_xff peer_all_trusted peer_malformed : Source

unfoldable pub source_text : Source → Bytes
source_text xff = codes "xff"
source_text peer_untrusted = codes "peer-untrusted"
source_text peer_no_xff = codes "peer-no-xff"
source_text peer_all_trusted = codes "peer-all-trusted"
source_text peer_malformed = codes "peer-malformed"

abbrev pub max_xff_entries : ℕ
max_xff_entries = 32

-- remoteAddrIP
unfoldable pub remote_addr_ip : Request → Bytes
remote_addr_ip req = elim (split_host_port req.remote_addr) [
  | some (host, port) ↦ host
  | none ↦ req.remote_addr
]

abbrev host_or_self : Bytes → Bytes
host_or_self s = elim (split_host_port s) [ some (host, port) ↦ host | none ↦ s ]

-- `err == nil && trusted`
abbrev pub is_ok_true : Result Bool → Bool
is_ok_true (ok trusted) = trusted
is_ok_true (err e) = false
is_ok_true panic = false

module _ (c : Codec) where
  unfoldable pub normalise_entry : Bytes → Option Bytes
  normalise_entry raw =
      let s = trim_space raw in
      if is_empty s
      then none
      else (let t = trim_prefix (trim_suffix (host_or_self s) b']') b'[' in
          elim (c.parse_ip t) [ none ↦ none | some ip ↦ some t ])

  module _ (checker : Checker) (peer : Bytes) where
    -- The loop of Resolve, over the entries from right to left.
    unfoldable pub walk : List Bytes → Bytes × Source
    walk [] = (peer, peer_all_trusted)
    walk (entry ∷ entries) = elim (normalise_entry entry) [
      | none ↦ (peer, peer_malformed)
      | some candidate ↦
          let rest = walk entries in
          if is_ok_true (contains c checker candidate) then rest else (candidate, xff)
    ]

    unfoldable pub resolve_header : Bytes → Bytes × Source
    resolve_header raw =
        if is_empty (trim_space raw)
        then (peer, peer_no_xff)
        else (let entries = split b',' raw in
            if ltb max_xff_entries (length entries)
            then (peer, peer_malformed)
            else walk (reverse entries))

  unfoldable pub resolve : Option Checker → Request → Bytes × Source
  resolve none req = (remote_addr_ip req, peer_untrusted)
  resolve (some checker) req =
      let peer = remote_addr_ip req in
      if is_ok_true (contains c checker peer)
      then resolve_header checker peer (get req.header x_forwarded_for)
      else (peer, peer_untrusted)

  unfoldable pub get_ip : Option Checker → Request → Bytes
  unfolding resolve
  get_ip checker req = (resolve checker req).0
