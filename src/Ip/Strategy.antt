-- ===== src/Ip/Strategy.antt =====
-- internal/ip/strategy.go: the three strategies that come from Traefik.
pub mod Depth
pub mod Pool
use traefik_cluster_ratelimi.Common.{
  ◌-◌, Bool, false, Option, none, some, List, [], ◌∷◌, if◌then◌else◌, length, get_elem?,
}
use traefik_cluster_ratelimi.Common.Int.{ℤ, pos, negsuc, ltb_ℤ}
use mathlib.Core.List.{reverse}
use traefik_cluster_ratelimi.Common.Bytes.{Bytes, codes, is_empty, split, trim_space}
use traefik_cluster_ratelimi.Common.Result.{Result, ok, err, panic}
use traefik_cluster_ratelimi.Http.{Request, get}
use traefik_cluster_ratelimi.Ip.Net.{Codec, split_host_port}
use traefik_cluster_ratelimi.Ip.Checker.{Checker, contains}

abbrev pub x_forwarded_for : Bytes
x_forwarded_for = codes "X-Forwarded-For"

-- RemoteAddrStrategy.GetIP
unfoldable pub remote_addr_get_ip : Request → Bytes
remote_addr_get_ip req = elim (split_host_port req.remote_addr) [
  | none ↦ req.remote_addr
  | some (ip, port) ↦ ip
]

-- An index out of range panics.
abbrev pub trimmed_at : Option Bytes → Result Bytes
trimmed_at none = panic
trimmed_at (some xff) = ok (trim_space xff)

-- DepthStrategy.GetIP; a depth below 1 indexes past the end of the list, which panics.
unfoldable pub depth_get_ip : ℤ → Request → Result Bytes
depth_get_ip depth req =
    let xffs = split b',' (get req.header x_forwarded_for) in
    if ltb_ℤ (pos (length xffs)) depth
    then ok []
    else elim depth [ pos d ↦ trimmed_at (get_elem? xffs (length xffs - d)) | negsuc d ↦ panic ]

abbrev is_contained : Result Bool → Bool
is_contained (ok found) = found
is_contained (err e) = false
is_contained panic = false

-- The loop of PoolStrategy.GetIP, over the entries from right to left.
first_outside : Codec → Checker → List Bytes → Bytes
first_outside c checker [] = []
first_outside c checker (xff ∷ xffs) =
    let trimmed = trim_space xff in
    if is_empty trimmed
    then first_outside c checker xffs
    else (let rest = first_outside c checker xffs in
        if is_contained (contains c checker trimmed) then rest else trimmed)

-- PoolStrategy.GetIP; a pool has no checker if the pointer is nil
unfoldable pub pool_get_ip : Codec → Option Checker → Request → Bytes
unfolding first_outside
pool_get_ip c none req = []
pool_get_ip c (some checker) req =
    first_outside c checker (reverse (split b',' (get req.header x_forwarded_for)))
