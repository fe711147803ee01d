-- ===== src/Ip/TrustedProxy/Position.antt =====
-- What the derived address does not depend on: where in the chain of proxies it is read, and what a
-- client writes in front of the header.
use traefik_cluster_ratelimi.Common.{
  ◌≤◌, ◌≡◌, refl, ◌∙◌, true, false, some, List, [], ◌∷◌, ◌++◌, arith, All, length, Bool-cases,
  le→ltb_false,
}
use mathlib.Core.List.{reverse, reverse-append, append_assoc, append-nil}
use traefik_cluster_ratelimi.Common.Bytes.{Bytes, is_empty, split, split-join, trim_space}
use traefik_cluster_ratelimi.Common.Bytes.Trim.{trim_space-around}
use traefik_cluster_ratelimi.Http.{Request, get}
use traefik_cluster_ratelimi.Ip.Net.{Codec}
use traefik_cluster_ratelimi.Ip.Checker.{Checker, contains}
use traefik_cluster_ratelimi.Ip.Strategy.{x_forwarded_for}
use traefik_cluster_ratelimi.Ip.TrustedProxy.{
  xff, max_xff_entries, remote_addr_ip, is_ok_true, walk, resolve_header, resolve,
}
use traefik_cluster_ratelimi.Ip.TrustedProxy.Walk.{IsHop, walk_skip, All-IsHop-reverse}

abbrev xff_line : Request → Bytes
xff_line req = get req.header x_forwarded_for

abbrev IsPeerTrusted : Codec → Checker → Request → Type 0
IsPeerTrusted c checker req = is_ok_true (contains c checker (remote_addr_ip req)) ≡ true

remote_addr_ip-eq :
    (req' req : Request)
    → req'.remote_addr ≡ req.remote_addr
    → remote_addr_ip req' ≡ remote_addr_ip req
unfolding remote_addr_ip
remote_addr_ip-eq req' req e = rw e

module _ (c : Codec) (checker : Checker) where
  -- A walk that has found the client goes no further and does not look at the peer.
  walk-found :
      (peer peer' : Bytes) (entries more : List Bytes)
      → (walk c checker peer entries).1 ≡ xff
      → walk c checker peer' (entries ++ more) ≡ walk c checker peer entries
  unfolding walk
  walk-found peer peer' [] more e = cc
  walk-found peer peer' (entry ∷ entries) more e =
      ground (arith, walk-found peer peer' entries more)

  walk-around :
      (peer peer' : Bytes) (sent entries hops : List Bytes)
      → All (IsHop c checker peer') hops
      → (walk c checker peer (reverse entries)).1 ≡ xff
      → walk c checker peer' (reverse (sent ++ (entries ++ hops)))
        ≡ walk c checker peer (reverse entries)
  walk-around peer peer' sent entries hops ours e =
      rw (reverse-append sent (entries ++ hops), reverse-append entries hops)
        (rw (append_assoc (reverse hops) (reverse entries) (reverse sent)) (
          walk_skip c checker peer' (reverse hops) (reverse entries ++ reverse sent)
            (All-IsHop-reverse c checker peer' hops ours)
          ∙ walk-found peer peer' (reverse entries) (reverse sent) e))

  -- A header that gives the client's address is not blank and not too long.
  record Found (peer raw : Bytes) : Type 0 where
    present : is_empty (trim_space raw) ≡ false
    few : length (split b',' raw) ≤ max_xff_entries
    walked : resolve_header c checker peer raw ≡ walk c checker peer (reverse (split b',' raw))

  resolve_header-Found :
      (peer raw : Bytes) → (resolve_header c checker peer raw).1 ≡ xff → Found peer raw
  unfolding resolve_header
  resolve_header-Found peer raw e = record {
    present = ground arith;
    few = ground arith;
    walked = ground arith;
  }

  resolve_header-walk :
      (peer raw : Bytes)
      → is_empty (trim_space raw) ≡ false
      → length (split b',' raw) ≤ max_xff_entries
      → resolve_header c checker peer raw ≡ walk c checker peer (reverse (split b',' raw))
  unfolding resolve_header
  resolve_header-walk peer raw present few = rw (present, le→ltb_false _ _ few)

  resolve-header :
      (req : Request)
      → IsPeerTrusted c checker req
      → resolve c (some checker) req ≡ resolve_header c checker (remote_addr_ip req) (xff_line req)
  unfolding resolve
  resolve-header req trusted = rw trusted

  trusted_of_found :
      (req : Request) → (resolve c (some checker) req).1 ≡ xff → IsPeerTrusted c checker req
  unfolding resolve
  trusted_of_found req e =
      ground (arith, Bool-cases (is_ok_true (contains c checker (remote_addr_ip req))))

  -- What a client sends of its own stands to the left of what the proxies add. Whatever that is, and
  -- however many entries, it does not change an address that was found without it, as long as the
  -- header keeps within 32 entries.
  pub resolve-prepend :
      (req req' : Request) (sent : Bytes)
      → req'.remote_addr ≡ req.remote_addr
      → get req'.header x_forwarded_for ≡ sent ++ b',' ∷ get req.header x_forwarded_for
      → length (split b',' (get req'.header x_forwarded_for)) ≤ max_xff_entries
      → (resolve c (some checker) req).1 ≡ xff
      → resolve c (some checker) req' ≡ resolve c (some checker) req
  resolve-prepend req req' sent same_addr same_line few found =
      let trusted = trusted_of_found req found in
      let same_peer : remote_addr_ip req' ≡ remote_addr_ip req =
        remote_addr_ip-eq req' req same_addr in
      let trusted' : IsPeerTrusted c checker req' = rw same_peer trusted in
      let line = resolve-header req trusted in
      let f = resolve_header-Found (remote_addr_ip req) (xff_line req) (rw line at found) in
      rw (line, f.walked, resolve-header req' trusted')
        (resolve_header-walk (remote_addr_ip req') (xff_line req')
            (rw same_line (trim_space-around sent (xff_line req) b',' refl)) few
          ∙ rw (same_line, split-join b',' sent (xff_line req))
              (rw (append-nil (split b',' (xff_line req))) at (
                walk-around (remote_addr_ip req) (remote_addr_ip req') (split b',' sent)
                  (split b',' (xff_line req)) [] tt (rw (line, f.walked) at found))))

  -- The same configuration is right one hop further in. There the peer is another trusted proxy, and
  -- the header has been extended by entries that are all hops of ours: an address that was found
  -- before is found again, as long as the header keeps within 32 entries.
  pub resolve-append_hops :
      (req req' : Request) (hops : Bytes)
      → IsPeerTrusted c checker req'
      → get req'.header x_forwarded_for ≡ get req.header x_forwarded_for ++ b',' ∷ hops
      → All (IsHop c checker (remote_addr_ip req)) (split b',' hops)
      → length (split b',' (get req'.header x_forwarded_for)) ≤ max_xff_entries
      → (resolve c (some checker) req).1 ≡ xff
      → resolve c (some checker) req' ≡ resolve c (some checker) req
  resolve-append_hops req req' hops trusted' same_line ours few found =
      let line = resolve-header req (trusted_of_found req found) in
      let f = resolve_header-Found (remote_addr_ip req) (xff_line req) (rw line at found) in
      let entries = split b',' (xff_line req) in
      rw (line, f.walked, resolve-header req' trusted')
        (resolve_header-walk (remote_addr_ip req') (xff_line req')
            (rw same_line (trim_space-around (xff_line req) hops b',' refl)) few
          ∙ rw (same_line, split-join b',' (xff_line req) hops)
              (walk-around (remote_addr_ip req) (remote_addr_ip req') [] entries (split b',' hops)
                ours (rw (line, f.walked) at found)))
