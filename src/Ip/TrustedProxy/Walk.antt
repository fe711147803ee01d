-- ===== src/Ip/TrustedProxy/Walk.antt =====
-- What the walk of Resolve finds: a declarative account of its exits, which the loop meets exactly.
use traefik_cluster_ratelimi.Common.{
  ◌≤◌, ◌≡◌, refl, sym, ap, ◌∙◌, ◌↔◌, inl, inr, true, false, none, some, List, [], ◌∷◌, ◌++◌, All,
  All-append, length, Bool-cases, Option-cases, le→ltb_false, ltb,
}
use mathlib.Core.Path.{subst}
use mathlib.Core.List.{
  reverse, reverse-cons, reverse-append, reverse-reverse, append_assoc, append-nil,
}
use traefik_cluster_ratelimi.Common.Bytes.{Bytes, is_empty, split, trim_space}
use traefik_cluster_ratelimi.Http.{Request, get}
use traefik_cluster_ratelimi.Ip.Net.{Codec}
use traefik_cluster_ratelimi.Ip.Checker.{Checker, contains}
use traefik_cluster_ratelimi.Ip.Strategy.{x_forwarded_for}
use traefik_cluster_ratelimi.Ip.TrustedProxy.{
  Source, xff, peer_all_trusted, peer_malformed, max_xff_entries, remote_addr_ip, is_ok_true,
  normalise_entry, walk, resolve_header, resolve,
}

move-near :
    (far near : List Bytes) (entry : Bytes)
    → reverse (entry ∷ far) ++ near ≡ reverse far ++ entry ∷ near
move-near far near entry =
    ap (λ xs. xs ++ near) (reverse-cons entry far) ∙ append_assoc (reverse far) (entry ∷ []) near

reverse_around :
    (far near : List Bytes) (entry : Bytes)
    → reverse (far ++ entry ∷ near) ≡ reverse near ++ entry ∷ reverse far
reverse_around far near entry =
    reverse-append far (entry ∷ near) ∙ move-near near (reverse far) entry

module _ (c : Codec) (checker : Checker) (peer : Bytes) where
  abbrev pub IsTrusted : Bytes → Type 0
  IsTrusted addr = is_ok_true (contains c checker addr) ≡ true

  -- An entry that is an address of ours.
  abbrev pub IsHop : Bytes → Type 0
  IsHop entry = (addr : Bytes) × (normalise_entry c entry ≡ some addr) × IsTrusted addr

  -- The exits, over the entries from left to right: `near` are those to the right of the stop.
  pub data Exit (entries : List Bytes) (result : Bytes × Source) : Type 0 where
    found :
        (far near : List Bytes) (entry addr : Bytes)
        → entries ≡ far ++ entry ∷ near
        → All IsHop near
        → normalise_entry c entry ≡ some addr
        → is_ok_true (contains c checker addr) ≡ false
        → result ≡ (addr, xff)
        → Exit entries result
    malformed :
        (far near : List Bytes) (entry : Bytes)
        → entries ≡ far ++ entry ∷ near
        → All IsHop near
        → normalise_entry c entry ≡ none
        → result ≡ (peer, peer_malformed)
        → Exit entries result
    all_ours : All IsHop entries → result ≡ (peer, peer_all_trusted) → Exit entries result

  walk_hop :
      (entry : Bytes) (entries : List Bytes)
      → IsHop entry
      → walk c checker peer (entry ∷ entries) ≡ walk c checker peer entries
  unfolding walk
  walk_hop entry entries (addr, e, ours) = rw (e, walk) (rw ours)

  pub walk_skip :
      (near entries : List Bytes)
      → All IsHop near
      → walk c checker peer (near ++ entries) ≡ walk c checker peer entries
  walk_skip [] entries _ = refl
  walk_skip (hop ∷ near) entries (h, hs) =
      walk_hop hop (near ++ entries) h ∙ walk_skip near entries hs

  walk_stop :
      (entry addr : Bytes) (entries : List Bytes)
      → normalise_entry c entry ≡ some addr
      → is_ok_true (contains c checker addr) ≡ false
      → walk c checker peer (entry ∷ entries) ≡ (addr, xff)
  unfolding walk
  walk_stop entry addr entries e other = rw (e, walk) (rw other)

  walk_malformed :
      (entry : Bytes) (entries : List Bytes)
      → normalise_entry c entry ≡ none
      → walk c checker peer (entry ∷ entries) ≡ (peer, peer_malformed)
  unfolding walk
  walk_malformed entry entries e = rw (e, walk)

  pub All-IsHop-reverse : (entries : List Bytes) → All IsHop entries → All IsHop (reverse entries)
  All-IsHop-reverse [] h = tt
  All-IsHop-reverse (x ∷ xs) (h, hs) =
      rw (reverse-append (x ∷ []) xs)
        (All-append IsHop (reverse xs) (x ∷ []) (All-IsHop-reverse xs hs) (h, tt))

  -- The walk over the entries from right to left takes every exit that there is.
  Exit-walk :
      (entries : List Bytes) (result : Bytes × Source)
      → Exit entries result
      → walk c checker peer (reverse entries) ≡ result
  Exit-walk entries result (found far near entry addr split_at hops e other same) =
      rw (split_at, reverse_around far near entry, same)
        (walk_skip (reverse near) _ (All-IsHop-reverse near hops) ∙ walk_stop entry addr _ e other)
  Exit-walk entries result (malformed far near entry split_at hops e same) =
      rw (split_at, reverse_around far near entry, same)
        (walk_skip (reverse near) _ (All-IsHop-reverse near hops) ∙ walk_malformed entry _ e)
  Exit-walk entries result (all_ours hops same) =
      rw (same, ← append-nil (reverse entries))
        (walk_skip (reverse entries) [] (All-IsHop-reverse entries hops) ∙ unfold walk in refl)

  -- The exit of a walk that has passed `near`, with `far` still to come.
  walk-Exit :
      (far near : List Bytes)
      → All IsHop near
      → Exit (reverse far ++ near) (walk c checker peer far)
  walk-Exit [] near hops = all_ours hops (unfold walk in refl)
  walk-Exit (entry ∷ far) near hops = elim (Option-cases (normalise_entry c entry)) [
    | inl e ↦
        malformed (reverse far) near entry (move-near far near entry) hops e
          (walk_malformed entry far e)
    | inr (addr, e) ↦ elim (Bool-cases (is_ok_true (contains c checker addr))) [
      | inr other ↦
          found (reverse far) near entry addr (move-near far near entry) hops e other
            (walk_stop entry addr far e other)
      | inl ours ↦ rw (walk_hop entry far (addr, e, ours)) (
          subst (λ es. Exit es (walk c checker peer far)) (sym (move-near far near entry))
            (walk-Exit far (entry ∷ near) ((addr, e, ours), hops)))
    ]
  ]

  -- The walk over the entries of a header from right to left ends with a result exactly if that
  -- result is an exit: the first entry from the right that is no hop of ours decides, as the
  -- client's address if it is an address and as a malformed header if it is not; where there is
  -- none the socket's peer is the result.
  pub walk_iff :
      (entries : List Bytes) (result : Bytes × Source)
      → (walk c checker peer (reverse entries) ≡ result) ↔ Exit entries result
  walk_iff entries result = (
    λ e. subst (Exit entries) e (
        subst (λ es. Exit es (walk c checker peer (reverse entries)))
          (append-nil (reverse (reverse entries)) ∙ reverse-reverse entries)
          (walk-Exit (reverse entries) [] tt)),
    Exit-walk entries result,
  )

-- The address that Resolve derives, for a request from a trusted peer whose header X-Forwarded-For
-- is not blank and has at most 32 entries: the result is an exit of the walk over the entries of
-- the header's first line, and every exit is the result.
pub resolve_iff :
    (c : Codec) (checker : Checker) (req : Request) (result : Bytes × Source)
    → is_ok_true (contains c checker (remote_addr_ip req)) ≡ true
    → is_empty (trim_space (get req.header x_forwarded_for)) ≡ false
    → length (split b',' (get req.header x_forwarded_for)) ≤ max_xff_entries
    → (resolve c (some checker) req ≡ result)
      ↔ Exit c checker (remote_addr_ip req) (split b',' (get req.header x_forwarded_for)) result
unfolding resolve resolve_header
resolve_iff c checker req result trusted present few =
    let short : ltb max_xff_entries (length (split b',' (get req.header x_forwarded_for))) ≡ false =
      le→ltb_false _ _ few in
    rw trusted (rw present (rw short (walk_iff c checker (remote_addr_ip req) _ result)))
