-- ===== src/Ip/Checker/Laws.antt =====
-- A checker against the list of entries that it was made of.
use traefik_cluster_ratelimi.Common.{
  ◌≡◌, refl, sym, ap, ◌∙◌, ◌⊎◌, inl, inr, Bool, true, false, ◌||◌, Option, none, some, List, [],
  ◌∷◌, ◌++◌, arith, Option-cases,
}
use traefik_cluster_ratelimi.Common.Bytes.{Bytes}
use traefik_cluster_ratelimi.Common.Result.{Result, ok, err, panic, ok-inj}
use traefik_cluster_ratelimi.Ip.Net.{Address, Network, Codec, equal, net_contains}
use traefik_cluster_ratelimi.Ip.Checker.{
  Checker, add_entries, new_checker, any_equal, any_contains, contains_ip,
}

any_equal-append :
    (a b : List Address) (addr : Address)
    → any_equal (a ++ b) addr ≡ (any_equal a addr || any_equal b addr)
unfolding any_equal
any_equal-append [] b addr = refl
any_equal-append (ip ∷ a) b addr = ground (arith, any_equal-append a b addr)

any_contains-append :
    (a b : List Network) (addr : Address)
    → any_contains (a ++ b) addr ≡ (any_contains a addr || any_contains b addr)
unfolding any_contains
any_contains-append [] b addr = refl
any_contains-append (net ∷ a) b addr = ground (arith, any_contains-append a b addr)

Result-cases {ℓ} :
    {A : Type ℓ} (r : Result A) → ((a : A) × (r ≡ ok a)) ⊎ ((e : Bytes) × (r ≡ err e)) ⊎ (r ≡ panic)
Result-cases (ok a) = inl (a, refl)
Result-cases (err e) = inr (inl (e, refl))
Result-cases panic = inr (inr refl)

or_false_right : (a : Bool) → a ≡ (a || false)
or_false_right true = refl
or_false_right false = refl

into_ips : (e n q m : Bool) → (((e || (q || false)) || n) || m) ≡ ((e || n) || (q || m))
into_ips e n q m = ground arith

into_nets : (e n q m : Bool) → ((e || (n || (q || false))) || m) ≡ ((e || n) || (q || m))
into_nets e n q m = ground arith

abbrev pub is_match : Address → Option Address → Result Network → Bool
is_match addr (some ip) net = equal ip addr
is_match addr none (ok net) = net_contains net addr
is_match addr none (err e) = false
is_match addr none panic = false

module _ (c : Codec) (addr : Address) where
  -- An entry is the address itself, or a network that contains it.
  abbrev pub matches : Bytes → Bool
  matches entry = is_match addr (c.parse_ip entry) (c.parse_cidr entry)

  abbrev pub any_matches : List Bytes → Bool
  any_matches [] = false
  any_matches (entry ∷ entries) = matches entry || any_matches entries

  add_entries-contains_ip :
      (checker result : Checker) (entries : List Bytes)
      → add_entries c checker entries ≡ ok result
      → contains_ip result addr ≡ (contains_ip checker addr || any_matches entries)
  unfolding add_entries contains_ip any_equal any_contains
  add_entries-contains_ip checker result [] h =
      ap (λ r. contains_ip r addr) (sym (ok-inj _ _ h)) ∙ or_false_right (contains_ip checker addr)
  add_entries-contains_ip checker result (entry ∷ entries) h =
      let ips = checker.authorized_ips in
      let nets = checker.authorized_ips_net in
      elim (Option-cases (c.parse_ip entry)) [
        | inr (ip, e) ↦
            let h' = rw (add_entries, e) at h in
            let rest =
              add_entries-contains_ip (record checker { authorized_ips = ips ++ ip ∷ [] }) result
                entries h' in
            let hit : matches entry ≡ equal ip addr =
              ap (λ o. is_match addr o (c.parse_cidr entry)) e in
            rest
            ∙ rw (any_equal-append ips (ip ∷ []) addr, hit)
                (into_ips (any_equal ips addr) (any_contains nets addr) (equal ip addr)
                  (any_matches entries))
        | inl absent ↦ elim (Result-cases (c.parse_cidr entry)) [
          | inl (net, e) ↦
              let h' = rw (add_entries, absent, e) at h in
              let rest =
                add_entries-contains_ip (record checker { authorized_ips_net = nets ++ net ∷ [] })
                  result entries h' in
              let hit : matches entry ≡ net_contains net addr =
                ap (λ o. is_match addr o (c.parse_cidr entry)) absent ∙ ap (is_match addr none) e in
              rest
              ∙ rw (any_contains-append nets (net ∷ []) addr, hit)
                  (into_nets (any_equal ips addr) (any_contains nets addr) (net_contains net addr)
                    (any_matches entries))
          | inr (inl (x, e)) ↦ let h' = rw (add_entries, absent, e) at h in cc
          | inr (inr e) ↦ let h' = rw (add_entries, absent, e) at h in cc
        ]
      ]

  -- A checker that NewChecker has made holds an address exactly if one of its entries is that
  -- address or a network that contains it.
  pub new_checker-contains_ip :
      (entries : List Bytes) (checker : Checker)
      → new_checker c entries ≡ ok checker
      → contains_ip checker addr ≡ any_matches entries
  unfolding new_checker contains_ip any_equal any_contains
  new_checker-contains_ip [] checker h = cc
  new_checker-contains_ip (entry ∷ more) checker h =
      add_entries-contains_ip (record { authorized_ips = []; authorized_ips_net = [] }) checker
        (entry ∷ more) h
