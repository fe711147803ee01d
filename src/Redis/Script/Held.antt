-- ===== src/Redis/Script/Held.antt =====
-- internal/redis: callers that share a client, step by step. A step is one that no other caller comes
-- between: the channel operations of get, put and Close with what they do to the socket, a command on
-- a connection, and storing a sha.
use mathlib.Core.List.{Nodup, Perm}
use mathlib.Core.List.Perm
use mathlib.Core.Path.{subst}
use traefik_cluster_ratelimi.Common.{
  ◌≡◌, inl, inr, Bool-cases, ℕ, Option, none, some, List, [], ◌∷◌, ◌++◌,
}
use traefik_cluster_ratelimi.Common.Int.{ℤ}
use traefik_cluster_ratelimi.Common.Bytes.{Bytes, is_empty}
use traefik_cluster_ratelimi.Common.Result.{Result, ok, err, panic}
use traefik_cluster_ratelimi.Common.State.{M, continue, ◌>>◌, give, Along, >>=-Along}
use traefik_cluster_ratelimi.Redis.Value.{Arg}
use traefik_cluster_ratelimi.Redis.Options.{Options}
use traefik_cluster_ratelimi.Redis.Network.{Network, World}
use traefik_cluster_ratelimi.Redis.Client.{Client}
use traefik_cluster_ratelimi.Redis.Client.Numbered.{IsNumbering}
use traefik_cluster_ratelimi.Redis.Client.Ownership.{
  Owns, with_taken, get-Owns, put-Owns, exchange-Owns, close_pool-Owns, LeavesOwned,
  new_client-LeavesOwned,
}
use traefik_cluster_ratelimi.Redis.Client.Distinct.{IsDistinctBelow-perm}
use traefik_cluster_ratelimi.Redis.Client.Pool.{
  get, put, with_conn, deferring, exchange, close_pool, new_client,
}
use traefik_cluster_ratelimi.Redis.Script.{
  Script, slice, convert_to_string_array, evalsha, script_load, answer_of, loaded, set_sha,
  evaluate, load, run_on, run,
}

module _ {W : Type 0} (net : Network W) where
  -- The connections that the callers hold between them, and the world, after any steps on a client.
  pub data IsHeld (c : Client) : List ℕ → World W → Type 0 where
    started : (o : Options) (s s' : World W) → new_client net o s ≡ (ok c, s') → IsHeld c [] s'
    got :
        (held : List ℕ) (s : World W)
        → IsHeld c held s
        → IsHeld c (with_taken (get net c s).0 held) (get net c s).1
    used :
        (held : List ℕ) (s : World W) (conn : Option ℕ) (args : List Bytes)
        → IsHeld c held s
        → IsHeld c held (exchange net c conn args s).1
    learned :
        (held : List ℕ) (s : World W) (handle : ℕ) (sha : Bytes)
        → IsHeld c held s
        → IsHeld c held (set_sha handle sha s).1
    gave_back :
        (held rest : List ℕ) (conn : ℕ) (s : World W)
        → Perm held (conn ∷ rest)
        → IsHeld c held s
        → IsHeld c rest (put net c (some conn) s).1
    shut_down : (held : List ℕ) (s : World W) → IsHeld c held s → IsHeld c held (close_pool net s).1

  module _ (made : W → ℕ) (numbering : IsNumbering net made) (c : Client) where
    started-Owns :
        (r : Result Client × World W) (s : World W)
        → LeavesOwned net made numbering r
        → r ≡ (ok c, s)
        → Owns net made numbering [] s
    started-Owns r s leaves m = subst (λ r. LeavesOwned net made numbering r) m leaves

    IsHeld-Owns : (held : List ℕ) (s : World W) → IsHeld c held s → Owns net made numbering held s
    unfolding set_sha
    IsHeld-Owns held s (started o s0 s' m) =
        started-Owns (new_client net o s0) s' (new_client-LeavesOwned net made numbering o s0) m
    IsHeld-Owns held s (got held0 s0 from) =
        get-Owns net made numbering c held0 s0 (IsHeld-Owns held0 s0 from)
    IsHeld-Owns held s (used held0 s0 conn args from) =
        exchange-Owns net made numbering c held0 conn args s0 (IsHeld-Owns held0 s0 from)
    IsHeld-Owns held s (learned held0 s0 handle sha from) = IsHeld-Owns held0 s0 from
    IsHeld-Owns held s (gave_back held0 rest conn s0 p from) =
        put-Owns net made numbering c conn rest s0 (
          IsDistinctBelow-perm (made s0.env) (held0 ++ s0.idle) (conn ∷ (rest ++ s0.idle))
            (Perm.append_right s0.idle p) (IsHeld-Owns held0 s0 from))
    IsHeld-Owns held s (shut_down held0 s0 from) =
        close_pool-Owns net made numbering held0 s0 (IsHeld-Owns held0 s0 from)

    -- However the steps of the callers that share a client interleave, and whatever they come to, no
    -- connection is held by two callers at once, held twice, or idle in the pool while it is held, if
    -- dialling gives a connection that is not one of those made before.
    pub IsHeld-Nodup : (held : List ℕ) (s : World W) → IsHeld c held s → Nodup (held ++ s.idle)
    IsHeld-Nodup held s from = (IsHeld-Owns held s from).0

  module _ (c : Client) where
    -- A call that is made of the steps, and leaves as many connections with the callers as there were.
    abbrev Settles : World W → World W → Type 0
    Settles s s' = (held : List ℕ) → IsHeld c held s → IsHeld c held s'

    Settles-trans : (s s1 s2 : World W) → Settles s s1 → Settles s1 s2 → Settles s s2
    Settles-trans s s1 s2 f g held from = g held (f held from)

    deferring-Settles :
        {A : Type 0} (body : Option ℕ → M (World W) A) (held : List ℕ)
        (r : Result (Option ℕ) × World W)
        → ((conn : Option ℕ) → Along Settles (body conn))
        → IsHeld c (with_taken r.0 held) r.1
        → IsHeld c held (continue (λ conn s. deferring net c conn (body conn s)) r).1
    unfolding put
    deferring-Settles body held (ok (some conn), s) each from =
        gave_back (conn ∷ held) held conn (body (some conn) s).1 Perm.rfl
          (each (some conn) s (conn ∷ held) from)
    deferring-Settles body held (ok none, s) each from = each none s held from
    deferring-Settles body held (err e, s) each from = from
    deferring-Settles body held (panic, s) each from = from

    with_conn-Settles :
        {A : Type 0} (body : Option ℕ → M (World W) A)
        → ((conn : Option ℕ) → Along Settles (body conn))
        → Along Settles (with_conn net c body)
    unfolding with_conn
    with_conn-Settles body each s held from =
        deferring-Settles body held (get net c s) each (got held s from)

    exchange-Settles :
        (conn : Option ℕ) (args : List Bytes) → Along Settles (exchange net c conn args)
    exchange-Settles conn args s held from = used held s conn args from

    module _ (format_seconds : ℤ → Bytes) where
      evaluate-Settles :
          (conn : Option ℕ) (sha : Bytes) (keys argsarray : List Bytes)
          → Along Settles (evaluate net format_seconds c conn sha keys argsarray)
      evaluate-Settles conn sha keys argsarray =
          >>=-Along Settles Settles-trans (exchange net c conn (evalsha sha keys argsarray))
            (λ res. give (answer_of res)) (exchange-Settles conn (evalsha sha keys argsarray))
            (λ res s held from. from)

      load-Settles :
          (rs : Script) (conn : Option ℕ) → Along Settles (load net format_seconds c rs conn)
      unfolding load
      load-Settles rs conn =
          >>=-Along Settles Settles-trans (exchange net c conn (script_load rs.script)) _
            (exchange-Settles conn (script_load rs.script))
            (λ res.
              >>=-Along Settles Settles-trans (give (loaded res))
                (λ sha. set_sha rs.handle sha >> give (ok sha)) (λ s held from. from)
                (λ sha.
                  >>=-Along Settles Settles-trans (set_sha rs.handle sha) (λ t. give (ok sha))
                    (λ s held from. learned held s rs.handle sha from) (λ t s held from. from)))

      run_on-Settles :
          (rs : Script) (keys : List Bytes) (args : List Arg) (conn : Option ℕ)
          → Along Settles (run_on net format_seconds c rs keys args conn)
      unfolding run_on
      run_on-Settles rs keys args conn s =
          let argsarray = convert_to_string_array format_seconds (slice args ∷ []) in
          elim (Bool-cases (is_empty (s.shas rs.handle))) [
            | inl unknown ↦ rw unknown (
                >>=-Along Settles Settles-trans (load net format_seconds c rs conn)
                  (λ fresh. evaluate net format_seconds c conn fresh keys argsarray)
                  (load-Settles rs conn) (λ fresh. evaluate-Settles conn fresh keys argsarray) s)
            | inr known ↦ rw known (evaluate-Settles conn (s.shas rs.handle) keys argsarray s)
          ]

      -- Run is made of these steps, and it gives back the connection that it takes, on every path, a
      -- failure or a panic included: after it the callers hold just the connections they held before.
      pub run-IsHeld :
          (rs : Script) (keys : List Bytes) (args : List Arg) (held : List ℕ) (s : World W)
          → IsHeld c held s
          → IsHeld c held (run net format_seconds c rs keys args s).1
      unfolding run
      run-IsHeld rs keys args held s from =
          with_conn-Settles (run_on net format_seconds c rs keys args) (run_on-Settles rs keys args)
            s held from
