-- ===== src/Redis/Script/Reached.antt =====
-- internal/redis: a client and its pool, from NewClient on through any calls on it.
use mathlib.Core.Path.{subst}
use traefik_cluster_ratelimi.Common.{
  ◌≡◌, refl, sym, inl, inr, Bool-cases, ℕ, ◌≤◌, Option, List, [], ◌∷◌, length,
}
use traefik_cluster_ratelimi.Common.Int.{ℤ}
use traefik_cluster_ratelimi.Common.Bytes.{Bytes, is_empty}
use traefik_cluster_ratelimi.Common.Result.{Result, ok}
use traefik_cluster_ratelimi.Common.State.{◌>>◌, give}
use traefik_cluster_ratelimi.Redis.Value.{Arg}
use traefik_cluster_ratelimi.Redis.Options.{Options}
use traefik_cluster_ratelimi.Redis.Network.{Network, World}
use traefik_cluster_ratelimi.Redis.Client.{Client, max_active}
use traefik_cluster_ratelimi.Redis.Client.Calm.{Calm, >>=-Calm, exchange-Calm}
use traefik_cluster_ratelimi.Redis.Client.Bound.{
  IsBounded, put-IsBounded, get-IsBounded, with_conn-IsBounded, close_pool-IsBounded,
}
use traefik_cluster_ratelimi.Redis.Client.Answered.{asking-Calm}
use traefik_cluster_ratelimi.Redis.Client.Fresh.{IsFresh, new_client-IsFresh}
use traefik_cluster_ratelimi.Redis.Client.Pool.{
  get, put, exchange, ping, del, close_pool, new_client,
}
use traefik_cluster_ratelimi.Redis.Script.{
  Script, slice, convert_to_string_array, evalsha, script_load, answer_of, loaded, set_sha,
  evaluate, load, run_on, run,
}

module _ {W : Type 0} (net : Network W) (format_seconds : ℤ → Bytes) where
  -- The worlds that calls on a client lead to, whatever the calls come to.
  pub data IsReached (c : Client) : World W → Type 0 where
    made : (o : Options) (s s' : World W) → new_client net o s ≡ (ok c, s') → IsReached c s'
    got : (s : World W) → IsReached c s → IsReached c (get net c s).1
    given_back : (s : World W) (conn : Option ℕ) → IsReached c s → IsReached c (put net c conn s).1
    pinged : (s : World W) → IsReached c s → IsReached c (ping net c s).1
    deleted : (s : World W) (key : Bytes) → IsReached c s → IsReached c (del net c key s).1
    ran :
        (s : World W) (rs : Script) (keys : List Bytes) (args : List Arg)
        → IsReached c s
        → IsReached c (run net format_seconds c rs keys args s).1
    shut_down : (s : World W) → IsReached c s → IsReached c (close_pool net s).1

  module _ (c : Client) where
    evaluate-Calm :
        (conn : Option ℕ) (sha : Bytes) (keys argsarray : List Bytes)
        → Calm (evaluate net format_seconds c conn sha keys argsarray)
    evaluate-Calm conn sha keys argsarray =
        >>=-Calm (exchange net c conn (evalsha sha keys argsarray)) (λ res. give (answer_of res))
          (exchange-Calm net c conn (evalsha sha keys argsarray)) (λ res s. (refl, refl))

    load-Calm : (rs : Script) (conn : Option ℕ) → Calm (load net format_seconds c rs conn)
    unfolding load set_sha
    load-Calm rs conn =
        >>=-Calm (exchange net c conn (script_load rs.script)) _
          (exchange-Calm net c conn (script_load rs.script))
          (λ res.
            >>=-Calm (give (loaded res)) (λ sha. set_sha rs.handle sha >> give (ok sha))
              (λ s. (refl, refl)) (λ sha s. (refl, refl)))

    pub run_on-Calm :
        (rs : Script) (keys : List Bytes) (args : List Arg) (conn : Option ℕ)
        → Calm (run_on net format_seconds c rs keys args conn)
    unfolding run_on
    run_on-Calm rs keys args conn s =
        let argsarray = convert_to_string_array format_seconds (slice args ∷ []) in
        elim (Bool-cases (is_empty (s.shas rs.handle))) [
          | inl unknown ↦ rw unknown (
              >>=-Calm (load net format_seconds c rs conn)
                (λ fresh. evaluate net format_seconds c conn fresh keys argsarray)
                (load-Calm rs conn) (λ fresh. evaluate-Calm conn fresh keys argsarray) s)
          | inr known ↦ rw known (evaluate-Calm conn (s.shas rs.handle) keys argsarray s)
        ]

    made-IsBounded :
        (r : Result Client × World W) (s : World W)
        → IsFresh net r
        → r ≡ (ok c, s)
        → (c.pool_size ≡ max_active) × IsBounded net c s
    made-IsBounded r s fresh m =
        let (size, few) = subst (λ r. IsFresh net r) m fresh in (size, rw size few)

    reached : {s : World W} → IsReached c s → (c.pool_size ≡ max_active) × IsBounded net c s
    unfolding ping del run
    reached (made o s0 s m) = made-IsBounded (new_client net o s0) s (new_client-IsFresh net o s0) m
    reached (got s0 from) = let (size, few) = reached from in (size, get-IsBounded net c s0 few)
    reached (given_back s0 conn from) =
        let (size, few) = reached from in (size, put-IsBounded net c conn s0 few)
    reached (pinged s0 from) =
        let (size, few) = reached from in
        (size, with_conn-IsBounded net c _ s0 (asking-Calm net c _ _) few)
    reached (deleted s0 key from) =
        let (size, few) = reached from in
        (size, with_conn-IsBounded net c _ s0 (asking-Calm net c _ _) few)
    reached (ran s0 rs keys args from) =
        let (size, few) = reached from in
        (size, with_conn-IsBounded net c _ s0 (run_on-Calm rs keys args) few)
    reached (shut_down s0 from) =
        let (size, few) = reached from in (size, close_pool-IsBounded net c s0 few)

    -- However the calls on a client that NewClient made are ordered, and whatever they come to, its
    -- pool holds at most MAX_ACTIVE connections; taking a connection and giving one back, which
    -- concurrent calls interleave, count as calls of their own.
    pub IsReached-bounded : (s : World W) → IsReached c s → length s.idle ≤ max_active
    IsReached-bounded s from = let (size, few) = reached from in rw (sym size) few
