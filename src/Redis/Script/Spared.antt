-- ===== src/Redis/Script/Spared.antt =====
-- internal/redis/script.go: of the keys in Redis, Run touches none but the one that it is given.
use traefik_cluster_ratelimi.Common.{◌≢◌, refl, ℕ, not, Option, List, [], ◌∷◌}
use traefik_cluster_ratelimi.Common.Decimal.{itoa}
use traefik_cluster_ratelimi.Common.Bytes.{Bytes, is_empty}
use traefik_cluster_ratelimi.Common.Result.{ok}
use traefik_cluster_ratelimi.Common.Int.{ℤ}
use traefik_cluster_ratelimi.Common.State.{◌>>=◌, give}
use traefik_cluster_ratelimi.Redis.Value.{Arg}
use traefik_cluster_ratelimi.Redis.Network.{Network}
use traefik_cluster_ratelimi.Redis.Client.{Client}
use traefik_cluster_ratelimi.Redis.Client.Pool.{exchange}
use traefik_cluster_ratelimi.Redis.Client.Keyed.{
  IsKeyed, Spared, >>=-Spared, give-Spared, if-Spared, loads, evaluates, exchange-Spared,
  with_conn-Spared,
}
use traefik_cluster_ratelimi.Redis.Script.{
  Script, slice, convert_to_string_array, evalsha, script_load, answer_of, loaded, set_sha,
  evaluate, load, run_on, run,
}

module _ {W V : Type 0} (net : Network W) (key : Bytes) (kept : W → V)
    (keyed : IsKeyed net key kept) (format_seconds : ℤ → Bytes) (c : Client) where
  set_sha-Spared : (handle : ℕ) (sha : Bytes) → Spared net key kept keyed (set_sha handle sha)
  unfolding set_sha
  set_sha-Spared handle sha s = refl

  load-Spared :
      (rs : Script) (conn : Option ℕ)
      → Spared net key kept keyed (load net format_seconds c rs conn)
  unfolding load
  load-Spared rs conn =
      >>=-Spared net key kept keyed (exchange net c conn (script_load rs.script)) _
        (exchange-Spared net key kept keyed c conn (script_load rs.script) (loads _))
        (λ res.
          >>=-Spared net key kept keyed (give (loaded res)) _
            (give-Spared net key kept keyed (loaded res))
            (λ sha.
              >>=-Spared net key kept keyed (set_sha rs.handle sha) (λ t. give (ok sha))
                (set_sha-Spared rs.handle sha) (λ t. give-Spared net key kept keyed (ok sha))))

  module _ (other : Bytes) (differs : other ≢ key) where
    evaluate-Spared :
        (conn : Option ℕ) (sha : Bytes) (argsarray : List Bytes)
        → Spared net key kept keyed (evaluate net format_seconds c conn sha (other ∷ []) argsarray)
    unfolding itoa
    evaluate-Spared conn sha argsarray =
        >>=-Spared net key kept keyed (exchange net c conn (evalsha sha (other ∷ []) argsarray))
          (λ res. give (answer_of res))
          (exchange-Spared net key kept keyed c conn (evalsha sha (other ∷ []) argsarray)
            (evaluates sha other argsarray differs))
          (λ res. give-Spared net key kept keyed (answer_of res))

    run_on-Spared :
        (rs : Script) (args : List Arg) (conn : Option ℕ)
        → Spared net key kept keyed (run_on net format_seconds c rs (other ∷ []) args conn)
    unfolding run_on
    run_on-Spared rs args conn s =
        let argsarray = convert_to_string_array format_seconds (slice args ∷ []) in
        let known = evaluate net format_seconds c conn (s.shas rs.handle) (other ∷ []) argsarray in
        let unknown = load net format_seconds c rs conn >>= λ fresh.
        evaluate net format_seconds c conn fresh (other ∷ []) argsarray in
        if-Spared net key kept keyed (not (is_empty (s.shas rs.handle))) known unknown
          (evaluate-Spared conn (s.shas rs.handle) argsarray)
          (>>=-Spared net key kept keyed (load net format_seconds c rs conn)
            (λ fresh. evaluate net format_seconds c conn fresh (other ∷ []) argsarray)
            (load-Spared rs conn) (λ fresh. evaluate-Spared conn fresh argsarray))
          s

    pub run-Spared :
        (rs : Script) (args : List Arg)
        → Spared net key kept keyed (run net format_seconds c rs (other ∷ []) args)
    unfolding run
    run-Spared rs args =
        with_conn-Spared net key kept keyed c (run_on net format_seconds c rs (other ∷ []) args)
          (run_on-Spared rs args)
