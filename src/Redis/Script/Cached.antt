-- ===== src/Redis/Script/Cached.antt =====
-- internal/redis/script.go: Run on a connection that is answered, with the script's sha and without.
use traefik_cluster_ratelimi.Common.{
  ◌≡◌, refl, ◌∙◌, ℕ, ◌<◌, true, false, some, List, [], ◌∷◌, ◌++◌, map, length, if◌then◌else◌, ◌==◌,
}
use traefik_cluster_ratelimi.Common.Int.{ℤ}
use traefik_cluster_ratelimi.Common.Decimal.{itoa}
use traefik_cluster_ratelimi.Common.Bytes.{Bytes, codes, is_empty, has_prefix}
use traefik_cluster_ratelimi.Common.Result.{Result, ok, err}
use traefik_cluster_ratelimi.Redis.Value.{Arg, Answer, single, array}
use traefik_cluster_ratelimi.Redis.Resp.{command}
use traefik_cluster_ratelimi.Redis.Resp.Protocol.{
  Reply, status, failure, scalar, many, blob, HasNoLf, IsReadable, item_value, expected,
}
use traefik_cluster_ratelimi.Redis.Network.{Network, World, sent, closed, close, send_command}
use traefik_cluster_ratelimi.Redis.Client.{Client, show}
use traefik_cluster_ratelimi.Redis.Client.Pool.{get, exchange}
use traefik_cluster_ratelimi.Redis.Client.Reuse.{with_conn-reuses}
use traefik_cluster_ratelimi.Redis.Client.Answered.{IsAnswered, exchange-answered, returned}
use traefik_cluster_ratelimi.Redis.Script.{
  Script, slice, print_slice, convert_to_string_array, no_run, answer_of, loaded, as_sha, set_sha,
  evaluate, load, run_on, run,
}
use traefik_cluster_ratelimi.Redis.Script.Reached.{run_on-Calm}

-- What Run returns for a reply to EVALSHA.
abbrev pub answer_to : Reply → Result Answer
answer_to (status t) =
    err (
      if has_prefix t (codes "NOSCRIPT") then no_run t else codes "not able toget script result: 0")
answer_to (failure t) = err (no_run t)
answer_to (scalar item) = ok (single (item_value item))
answer_to (many items) = ok (array (map item_value items))

answer_of-expected : (reply : Reply) → answer_of (expected reply) ≡ answer_to reply
unfolding answer_of show
answer_of-expected (status t) = refl
answer_of-expected (failure t) = refl
answer_of-expected (scalar item) = refl
answer_of-expected (many items) = refl

loaded-expected : (sha : Bytes) → length sha ≡ 40 → loaded (expected (scalar (blob sha))) ≡ ok sha
unfolding loaded as_sha
loaded-expected sha forty = rw forty refl

-- The command that loads a script.
abbrev pub load_command : Bytes → List Bytes
load_command script = codes "SCRIPT" ∷ codes "LOAD" ∷ script ∷ []

-- The command that runs the script by its sha: the keys with their number, and the arguments of Run,
-- which all go into one.
abbrev pub eval_command : (ℤ → Bytes) → List Bytes → List Arg → Bytes → List Bytes
eval_command format_seconds keys args sha =
    codes "EVALSHA" ∷ sha ∷ itoa (length keys) ∷ (keys ++ (print_slice format_seconds args ∷ []))

-- The world in which the script has its sha.
abbrev pub cached : {W : Type 0} → ℕ → Bytes → World W → World W
cached handle sha s = record s { shas = λ other. if other == handle then sha else s.shas other }

module _ {W : Type 0} (net : Network W) (format_seconds : ℤ → Bytes) (c : Client) (rs : Script)
    (keys : List Bytes) (args : List Arg) where
  evaluate-answered :
      (sha : Bytes) (conn : ℕ) (reply : Reply) (s : World W) (env' : W)
      → IsReadable reply
      → IsAnswered net conn c.connection_timeout
          (eval_command format_seconds keys args sha)
          reply
          s.env
          env'
      → evaluate net format_seconds c
          (some conn)
          sha
          keys
          (convert_to_string_array format_seconds (slice args ∷ []))
          s
        ≡ (
          answer_to reply,
          record s {
            env = env';
            log = sent conn (command (eval_command format_seconds keys args sha)) ∷ s.log;
          },
        )
  unfolding convert_to_string_array
  evaluate-answered sha conn reply s env' readable answered =
      rw
        (exchange-answered net c conn (eval_command format_seconds keys args sha) reply s env'
          readable answered)
        (rw (answer_of-expected reply) refl)

  -- Run with a sha that is known, on an idle connection of a pool that is not closed, and answered
  -- with a readable reply: EVALSHA is all that is sent, and Run returns what the reply holds. The
  -- script is not loaded again, and its sha is kept, when the reply is an error, NOSCRIPT included.
  pub run-known :
      (conn : ℕ) (rest : List ℕ) (reply : Reply) (s : World W) (env' : W)
      → is_empty (s.shas rs.handle) ≡ false
      → s.idle ≡ conn ∷ rest
      → s.shut ≡ false
      → length rest < c.pool_size
      → IsReadable reply
      → IsAnswered net conn c.connection_timeout
          (eval_command format_seconds keys args (s.shas rs.handle))
          reply
          s.env
          env'
      → run net format_seconds c rs keys args s ≡ (
        answer_to reply,
        returned conn rest
            (sent conn (command (eval_command format_seconds keys args (s.shas rs.handle))) ∷ [])
            env'
            s,
      )
  unfolding run run_on
  run-known conn rest reply s env' known first running short readable answered =
      with_conn-reuses net c (run_on net format_seconds c rs keys args) conn rest s
        (run_on-Calm net format_seconds c rs keys args (some conn)) first running short
      ∙ rw known (
          rw
            (evaluate-answered (s.shas rs.handle) conn reply (record s { idle = rest }) env'
              readable answered)
            refl)

  load-answered :
      (sha : Bytes) (conn : ℕ) (s : World W) (env' : W)
      → length sha ≡ 40
      → HasNoLf sha
      → IsAnswered net conn c.connection_timeout
          (load_command rs.script)
          (scalar (blob sha))
          s.env
          env'
      → load net format_seconds c rs (some conn) s ≡ (
        ok sha,
        cached rs.handle sha
            (record s { env = env'; log = sent conn (command (load_command rs.script)) ∷ s.log }),
      )
  unfolding load set_sha
  load-answered sha conn s env' forty one_line answered =
      rw
        (exchange-answered net c conn (load_command rs.script) (scalar (blob sha)) s env' one_line
          answered)
        (rw (loaded-expected sha forty) refl)

  -- The first Run of a script, on an idle connection of a pool that is not closed: SCRIPT LOAD is
  -- answered with a sha of 40 bytes, then EVALSHA with that sha by a readable reply. Run returns what
  -- the reply holds, these two commands are what is sent, the script's sha is kept and no other is
  -- touched.
  pub run-first :
      (sha : Bytes) (conn : ℕ) (rest : List ℕ) (reply : Reply) (s : World W) (env1 env2 : W)
      → is_empty (s.shas rs.handle) ≡ true
      → s.idle ≡ conn ∷ rest
      → s.shut ≡ false
      → length rest < c.pool_size
      → length sha ≡ 40
      → HasNoLf sha
      → IsReadable reply
      → IsAnswered net conn c.connection_timeout
          (load_command rs.script)
          (scalar (blob sha))
          s.env
          env1
      → IsAnswered net conn c.connection_timeout
          (eval_command format_seconds keys args sha)
          reply
          env1
          env2
      → run net format_seconds c rs keys args s ≡ (
        answer_to reply,
        cached rs.handle sha (
            returned conn rest
              (sent conn (command (eval_command format_seconds keys args sha))
                ∷ sent conn (command (load_command rs.script))
                ∷ [])
              env2
              s),
      )
  unfolding run run_on
  run-first sha conn rest reply s env1 env2 unknown first running short forty one_line readable
        load_answered eval_answered =
      let taken = record s { idle = rest } in
      let known =
        cached rs.handle sha (record taken {
          env = env1;
          log = sent conn (command (load_command rs.script)) ∷ s.log;
        }) in
      with_conn-reuses net c (run_on net format_seconds c rs keys args) conn rest s
        (run_on-Calm net format_seconds c rs keys args (some conn)) first running short
      ∙ rw unknown (
          rw (load-answered sha conn taken env1 forty one_line load_answered)
            (rw (evaluate-answered sha conn reply known env2 readable eval_answered) refl))

  -- When the EVALSHA of a script whose sha is known fails on the only idle connection of a pool that is
  -- not closed and has room for it, Run returns the error and closes the connection, and yet the
  -- connection is what the pool hands out next.
  pub run-broken :
      (conn : ℕ) (s s1 : World W) (e : Bytes)
      → is_empty (s.shas rs.handle) ≡ false
      → s.idle ≡ conn ∷ []
      → s.shut ≡ false
      → 0 < c.pool_size
      → send_command net conn c.connection_timeout
          (eval_command format_seconds keys args (s.shas rs.handle))
          (record s { idle = [] })
        ≡ (err e, s1)
      → let (r, s') = run net format_seconds c rs keys args s in
        (r ≡ err e) × (s'.log ≡ closed conn ∷ s1.log) × ((get net c s').0 ≡ ok (some conn))
  unfolding run run_on get close exchange convert_to_string_array
  run-broken conn s s1 e known first running short failed =
      let reused =
        with_conn-reuses net c (run_on net format_seconds c rs keys args) conn [] s
          (run_on-Calm net format_seconds c rs keys args (some conn)) first running short in
      let broken : run net format_seconds c rs keys args s
          ≡ (err e, record (close net conn s1).1 { idle = conn ∷ [] }) =
        reused ∙ rw known (rw failed refl) in
      rw broken (refl, refl, refl)
