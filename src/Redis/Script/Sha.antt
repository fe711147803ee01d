-- ===== src/Redis/Script/Sha.antt =====
-- internal/redis/script.go: what Run does to the shas of the scripts.
use traefik_cluster_ratelimi.Common.{
  ◌≡◌, ◌≢◌, refl, sym, ap, ◌∙◌, ◌⊎◌, inl, inr, ℕ, true, false, Option, none, some, List, [], ◌∷◌,
  length, ◌==◌, ==_refl, ==_iff, Bool-cases, if-both, if◌then◌else◌, arith,
}
use traefik_cluster_ratelimi.Common.Int.{ℤ}
use traefik_cluster_ratelimi.Common.Bytes.{Bytes, is_empty}
use traefik_cluster_ratelimi.Common.Result.{Result, ok, err, panic, ok-inj}
use traefik_cluster_ratelimi.Common.State.{M, continue, ◌>>=◌, ◌>>◌, give}
use traefik_cluster_ratelimi.Redis.Value.{Arg, Value, text, integer, size, nil}
use traefik_cluster_ratelimi.Redis.Resp.{RedisResult}
use traefik_cluster_ratelimi.Redis.Network.{Network, World, close}
use traefik_cluster_ratelimi.Redis.Client.{Client, new_conn}
use traefik_cluster_ratelimi.Redis.Client.Calm.{exchange-shas, new_conn-shas}
use traefik_cluster_ratelimi.Redis.Client.Pool.{take_idle, get, put, deferring, with_conn, exchange}
use traefik_cluster_ratelimi.Redis.Script.{
  Script, slice, convert_to_string_array, evalsha, script_load, answer_of, loaded, as_sha, set_sha,
  evaluate, load, run_on, run,
}

-- The script has the sha it had, or it had none and has one of 40 bytes; the other scripts have theirs.
abbrev pub IsKept : {W : Type 0} → ℕ → World W → World W → Type 0
IsKept handle s s' =
    ((other : ℕ) → other ≢ handle → s'.shas other ≡ s.shas other)
    × ((s'.shas handle ≡ s.shas handle) ⊎ ((s.shas handle ≡ []) × (length (s'.shas handle) ≡ 40)))

err-ne-ok : {A : Type 0} {e : Bytes} {a : A} → err e ≡ ok a → ⊥
err-ne-ok h = cc

length-as_sha : (v : Value) (sha : Bytes) → as_sha v ≡ ok sha → length sha ≡ 40
unfolding as_sha
length-as_sha (text t) sha made = elim (Bool-cases (length t == 40)) [
  | inl forty ↦
      let same : t ≡ sha = ok-inj t sha (rw forty at made) in
      ap length (sym same) ∙ (==_iff (length t) 40).0 forty
  | inr other ↦ absurd (err-ne-ok (rw other at made))
]
length-as_sha (integer n) sha made = cc
length-as_sha (size n) sha made = cc
length-as_sha nil sha made = cc

module _ {W : Type 0} (handle : ℕ) where
  after-IsKept : (s s1 s2 : World W) → s1.shas ≡ s.shas → IsKept handle s1 s2 → IsKept handle s s2
  after-IsKept s s1 s2 same kept = rw (sym same) kept

  before-IsKept : (s s1 s2 : World W) → IsKept handle s s1 → s2.shas ≡ s1.shas → IsKept handle s s2
  before-IsKept s s1 s2 kept same = rw same kept

  pub same-IsKept : (s s1 : World W) → s1.shas ≡ s.shas → IsKept handle s s1
  same-IsKept s s1 same =
      (λ other ne. ap (λ shas. shas other) same, inl (ap (λ shas. shas handle) same))

  -- What comes after a call leaves every sha alone.
  continue-IsKept :
      {A B : Type 0} (next : A → M (World W) B) (s : World W) (r : Result A × World W)
      → IsKept handle s r.1
      → ((a : A) (s : World W) → (next a s).1.shas ≡ s.shas)
      → IsKept handle s (continue next r).1
  continue-IsKept next s (ok a, s1) kept same = before-IsKept s s1 (next a s1).1 kept (same a s1)
  continue-IsKept next s (err e, s1) kept same = kept
  continue-IsKept next s (panic, s1) kept same = kept

  continue-shas :
      {A B : Type 0} (next : A → M (World W) B) (r : Result A × World W)
      → ((a : A) (s : World W) → (next a s).1.shas ≡ s.shas)
      → (continue next r).1.shas ≡ r.1.shas
  continue-shas next (ok a, s1) same = same a s1
  continue-shas next (err e, s1) same = refl
  continue-shas next (panic, s1) same = refl

  set_sha-IsKept :
      (sha : Bytes) (s : World W)
      → s.shas handle ≡ []
      → length sha ≡ 40
      → IsKept handle s (set_sha handle sha s).1
  unfolding set_sha
  set_sha-IsKept sha s unknown forty =
      let others : (other : ℕ)
          → other ≢ handle
          → (if other == handle then sha else s.shas other) ≡ s.shas other =
        λ other ne. let apart : (other == handle) ≡ false = ground arith in rw apart refl in
      (others, inr (unknown, rw (==_refl handle) forty))

module _ {W : Type 0} (net : Network W) (format_seconds : ℤ → Bytes) (c : Client) where
  get-shas : (s : World W) → (get net c s).1.shas ≡ s.shas
  unfolding get
  get-shas s = taken s.idle s
    where
      taken : (conns : List ℕ) (s : World W) → (take_idle net c conns s).1.shas ≡ s.shas
      taken (conn ∷ conns) s = refl
      taken [] s =
          if-both (λ (out : Result (Option ℕ) × World W). out.1.shas ≡ s.shas) s.shut _ _ refl
            (continue-shas 0 (λ conn. give (ok (some conn))) (new_conn net c s) (λ conn s. refl)
              ∙ new_conn-shas net c s)

  put-shas : (conn : Option ℕ) (s : World W) → (put net c conn s).1.shas ≡ s.shas
  unfolding put close
  put-shas none s = refl
  put-shas (some conn) s =
      if-both (λ (out : Result (Unit {0}) × World W). out.1.shas ≡ s.shas) _ _ _ refl
        (if-both (λ (out : Result (Unit {0}) × World W). out.1.shas ≡ s.shas) s.shut _ _ refl refl)

  module _ (rs : Script) where
    evaluate-shas :
        (conn : Option ℕ) (sha : Bytes) (keys argsarray : List Bytes) (s : World W)
        → (evaluate net format_seconds c conn sha keys argsarray s).1.shas ≡ s.shas
    evaluate-shas conn sha keys argsarray s =
        continue-shas rs.handle (λ res. give (answer_of res))
          (exchange net c conn (evalsha sha keys argsarray) s) (λ res s. refl)
        ∙ exchange-shas net c conn (evalsha sha keys argsarray) s

    -- What is made of the reply to SCRIPT LOAD.
    stored-IsKept :
        (r : Result Bytes) (s : World W)
        → ((sha : Bytes) → r ≡ ok sha → length sha ≡ 40)
        → s.shas rs.handle ≡ []
        → IsKept rs.handle s (continue (λ sha. set_sha rs.handle sha >> give (ok sha)) (r, s)).1
    unfolding set_sha
    stored-IsKept (ok sha) s forty unknown = set_sha-IsKept rs.handle sha s unknown (forty sha refl)
    stored-IsKept (err e) s forty unknown = same-IsKept rs.handle s s refl
    stored-IsKept panic s forty unknown = same-IsKept rs.handle s s refl

    asked-IsKept :
        (s : World W) (r : Result RedisResult × World W)
        → r.1.shas ≡ s.shas
        → s.shas rs.handle ≡ []
        → IsKept rs.handle s
            (continue
              (λ res. give (loaded res) >>= λ sha. set_sha rs.handle sha >> give (ok sha))
              r).1
    unfolding loaded
    asked-IsKept s (ok res, s1) same unknown =
        after-IsKept rs.handle s s1
          (continue (λ sha. set_sha rs.handle sha >> give (ok sha)) (as_sha res.result, s1)).1 same
          (stored-IsKept (as_sha res.result) s1 (length-as_sha res.result)
            (ap (λ shas. shas rs.handle) same ∙ unknown))
    asked-IsKept s (err e, s1) same unknown = same-IsKept rs.handle s s1 same
    asked-IsKept s (panic, s1) same unknown = same-IsKept rs.handle s s1 same

    is_empty-nil : (t : Bytes) → is_empty t ≡ true → t ≡ []
    is_empty-nil [] e = refl
    is_empty-nil (b ∷ t) e = cc

    run_on-IsKept :
        (keys : List Bytes) (args : List Arg) (conn : Option ℕ) (s : World W)
        → IsKept rs.handle s (run_on net format_seconds c rs keys args conn s).1
    unfolding run_on load
    run_on-IsKept keys args conn s =
        let argsarray = convert_to_string_array format_seconds (slice args ∷ []) in
        elim (Bool-cases (is_empty (s.shas rs.handle))) [
          | inl unknown ↦ rw unknown (
              continue-IsKept rs.handle
                (λ fresh. evaluate net format_seconds c conn fresh keys argsarray) s
                (load net format_seconds c rs conn s)
                (asked-IsKept s (exchange net c conn (script_load rs.script) s)
                  (exchange-shas net c conn (script_load rs.script) s)
                  (is_empty-nil (s.shas rs.handle) unknown))
                (λ fresh. evaluate-shas conn fresh keys argsarray))
          | inr known ↦ rw known (
              same-IsKept rs.handle s
                (evaluate net format_seconds c conn (s.shas rs.handle) keys argsarray s).1
                (evaluate-shas conn (s.shas rs.handle) keys argsarray s))
        ]

    taken-IsKept :
        (keys : List Bytes) (args : List Arg) (s : World W) (r : Result (Option ℕ) × World W)
        → r.1.shas ≡ s.shas
        → IsKept rs.handle s
            (continue
              (λ conn s. deferring net c conn (run_on net format_seconds c rs keys args conn s))
              r).1
    taken-IsKept keys args s (ok conn, s1) same =
        let out = run_on net format_seconds c rs keys args conn s1 in
        before-IsKept rs.handle s out.1 (put net c conn out.1).1
          (after-IsKept rs.handle s s1 out.1 same (run_on-IsKept keys args conn s1))
          (put-shas conn out.1)
    taken-IsKept keys args s (err e, s1) same = same-IsKept rs.handle s s1 same
    taken-IsKept keys args s (panic, s1) same = same-IsKept rs.handle s s1 same

    -- Whatever a Run comes to, a sha that the script has is kept, a script without one gets none or
    -- one of 40 bytes, and the shas of other scripts are not touched.
    pub run-IsKept :
        (keys : List Bytes) (args : List Arg) (s : World W)
        → IsKept rs.handle s (run net format_seconds c rs keys args s).1
    unfolding run with_conn
    run-IsKept keys args s = taken-IsKept keys args s (get net c s) (get-shas s)
