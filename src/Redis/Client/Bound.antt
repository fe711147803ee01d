-- ===== src/Redis/Client/Bound.antt =====
-- internal/redis/redis.go: the number of connections in the pool, call by call.
use traefik_cluster_ratelimi.Common.{
  ◌≡◌, refl, inl, inr, ℕ, ◌≤◌, ◌<◌, true, Option, none, some, List, [], ◌∷◌, ◌++◌, length,
  length-append, leb, leb_false→lt, arith, Bool-cases, if-both,
}
use traefik_cluster_ratelimi.Common.Result.{Result, ok, err, panic}
use traefik_cluster_ratelimi.Common.State.{M, continue, give}
use traefik_cluster_ratelimi.Redis.Network.{Network, World, close}
use traefik_cluster_ratelimi.Redis.Client.{Client, new_conn}
use traefik_cluster_ratelimi.Redis.Client.Calm.{KeepsPool, Calm, new_conn-Calm}
use traefik_cluster_ratelimi.Redis.Client.Pool.{
  take_idle, get, put, close_all, close_pool, deferring, with_conn,
}

module _ {W : Type 0} (net : Network W) (c : Client) where
  abbrev pub IsBounded : World W → Type 0
  IsBounded s = length s.idle ≤ c.pool_size

  pub put-IsBounded : (conn : Option ℕ) (s : World W) → IsBounded s → IsBounded (put net c conn s).1
  unfolding put close
  put-IsBounded none s h = h
  put-IsBounded (some conn) s h = elim (Bool-cases (leb c.pool_size (length s.idle))) [
    | inl full ↦ rw full h
    | inr room ↦
        let short : length s.idle < c.pool_size = leb_false→lt _ _ room in
        let one_more : length (s.idle ++ conn ∷ []) ≤ c.pool_size =
          rw (length-append s.idle (conn ∷ [])) (omega (arith, short)) in
        rw room
          (if-both (λ (out : Result (Unit {0}) × World W). IsBounded out.1) s.shut _ _ h one_more)
  ]

  continue-IsBounded :
      {A B : Type 0} (next : A → M (World W) B) (r : Result A × World W)
      → IsBounded r.1
      → ((a : A) (s : World W) → IsBounded s → IsBounded (next a s).1)
      → IsBounded (continue next r).1
  continue-IsBounded next (ok a, s) h each = each a s h
  continue-IsBounded next (err e, s) h each = h
  continue-IsBounded next (panic, s) h each = h

  KeepsPool-IsBounded : (s s' : World W) → KeepsPool s s' → IsBounded s → IsBounded s'
  KeepsPool-IsBounded s s' (same, still) h = rw same h

  pub get-IsBounded : (s : World W) → IsBounded s → IsBounded (get net c s).1
  unfolding get
  get-IsBounded s h = taken s.idle s h h
    where
      taken :
          (conns : List ℕ) (s : World W)
          → length conns ≤ c.pool_size
          → IsBounded s
          → IsBounded (take_idle net c conns s).1
      taken (conn ∷ conns) s few h = omega (arith, few)
      taken [] s few h =
          if-both (λ (out : Result (Option ℕ) × World W). IsBounded out.1) s.shut _ _ h
            (continue-IsBounded (λ conn. give (ok (some conn))) (new_conn net c s)
              (KeepsPool-IsBounded s (new_conn net c s).1 (new_conn-Calm net c s) h)
              (λ conn s h. h))

  pub with_conn-IsBounded :
      {A : Type 0} (body : Option ℕ → M (World W) A) (s : World W)
      → ((conn : Option ℕ) → Calm (body conn))
      → IsBounded s
      → IsBounded (with_conn net c body s).1
  unfolding with_conn
  with_conn-IsBounded body s calm h =
      continue-IsBounded (λ conn s. deferring net c conn (body conn s)) (get net c s)
        (get-IsBounded s h)
        (λ conn s h.
          put-IsBounded conn (body conn s).1
            (KeepsPool-IsBounded s (body conn s).1 (calm conn s) h))

  close_all-idle : (conns : List ℕ) (s : World W) → (close_all net conns s).1.idle ≡ s.idle
  unfolding close
  close_all-idle [] s = refl
  close_all-idle (conn ∷ conns) s = close_all-idle conns (close net conn s).1

  pub close_pool-IsBounded : (s : World W) → IsBounded s → IsBounded (close_pool net s).1
  unfolding close_pool
  close_pool-IsBounded s h =
      if-both (λ (out : Result (Unit {0}) × World W). IsBounded out.1) s.shut _ _ h
        (rw (close_all-idle s.idle (record s { idle = []; shut = true })) (omega arith))
