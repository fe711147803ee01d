-- ===== src/Redis/Client/Fresh.antt =====
-- internal/redis/redis.go: the pool that NewClient makes.
use traefik_cluster_ratelimi.Common.{
  Bool-cases, inl, inr, ◌≡◌, refl, ℕ, zero, suc, ◌+◌, ◌≤◌, false, not, ◌&&◌, Option, [], ◌∷◌,
  length, length-append, arith,
}
use traefik_cluster_ratelimi.Common.Bytes.{is_empty}
use traefik_cluster_ratelimi.Common.Result.{Result, ok, err, panic}
use traefik_cluster_ratelimi.Common.State.{M, continue, ◌>>◌, give}
use traefik_cluster_ratelimi.Redis.Options.{Options}
use traefik_cluster_ratelimi.Redis.Network.{Network, World, TlsConfig}
use traefik_cluster_ratelimi.Redis.Client.{Client, max_active, new_conn}
use traefik_cluster_ratelimi.Redis.Client.Calm.{new_conn-Calm}
use traefik_cluster_ratelimi.Redis.Client.Pool.{
  filled, make_pool, prepopulate, client_of, tls_config_of, new_client,
}

module _ {W : Type 0} (net : Network W) where
  filled-length :
      (r : Result ℕ × World W) (k : ℕ) → length r.1.idle ≤ k → length (filled net r).1.idle ≤ suc k
  filled-length (ok conn, s) k h = rw (length-append s.idle (conn ∷ [])) (omega (arith, h))
  filled-length (err e, s) k h = omega (arith, h)
  filled-length (panic, s) k h = omega (arith, h)

  continue-length :
      {A : Type 0} (next : M (World W) A) (n k : ℕ) (r : Result (Unit {0}) × World W)
      → length r.1.idle ≤ k
      → ((s : World W) (k : ℕ) → length s.idle ≤ k → length (next s).1.idle ≤ k + n)
      → length (continue (λ t. next) r).1.idle ≤ k + n
  continue-length next n k (ok t, s) h more = more s k h
  continue-length next n k (err e, s) h more = omega (arith, h)
  continue-length next n k (panic, s) h more = omega (arith, h)

  prepopulate-length :
      (c : Client) (n : ℕ) (s : World W) (k : ℕ)
      → length s.idle ≤ k
      → length (prepopulate net c n s).1.idle ≤ k + n
  unfolding prepopulate
  prepopulate-length c zero s k h = omega (arith, h)
  prepopulate-length c (suc n) s k h =
      let (same, still) = new_conn-Calm net c s in
      let dialed : length (new_conn net c s).1.idle ≤ k = rw same h in
      let all =
        continue-length (prepopulate net c n) n (suc k) (filled net (new_conn net c s))
          (filled-length (new_conn net c s) k dialed) (prepopulate-length c n) in
      omega (arith, all)

  -- A client that was made has the pool of its size.
  abbrev pub IsFresh : Result Client × World W → Type 0
  IsFresh (ok c, s) = (c.pool_size ≡ max_active) × (length s.idle ≤ max_active)
  IsFresh (err e, s) = Unit {0}
  IsFresh (panic, s) = Unit {0}

  filled-IsFresh :
      (c : Client) (r : Result (Unit {0}) × World W)
      → c.pool_size ≡ max_active
      → length r.1.idle ≤ max_active
      → IsFresh (continue (λ t. give (ok c)) r)
  filled-IsFresh c (ok t, s) size few = (size, few)
  filled-IsFresh c (err e, s) size few = tt
  filled-IsFresh c (panic, s) size few = tt

  configured-IsFresh :
      (o : Options) (r : Result (Option TlsConfig) × World W)
      → IsFresh (
          continue
            (λ cfg.
              make_pool net
              >> prepopulate net (client_of o cfg) max_active
              >> give (ok (client_of o cfg)))
            r)
  configured-IsFresh o (ok cfg, s) =
      let c = client_of o cfg in
      let empty = record s { idle = []; shut = false } in
      filled-IsFresh c (prepopulate net c max_active empty) refl
        (prepopulate-length c max_active empty 0 (omega arith))
  configured-IsFresh o (err e, s) = tt
  configured-IsFresh o (panic, s) = tt

  pub new_client-IsFresh : (o : Options) (s : World W) → IsFresh (new_client net o s)
  unfolding new_client
  new_client-IsFresh o s =
      elim (Bool-cases (not (is_empty o.password) && not (is_empty o.password_file))) [
        | inl both ↦ rw both tt
        | inr one ↦ rw one (configured-IsFresh o (tls_config_of net o s))
      ]
