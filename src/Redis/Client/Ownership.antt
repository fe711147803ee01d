-- ===== src/Redis/Client/Ownership.antt =====
-- internal/redis/redis.go: the connections that callers hold and those that the pool holds, call by
-- call.
use mathlib.Core.List.{append-nil, perm_middle}
use traefik_cluster_ratelimi.Common.{
  ◌≡◌, refl, inl, inr, ℕ, zero, suc, true, false, not, ◌&&◌, Bool-cases, Option, none, some, List,
  [], ◌∷◌, ◌++◌, length, leb, if-both,
}
use traefik_cluster_ratelimi.Common.Bytes.{Bytes, is_empty}
use traefik_cluster_ratelimi.Common.Result.{Result, ok, err, panic}
use traefik_cluster_ratelimi.Common.State.{M, continue, ◌>>◌, give}
use traefik_cluster_ratelimi.Redis.Options.{Options}
use traefik_cluster_ratelimi.Redis.Network.{Network, World, TlsConfig, close}
use traefik_cluster_ratelimi.Redis.Client.{Client, max_active, new_conn}
use traefik_cluster_ratelimi.Redis.Client.Calm.{KeepsPool, new_conn-Calm, exchange-Calm}
use traefik_cluster_ratelimi.Redis.Client.Numbered.{
  IsNumbering, Later, Numbers, new_conn-Numbers, exchange-Grows,
}
use traefik_cluster_ratelimi.Redis.Client.Distinct.{
  IsDistinctBelow, nil-IsDistinctBelow, IsDistinctBelow-grow, IsDistinctBelow-perm,
  IsDistinctBelow-cons, IsDistinctBelow-tail, IsDistinctBelow-front, concat-perm,
  concat-perm-append,
}
use traefik_cluster_ratelimi.Redis.Client.Pool.{
  take_idle, get, put, close_all, close_pool, exchange, filled, make_pool, prepopulate, client_of,
  tls_config_of, new_client,
}

-- What a caller holds after `get`: the connection, when there is one.
abbrev pub with_taken : Result (Option ℕ) → List ℕ → List ℕ
with_taken (ok (some conn)) held = conn ∷ held
with_taken (ok none) held = held
with_taken (err e) held = held
with_taken panic held = held

module _ {W : Type 0} (net : Network W) (made : W → ℕ) (numbering : IsNumbering net made) where
  -- The connections in use and the idle ones are distinct, and none is yet to be made.
  abbrev pub Owns : List ℕ → World W → Type 0
  Owns held s = IsDistinctBelow (made s.env) (held ++ s.idle)

  pub Owns-Later :
      (held : List ℕ) (s s' : World W)
      → Later net made numbering s s'
      → s'.idle ≡ s.idle
      → Owns held s
      → Owns held s'
  Owns-Later held s s' h same owned =
      IsDistinctBelow-grow (made s.env) (made s'.env) (held ++ s'.idle) h (rw same owned)

  module _ (c : Client) where
    fetched-Owns :
        (held : List ℕ) (s : World W) (r : Result ℕ × World W)
        → Numbers net made numbering s r
        → KeepsPool s r.1
        → Owns held s
        → let r' = continue (λ conn. give (ok (some conn))) r in Owns (with_taken r'.0 held) r'.1
    fetched-Owns held s (ok conn, s') (low, high) (same, still) owned =
        IsDistinctBelow-cons (made s.env) (made s'.env) conn (held ++ s'.idle) low high
          (rw same owned)
    fetched-Owns held s (err e, s') h (same, still) owned = Owns-Later held s s' h same owned
    fetched-Owns held s (panic, s') h (same, still) owned = Owns-Later held s s' h same owned

    take_idle-Owns :
        (held conns : List ℕ) (s : World W)
        → s.idle ≡ conns
        → Owns held s
        → Owns (with_taken (take_idle net c conns s).0 held) (take_idle net c conns s).1
    take_idle-Owns held (conn ∷ conns) s same owned =
        IsDistinctBelow-perm (made s.env) (held ++ conn ∷ conns) (conn ∷ (held ++ conns))
          (perm_middle held conns) (rw same at owned)
    take_idle-Owns held [] s same owned =
        if-both (λ (r : Result (Option ℕ) × World W). Owns (with_taken r.0 held) r.1) s.shut _ _
          owned
          (fetched-Owns held s (new_conn net c s) (new_conn-Numbers net made numbering c s)
            (new_conn-Calm net c s) owned)

    pub get-Owns :
        (held : List ℕ) (s : World W)
        → Owns held s
        → Owns (with_taken (get net c s).0 held) (get net c s).1
    unfolding get
    get-Owns held s owned = take_idle-Owns held s.idle s refl owned

    pub put-Owns :
        (conn : ℕ) (rest : List ℕ) (s : World W)
        → Owns (conn ∷ rest) s
        → Owns rest (put net c (some conn) s).1
    unfolding put close
    put-Owns conn rest s owned =
        let free = IsDistinctBelow-tail (made s.env) conn (rest ++ s.idle) owned in
        let P = λ (r : Result (Unit {0}) × World W). Owns rest r.1 in
        if-both P (leb c.pool_size (length s.idle)) _ _
          (IsDistinctBelow-grow (made s.env) _ (rest ++ s.idle) (numbering.closes conn s.env) free)
          (if-both P s.shut _ _ free (
            IsDistinctBelow-perm (made s.env) (conn ∷ (rest ++ s.idle)) _
              (concat-perm-append conn rest s.idle) owned))

    pub exchange-Owns :
        (held : List ℕ) (conn : Option ℕ) (args : List Bytes) (s : World W)
        → Owns held s
        → Owns held (exchange net c conn args s).1
    exchange-Owns held conn args s owned =
        Owns-Later held s (exchange net c conn args s).1
          (exchange-Grows net made numbering c conn args s) (exchange-Calm net c conn args s).0
          owned

  close_all-Owns :
      (held conns : List ℕ) (s : World W) → Owns held s → Owns held (close_all net conns s).1
  unfolding close
  close_all-Owns held [] s owned = owned
  close_all-Owns held (conn ∷ conns) s owned =
      close_all-Owns held conns (close net conn s).1
        (Owns-Later held s (close net conn s).1 (numbering.closes conn s.env) refl owned)

  pub close_pool-Owns : (held : List ℕ) (s : World W) → Owns held s → Owns held (close_pool net s).1
  unfolding close_pool
  close_pool-Owns held s owned =
      if-both (λ (r : Result (Unit {0}) × World W). Owns held r.1) s.shut _ _ owned
        (close_all-Owns held s.idle (record s { idle = []; shut = true })
          (rw (append-nil held) (IsDistinctBelow-front (made s.env) held s.idle owned)))

  -- What the pool holds while it is filled: nothing is in use yet.
  filled-Owns :
      (s : World W) (r : Result ℕ × World W)
      → Numbers net made numbering s r
      → KeepsPool s r.1
      → Owns [] s
      → Owns [] (filled net r).1
  filled-Owns s (ok conn, s') (low, high) (same, still) owned =
      IsDistinctBelow-perm (made s'.env) (conn ∷ s'.idle) (s'.idle ++ conn ∷ [])
        (concat-perm conn s'.idle)
        (IsDistinctBelow-cons (made s.env) (made s'.env) conn s'.idle low high (rw same owned))
  filled-Owns s (err e, s') h (same, still) owned = Owns-Later [] s s' h same owned
  filled-Owns s (panic, s') h (same, still) owned = Owns-Later [] s s' h same owned

  continue-Owns :
      {A : Type 0} (next : M (World W) A) (r : Result (Unit {0}) × World W)
      → Owns [] r.1
      → ((s : World W) → Owns [] s → Owns [] (next s).1)
      → Owns [] (continue (λ t. next) r).1
  continue-Owns next (ok t, s) owned more = more s owned
  continue-Owns next (err e, s) owned more = owned
  continue-Owns next (panic, s) owned more = owned

  prepopulate-Owns :
      (c : Client) (n : ℕ) (s : World W) → Owns [] s → Owns [] (prepopulate net c n s).1
  unfolding prepopulate
  prepopulate-Owns c zero s owned = owned
  prepopulate-Owns c (suc n) s owned =
      continue-Owns (prepopulate net c n) (filled net (new_conn net c s))
        (filled-Owns s (new_conn net c s) (new_conn-Numbers net made numbering c s)
          (new_conn-Calm net c s) owned)
        (prepopulate-Owns c n)

  -- The world that NewClient leaves, when it makes a client.
  abbrev pub LeavesOwned : Result Client × World W → Type 0
  LeavesOwned (ok c, s) = Owns [] s
  LeavesOwned (err e, s) = Unit {0}
  LeavesOwned (panic, s) = Unit {0}

  given-LeavesOwned :
      (c : Client) (r : Result (Unit {0}) × World W)
      → Owns [] r.1
      → LeavesOwned (continue (λ t. give (ok c)) r)
  given-LeavesOwned c (ok t, s) owned = owned
  given-LeavesOwned c (err e, s) owned = tt
  given-LeavesOwned c (panic, s) owned = tt

  configured-LeavesOwned :
      (o : Options) (r : Result (Option TlsConfig) × World W)
      → LeavesOwned (
          continue
            (λ cfg.
              make_pool net
              >> prepopulate net (client_of o cfg) max_active
              >> give (ok (client_of o cfg)))
            r)
  configured-LeavesOwned o (ok cfg, s) =
      let c = client_of o cfg in
      let empty = record s { idle = []; shut = false } in
      given-LeavesOwned c (prepopulate net c max_active empty)
        (prepopulate-Owns c max_active empty (nil-IsDistinctBelow (made s.env)))
  configured-LeavesOwned o (err e, s) = tt
  configured-LeavesOwned o (panic, s) = tt

  pub new_client-LeavesOwned : (o : Options) (s : World W) → LeavesOwned (new_client net o s)
  unfolding new_client
  new_client-LeavesOwned o s =
      elim (Bool-cases (not (is_empty o.password) && not (is_empty o.password_file))) [
        | inl both ↦ rw both tt
        | inr one ↦ rw one (configured-LeavesOwned o (tls_config_of net o s))
      ]
