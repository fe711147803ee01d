-- ===== src/Gcra/Run.antt =====
-- allowNLua under load: a Redis key with its expiry, one call of the script, and a sequence of
-- calls. Redis may drop a key at any read after its expiry has passed; which reads find it
-- dropped is the choice `gone` of the environment.
pub mod Expiry
pub mod Window
pub mod State
pub mod Bucket
pub mod Retry
use traefik_cluster_ratelimi.Common.{
  ℕ, ◌+◌, ◌*◌, Bool, true, false, ◌&&◌, Option, none, some, List, [], ◌∷◌, if◌then◌else◌,
}
use traefik_cluster_ratelimi.Common.Int.{ℤ, pos, pos_part, ◌+ℤ◌, ◌*ℤ◌, ltb_ℤ}
use traefik_cluster_ratelimi.Gcra.{Args, second, Reply, Write, allow_n}

pub record Entry : Type 0 where
  pub tat : ℤ
  pub deadline : ℤ

pub record Call : Type 0 where
  pub now : ℤ
  pub cost : ℕ
  pub gone : Bool

-- redis.call("GET", rate_limit_key)
unfoldable pub read : Bool → ℤ → Option Entry → Option ℤ
read gone now none = none
read gone now (some e) = if gone && ltb_ℤ e.deadline now then none else some e.tat

-- redis.call("SET", rate_limit_key, new_tat, "EX", math.ceil(reset_after))
unfoldable pub commit : Args → ℤ → Option Entry → Option Write → Option Entry
commit a now entry none = entry
commit a now entry (some w) =
    some (record { tat = w.tat; deadline = now +ℤ w.ttl *ℤ pos (second a) })

unfoldable pub step : Args → Option Entry → Call → Reply × Option Entry
step a entry c =
    let (reply, write) = allow_n a c.now c.cost (read c.gone c.now entry) in
    (reply, commit a c.now entry write)

unfoldable pub run : Args → Option Entry → List Call → List Reply × Option Entry
run a entry [] = ([], entry)
run a entry (c ∷ cs) =
    let (reply, entry') = step a entry c in
    let (replies, last) = run a entry' cs in (reply ∷ replies, last)

-- The events that a sequence of replies has admitted.
unfoldable pub admitted : List Reply → ℕ
admitted [] = 0
admitted (r ∷ rs) = pos_part r.allowed + admitted rs
