-- ===== src/Redis/Client/Stages.antt =====
-- internal/redis/redis.go, the calls on one connection: a call is described by the events that it
-- adds to the log, the latest first.
use mathlib.Core.List.{append_assoc}
use traefik_cluster_ratelimi.Common.{◌≡◌, refl, sym, ◌∙◌, List, [], ◌++◌}
use traefik_cluster_ratelimi.Common.Bytes.{Bytes}
use traefik_cluster_ratelimi.Common.Result.{Result, ok, err, panic, with_context}
use traefik_cluster_ratelimi.Common.State.{M, continue, ◌>>=◌, in_context}
use traefik_cluster_ratelimi.Redis.Network.{World, Event}

module _ {W : Type 0} where
  abbrev pub Keeps : World W → World W → Type 0
  Keeps s s' = (s'.idle ≡ s.idle) × (s'.shut ≡ s.shut) × (s'.shas ≡ s.shas)

  -- The log has got the events, or some of them from the first on.
  abbrev pub Logs : List Event → World W → World W → Type 0
  Logs events s s' = s'.log ≡ events ++ s.log

  abbrev pub LogsPart : List Event → World W → World W → Type 0
  LogsPart events s s' =
      (todo : List Event) × (done : List Event) × (events ≡ todo ++ done) × Logs done s s'

  -- All the events of a call that succeeds, the first ones of a call that fails.
  abbrev pub Traced : {A : Type 0} → List Event → World W → Result A × World W → Type 0
  Traced events s (ok a, s') = Keeps s s' × Logs events s s'
  Traced events s (err e, s') = Keeps s s' × LogsPart events s s'
  Traced events s (panic, s') = Keeps s s' × LogsPart events s s'

  unfoldable pub Stage : {A : Type 0} → List Event → M (World W) A → Type 0
  Stage {A} events call = (s : World W) → Traced events s (call s)

  pub Keeps-trans : (s s1 s2 : World W) → Keeps s s1 → Keeps s1 s2 → Keeps s s2
  Keeps-trans s s1 s2 (i, b, h) (j, d, k) = (j ∙ i, d ∙ b, k ∙ h)

  Logs-append :
      (first second : List Event) (s s1 s2 : World W)
      → Logs first s s1
      → Logs second s1 s2
      → Logs (second ++ first) s s2
  Logs-append first second s s1 s2 a b = rw b (rw a (sym (append_assoc second first s.log)))

  -- What stopped in the second of two steps.
  LogsPart-second :
      (first second : List Event) (s s1 s2 : World W)
      → Logs first s s1
      → LogsPart second s1 s2
      → LogsPart (second ++ first) s s2
  LogsPart-second first second s s1 s2 a (todo, done, e, b) =
      (todo, done ++ first, rw e (append_assoc todo done first), Logs-append first done s s1 s2 a b)

  -- What stopped in the first of two steps.
  LogsPart-first :
      (first second : List Event) (s s1 : World W)
      → LogsPart first s s1
      → LogsPart (second ++ first) s s1
  LogsPart-first first second s s1 (todo, done, e, b) =
      (second ++ todo, done, rw e (sym (append_assoc second todo done)), b)

  pub Traced-after :
      {A : Type 0} (first second : List Event) (s s1 : World W) (r : Result A × World W)
      → Keeps s s1
      → Logs first s s1
      → Traced second s1 r
      → Traced (second ++ first) s r
  Traced-after first second s s1 (ok a, s2) k l (k', l') =
      (Keeps-trans s s1 s2 k k', Logs-append first second s s1 s2 l l')
  Traced-after first second s s1 (err e, s2) k l (k', l') =
      (Keeps-trans s s1 s2 k k', LogsPart-second first second s s1 s2 l l')
  Traced-after first second s s1 (panic, s2) k l (k', l') =
      (Keeps-trans s s1 s2 k k', LogsPart-second first second s s1 s2 l l')

  continue-Traced :
      {A B : Type 0} (first second : List Event) (next : A → M (World W) B) (s : World W)
      (r : Result A × World W)
      → ((a : A) (s1 : World W) → Traced second s1 (next a s1))
      → Traced first s r
      → Traced (second ++ first) s (continue next r)
  continue-Traced first second next s (ok a, s1) t (k, l) =
      Traced-after first second s s1 (next a s1) k l (t a s1)
  continue-Traced first second next s (err e, s1) t (k, l) = (k, LogsPart-first first second s s1 l)
  continue-Traced first second next s (panic, s1) t (k, l) = (k, LogsPart-first first second s s1 l)

  pub >>=-Stage :
      {A B : Type 0} (first second : List Event) (call : M (World W) A) (next : A → M (World W) B)
      → Stage first call
      → ((a : A) → Stage second (next a))
      → Stage (second ++ first) (call >>= next)
  unfolding Stage
  >>=-Stage first second call next t t' s = continue-Traced first second next s (call s) t' (t s)

  pub Logs-Traced :
      {A : Type 0} (events : List Event) (s s' : World W) (r : Result A)
      → Keeps s s'
      → Logs events s s'
      → Traced events s (r, s')
  Logs-Traced events s s' (ok a) k l = (k, l)
  Logs-Traced events s s' (err e) k l = (k, ([], events, refl, l))
  Logs-Traced events s s' panic k l = (k, ([], events, refl, l))

  Traced-with_context :
      {A : Type 0} (events : List Event) (context : Bytes) (s : World W) (r : Result A)
      (s' : World W)
      → Traced events s (r, s')
      → Traced events s (with_context context r, s')
  Traced-with_context events context s (ok a) s' t = t
  Traced-with_context events context s (err e) s' t = t
  Traced-with_context events context s panic s' t = t

  pub in_context-Stage :
      {A : Type 0} (events : List Event) (context : Bytes) (call : M (World W) A)
      → Stage events call
      → Stage events (in_context context call)
  unfolding Stage
  in_context-Stage events context call t s =
      Traced-with_context events context s (call s).0 (call s).1 (t s)
