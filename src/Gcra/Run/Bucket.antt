-- ===== src/Gcra/Run/Bucket.antt =====
-- The README's token bucket, and that the script is one: tokens are counted in units of time, an
-- emission interval to a token.
use traefik_cluster_ratelimi.Common.{
  ◌*◌, ◌<◌, ◌≡◌, refl, ap, inl, inr, true, false, Option, List, [], ◌∷◌, map, if◌then◌else◌,
  Bool-cases, le→leb, lt→leb_false,
}
use traefik_cluster_ratelimi.Common.Int.{
  ℤ, pos, pos_part, neg_part, ◌+ℤ◌, ◌-ℤ◌, ◌≤ℤ◌, leb_ℤ, max_ℤ_cases, min_ℤ, min_ℤ_cases, int_laws,
  eq_of_parts,
}
use traefik_cluster_ratelimi.Gcra.{Args, emission_interval, burst_offset}
use traefik_cluster_ratelimi.Gcra.Run.{Entry, Call, step, run}
use traefik_cluster_ratelimi.Gcra.Run.Expiry.{IsKept, step-IsKept}
use traefik_cluster_ratelimi.Gcra.Run.State.{tat_at, tat_at-later, step_cases}

-- The level at the moment `stamp`.
pub record Bucket : Type 0 where
  pub level : ℤ
  pub stamp : ℤ

-- A unit flows in for each unit of time, up to the capacity.
pub refill : Args → ℤ → Bucket → ℤ
refill a now b = min_ℤ (pos (burst_offset a)) (b.level +ℤ (now -ℤ b.stamp))

-- A call takes all its tokens or none.
pub draw : Args → Bucket → Call → ℤ × Bucket
draw a b c =
    let level = refill a c.now b in
    let price = pos (emission_interval a * c.cost) in
    if leb_ℤ price level
    then (pos c.cost, record { level = level -ℤ price; stamp = c.now })
    else (pos 0, record { level = level; stamp = c.now })

pub draws : Args → Bucket → List Call → List ℤ
draws a b [] = []
draws a b (c ∷ cs) = let (taken, b') = draw a b c in taken ∷ draws a b' cs

-- Each call comes at or after the one before it.
abbrev pub IsChronological : ℤ → List Call → Type 0
IsChronological from [] = Unit
IsChronological from (c ∷ cs) = (from ≤ℤ c.now) × IsChronological c.now cs

-- An entry and a bucket that stand for one another.
abbrev pub Represents : Args → Option Entry → Bucket → Type 0
Represents a entry b = tat_at entry b.stamp +ℤ b.level ≡ b.stamp +ℤ pos (burst_offset a)

refill-Represents :
    (a : Args) (entry : Option Entry) (b : Bucket) (now : ℤ)
    → b.stamp ≤ℤ now
    → Represents a entry b
    → tat_at entry now +ℤ refill a now b ≡ now +ℤ pos (burst_offset a)
unfolding refill
refill-Represents a entry b now h e =
    rw (tat_at-later entry b.stamp now h) (elim (max_ℤ_cases (tat_at entry b.stamp) now) [
      | inl (m, ge) ↦ elim (min_ℤ_cases (pos (burst_offset a)) (b.level +ℤ (now -ℤ b.stamp))) [
        | inl (n, le) ↦ rw (m, n) (eq_of_parts _ _ (omega (int_laws, ap pos_part e, ap neg_part e)))
        | inr (n, le) ↦ rw (m, n) (eq_of_parts _ _ (omega (int_laws, ap pos_part e, ap neg_part e)))
      ]
      | inr (m, le) ↦ elim (min_ℤ_cases (pos (burst_offset a)) (b.level +ℤ (now -ℤ b.stamp))) [
        | inl (n, le') ↦ rw (m, n)
        | inr (n, le') ↦
            rw (m, n) (eq_of_parts _ _ (omega (int_laws, ap pos_part e, ap neg_part e)))
      ]
    ])

draw-Represents :
    (a : Args) (entry : Option Entry) (b : Bucket) (c : Call)
    → IsKept entry
    → b.stamp ≤ℤ c.now
    → Represents a entry b
    → ((step a entry c).0.allowed ≡ (draw a b c).0) × Represents a (step a entry c).1 (draw a b c).1
unfolding draw
draw-Represents a entry b c k h e =
    let full = refill-Represents a entry b c.now h e in
    elim (step_cases a entry c k) [
      | inl (le, r, t) ↦
          let enough : leb_ℤ (pos (emission_interval a * c.cost)) (refill a c.now b) ≡ true =
            le→leb _ _ (omega (int_laws, ap pos_part full, ap neg_part full)) in
          (
            rw (enough, r),
            rw (enough, t) (eq_of_parts _ _ (omega (int_laws, ap pos_part full, ap neg_part full))),
          )
      | inr (gt, r, same) ↦
          let short : leb_ℤ (pos (emission_interval a * c.cost)) (refill a c.now b) ≡ false =
            lt→leb_false _ _ (omega (int_laws, ap pos_part full, ap neg_part full)) in
          (rw (short, r), rw (short, same) full)
    ]

stamp-draw :
    (a : Args) (b : Bucket) (c : Call) (cs : List Call)
    → IsChronological c.now cs
    → IsChronological (draw a b c).1.stamp cs
unfolding draw
stamp-draw a b c cs h =
    elim (Bool-cases (leb_ℤ (pos (emission_interval a * c.cost)) (refill a c.now b))) [
      | inl e ↦ rw e h
      | inr e ↦ rw e h
    ]

-- The script refines the token bucket: calls in the order of their times, of any cost, are granted
-- the same numbers of events as a bucket grants that stands for the entry at the start, on every
-- call. The rate is positive and the entry does not expire before its arrival time.
pub run-draws :
    (a : Args) (entry : Option Entry) (b : Bucket) (cs : List Call)
    → 0 < a.rate
    → IsKept entry
    → IsChronological b.stamp cs
    → Represents a entry b
    → map (λ r. r.allowed) (run a entry cs).0 ≡ draws a b cs
unfolding run draws
run-draws a entry b [] p k h e = refl
run-draws a entry b (c ∷ cs) p k (h, later) e =
    let (same, e') = draw-Represents a entry b c k h e in
    let rest =
      run-draws a (step a entry c).1 (draw a b c).1 cs p (step-IsKept a c entry p k)
        (stamp-draw a b c cs later) e' in
    λ i. same i ∷ rest i
