-- ===== src/Gcra/Run/Window.antt =====
-- The rate limit itself: how much any sequence of calls can admit within a span of time.
use traefik_cluster_ratelimi.Common.{
  ℕ, ◌+◌, ◌*◌, ◌≤◌, ◌<◌, ◌≡◌, refl, ap, ◌⊎◌, inl, inr, Bool, Option, none, some, List, [], ◌∷◌,
  arith, All, Bool-cases, ltb_false→le,
}
use traefik_cluster_ratelimi.Common.Int.{
  ℤ, pos, pos_part, ◌+ℤ◌, ◌-ℤ◌, ◌≤ℤ◌, ltb_ℤ, max_ℤ, max_ℤ_left, max_ℤ_right, int_laws,
}
use traefik_cluster_ratelimi.Gcra.{
  Args, emission_interval, burst_offset, start_tat, write_if_positive,
}
use traefik_cluster_ratelimi.Gcra.Verdict.{allow_n_cases}
use traefik_cluster_ratelimi.Gcra.Run.{Entry, Call, read, commit, step, run, admitted}
use traefik_cluster_ratelimi.Gcra.Run.Expiry.{IsKept, step-IsKept}

abbrev pub InSpan : ℤ → ℤ → Call → Type 0
InSpan from to c = (from ≤ℤ c.now) × (c.now ≤ℤ to)

-- The time from which the next increment is counted, where nothing happens before `from`.
floor : ℤ → Option Entry → ℤ
floor from none = from
floor from (some e) = max_ℤ e.tat from

module _ (from now : ℤ) (later : from ≤ℤ now) where
  floor-le-start_tat :
      (gone : Bool) (entry : Option Entry)
      → IsKept entry
      → (floor from entry ≤ℤ start_tat (read gone now entry) now)
        × (now ≤ℤ start_tat (read gone now entry) now)
  unfolding floor start_tat read max_ℤ
  floor-le-start_tat gone none k = ground arith
  floor-le-start_tat gone (some e) k = ground arith

  floor-commit :
      (a : Args) (tat : ℤ) (x : ℕ) (entry : Option Entry)
      → floor from entry ≤ℤ tat
      → now ≤ℤ tat
      → floor from entry +ℤ pos x
        ≤ℤ floor from
            (commit a now entry (write_if_positive a (tat +ℤ pos x) (tat +ℤ pos x -ℤ now)))
  unfolding commit write_if_positive floor
  floor-commit a tat x entry h k = elim (Bool-cases (ltb_ℤ (pos 0) (tat +ℤ pos x -ℤ now))) [
    | inl fresh ↦ rw fresh (omega (int_laws, max_ℤ_left (tat +ℤ pos x) from))
    | inr old ↦ rw old (omega (int_laws, ltb_false→le _ _ old))
  ]

-- What one call admits moves the floor, and never beyond the burst offset.
module _ (a : Args) (from : ℤ) (c : Call) (entry : Option Entry) (later : from ≤ℤ c.now)
    (kept : IsKept entry) where
  step-floor :
      floor from entry +ℤ pos (emission_interval a * pos_part (step a entry c).0.allowed)
      ≤ℤ floor from (step a entry c).1
  unfolding step commit
  step-floor = elim (allow_n_cases a c.now c.cost (read c.gone c.now entry)) [
    | inl (_, e) ↦ rw e (
        let (h, k) = floor-le-start_tat from c.now later c.gone entry kept in
        floor-commit from c.now later a _ (emission_interval a * c.cost) entry h k)
    | inr (_, e) ↦ rw e (omega int_laws)
  ]

  step-burst :
      ((step a entry c).0.allowed ≡ pos 0)
      ⊎ (floor from entry +ℤ pos (emission_interval a * pos_part (step a entry c).0.allowed)
          ≤ℤ c.now +ℤ pos (burst_offset a))
  unfolding step
  step-burst = elim (allow_n_cases a c.now c.cost (read c.gone c.now entry)) [
    | inl (h, e) ↦
        rw e (inr (omega (int_laws, h, (floor-le-start_tat from c.now later c.gone entry kept).0)))
    | inr (_, e) ↦ rw e (inl refl)
  ]

floor-ge : (from : ℤ) (entry : Option Entry) → from ≤ℤ floor from entry
unfolding floor
floor-ge from none = omega arith
floor-ge from (some e) = max_ℤ_right e.tat from

run-floor :
    (a : Args) (from to : ℤ) (entry : Option Entry) (cs : List Call)
    → 0 < a.rate
    → IsKept entry
    → All (InSpan from to) cs
    → (admitted (run a entry cs).0 ≡ 0)
      ⊎ (floor from entry +ℤ pos (emission_interval a * admitted (run a entry cs).0)
          ≤ℤ to +ℤ pos (burst_offset a))
unfolding run admitted
run-floor a from to entry [] h k _ = inl refl
run-floor a from to entry (c ∷ cs) h k ((later, soon), more) =
    let entry' = (step a entry c).1 in
    let moved = step-floor a from c entry later k in
    elim (run-floor a from to entry' cs h (step-IsKept a c entry h k) more) [
      | inr bound ↦ inr (omega (int_laws, moved, bound))
      | inl idle ↦ elim (step-burst a from c entry later k) [
        | inl e ↦ inl (omega (arith, ap pos_part e, idle))
        | inr bound ↦
            inr (omega (int_laws, bound, soon, ap (λ (n : ℕ). emission_interval a * n) idle))
      ]
    ]

-- Whatever calls reach the key within a span of time, in whatever order and at whatever cost, and
-- whichever reads find the key expired: what they admit is at most the burst and what the span
-- refills, `burst + span / emission_interval`, here multiplied by the emission interval. The key
-- may hold any entry at the start that does not expire before its arrival time.
pub admitted-le-burst :
    (a : Args) (from : ℤ) (span : ℕ) (entry : Option Entry) (cs : List Call)
    → 0 < a.rate
    → IsKept entry
    → All (InSpan from (from +ℤ pos span)) cs
    → emission_interval a * admitted (run a entry cs).0 ≤ emission_interval a * a.burst + span
unfolding burst_offset
admitted-le-burst a from span entry cs h k inside =
    elim (run-floor a from (from +ℤ pos span) entry cs h k inside) [
      | inl none_admitted ↦ omega (arith, ap (λ (n : ℕ). emission_interval a * n) none_admitted)
      | inr bound ↦ omega (int_laws, bound, floor-ge from entry)
    ]
