-- ===== src/Gcra/Run/Retry.antt =====
-- What the numbers in a reply promise: `remaining` after an accepted call, and `retry_after` after a
-- rejected one.
use native.Mathlib.Nat.{le-div_iff_mul-le}
use traefik_cluster_ratelimi.Common.{ℕ, ◌*◌, ◌≤◌, ◌<◌, ◌≡◌, ap, ◌↔◌, inl, inr, false, Option, arith}
use traefik_cluster_ratelimi.Common.Int.{
  ℤ, pos, negsuc, pos_part, ◌+ℤ◌, ◌-ℤ◌, ◌≤ℤ◌, ◌<ℤ◌, max_ℤ, max_ℤ_cases, int_laws,
}
use traefik_cluster_ratelimi.Common.Int.{quot_ℤ}
use traefik_cluster_ratelimi.Gcra.{Args, emission_interval, burst_offset}
use traefik_cluster_ratelimi.Gcra.Verdict.{room, next_tat}
use traefik_cluster_ratelimi.Gcra.Run.{Entry, Call, read, step}
use traefik_cluster_ratelimi.Gcra.Run.Expiry.{IsKept, step-IsKept}
use traefik_cluster_ratelimi.Gcra.Run.State.{tat_at, tat_at-later, step_cases}

-- A call of some cost is granted exactly if its arrival time is within the burst offset.
step-allowed_iff :
    (a : Args) (entry : Option Entry) (c : Call)
    → IsKept entry
    → 0 < c.cost
    → ((step a entry c).0.allowed ≡ pos c.cost)
      ↔ (tat_at entry c.now +ℤ pos (emission_interval a * c.cost) ≤ℤ c.now +ℤ pos (burst_offset a))
step-allowed_iff a entry c k h = elim (step_cases a entry c k) [
  | inl (le, r, _) ↦ (λ _. le, λ _. rw r)
  | inr (gt, r, _) ↦ (
    λ e. let e' : pos 0 ≡ pos c.cost = rw r at e in absurd (omega (arith, h, ap pos_part e')),
    λ le. absurd (omega (arith, gt, le)),
  )
]

over_iff :
    (tat now later : ℤ) (x y : ℕ)
    → now ≤ℤ later
    → x ≤ y
    → now +ℤ pos y <ℤ tat +ℤ pos x
    → (max_ℤ tat later +ℤ pos x ≤ℤ later +ℤ pos y)
      ↔ (now +ℤ (pos 0 -ℤ (now -ℤ (tat +ℤ pos x -ℤ pos y))) ≤ℤ later)
over_iff tat now later x y h fits over = elim (max_ℤ_cases tat later) [
  | inl (m, ge) ↦ rw m (omega int_laws)
  | inr (m, le) ↦ rw m (omega int_laws)
]

price-le : (a : Args) (n : ℕ) → n ≤ a.burst → emission_interval a * n ≤ burst_offset a
unfolding burst_offset
price-le a n h = grind arith

-- After a rejected call nobody else's call may come between: the same call is granted at a later
-- moment exactly if `retry_after` has passed by then. Its cost is positive and within the burst, the rate is
-- positive, and the entry at the start does not expire before its arrival time.
pub retry_after_exact :
    (a : Args) (entry : Option Entry) (c c' : Call)
    → 0 < a.rate
    → IsKept entry
    → 0 < c.cost
    → c.cost ≤ a.burst
    → c'.cost ≡ c.cost
    → c.now ≤ℤ c'.now
    → (step a entry c).0.allowed ≡ pos 0
    → ((step a (step a entry c).1 c').0.allowed ≡ pos c'.cost)
      ↔ (c.now +ℤ (step a entry c).0.retry_after ≤ℤ c'.now)
retry_after_exact a entry c c' p k h fits same later refused = elim (step_cases a entry c k) [
  | inl (le, r, _) ↦
      let e' : pos c.cost ≡ pos 0 = rw r at refused in absurd (omega (arith, h, ap pos_part e'))
  | inr (gt, r, stays) ↦
      let (to, back) = step-allowed_iff a entry c' k (rw same h) in
      let (over, due) =
        over_iff (tat_at entry c.now) c.now c'.now (emission_interval a * c.cost) (burst_offset a)
          later (price-le a c.cost fits) gt in
      rw (r, stays)
        (unfold tat_at in
          (
            λ e. over (rw (same, tat_at-later entry c.now c'.now later) at (to e)),
            λ e. back (rw (same, tat_at-later entry c.now c'.now later) (due e)),
          ))
]

pub cut-ge_iff :
    (e : ℕ) (d : ℤ) (k : ℕ) → 0 < e → pos 0 ≤ℤ d → (pos k ≤ℤ quot_ℤ d e) ↔ (pos (e * k) ≤ℤ d)
cut-ge_iff e (pos n) k h p =
    let (to, back) = le-div_iff_mul-le {x = k} {y = n} h in
    (λ le. omega (arith, to (omega arith)), λ le. omega (arith, back (omega arith)))
cut-ge_iff e (negsuc n) k h p = absurd (omega arith)

pub emission_interval-pos : (a : Args) → 0 < a.period → 0 < emission_interval a
unfolding emission_interval
emission_interval-pos a h = omega arith

-- After a granted call another one at the same moment is granted exactly if its cost, which is
-- positive, is at most `remaining`.
remaining_exact :
    (a : Args) (entry : Option Entry) (c c' : Call)
    → 0 < a.rate
    → 0 < a.period
    → IsKept entry
    → 0 < c.cost
    → 0 < c'.cost
    → c'.now ≡ c.now
    → (step a entry c).0.allowed ≡ pos c.cost
    → ((step a (step a entry c).1 c').0.allowed ≡ pos c'.cost)
      ↔ (pos c'.cost ≤ℤ (step a entry c).0.remaining)
remaining_exact a entry c c' p q k h h' now granted = elim (step_cases a entry c k) [
  | inr (gt, r, _) ↦
      let e' : pos 0 ≡ pos c.cost = rw r at granted in absurd (omega (arith, h, ap pos_part e'))
  | inl (le, r, t) ↦
      let (to, back) = step-allowed_iff a (step a entry c).1 c' (step-IsKept a c entry p k) h' in
      let (cut, whole) =
        cut-ge_iff (emission_interval a)
          (room a c.now (next_tat a c.now c.cost (read false c.now entry))) c'.cost
          (emission_interval-pos a q) (unfold tat_at in omega (int_laws, le)) in
      rw r (
        unfold tat_at in
        (
          λ e. whole (omega (int_laws, rw (now, t) at (to e))),
          λ e. back (rw (now, t) (omega (int_laws, cut e))),
        ))
]
