-- ===== src/Gcra/AtMost.antt =====
-- lua.go: what allowAtMostLua grants, against allowNLua.
use native.Mathlib.Nat.{mul-le-mul_left}
use traefik_cluster_ratelimi.Common.{
  ℕ, ◌*◌, ◌≤◌, ◌<◌, ◌≡◌, ap, ◌↔◌, inl, inr, Option, arith, Bool-cases, ltb→lt, ltb_false→le,
}
use traefik_cluster_ratelimi.Common.Int.{ℤ, pos, pos_part, ◌-ℤ◌, ◌≤ℤ◌, ltb_ℤ, int_laws}
use traefik_cluster_ratelimi.Gcra.{
  Args, emission_interval, burst_offset, start_tat, allow_n, allow_at_most,
}
use traefik_cluster_ratelimi.Gcra.Verdict.{allow_n_cases}
use traefik_cluster_ratelimi.Gcra.Run.Retry.{cut-ge_iff, emission_interval-pos}

-- now - (tat - burst_offset)
abbrev left_over : Args → ℤ → Option ℤ → ℤ
left_over a now stored = now -ℤ (start_tat stored now -ℤ pos (burst_offset a))

granted_iff :
    (a : Args) (now : ℤ) (k : ℕ) (stored : Option ℤ)
    → 0 < k
    → ((allow_n a now k stored).0.allowed ≡ pos k)
      ↔ (pos (emission_interval a * k) ≤ℤ left_over a now stored)
granted_iff a now k stored h = elim (allow_n_cases a now k stored) [
  | inl (le, r) ↦ (λ e. omega (int_laws, le), λ fits. rw r)
  | inr (gt, r) ↦ (
    λ e. let e' : pos 0 ≡ pos k = rw r at e in absurd (omega (arith, h, ap pos_part e')),
    λ fits. absurd (omega (int_laws, gt, fits)),
  )
]

times-le_iff : (e k n : ℕ) → 0 < e → (e * k ≤ e * n) ↔ (k ≤ n)
times-le_iff e k n h = (λ le. grind arith, λ le. omega (arith, mul-le-mul_left e le))

-- allowAtMostLua grants the most events, up to the asked number, that allowNLua grants in one call at
-- the same moment and with the same entry: it grants at least a positive number of events exactly if
-- that number is at most the asked one and allowNLua grants it. The period is positive.
pub allow_at_most-most :
    (a : Args) (now : ℤ) (cost k : ℕ) (stored : Option ℤ)
    → 0 < a.period
    → 0 < k
    → (pos k ≤ℤ (allow_at_most a now cost stored).0.allowed)
      ↔ ((k ≤ cost) × ((allow_n a now k stored).0.allowed ≡ pos k))
unfolding allow_at_most
allow_at_most-most a now cost k stored p h =
    let (to, back) = granted_iff a now k stored h in
    let e = emission_interval-pos a p in
    elim (Bool-cases (ltb_ℤ (left_over a now stored) (pos (emission_interval a)))) [
      | inl none_left ↦
          let one : emission_interval a * 1 ≤ emission_interval a * k =
            (times-le_iff _ 1 k e).1 h in
          rw none_left (
            λ le. absurd (omega (arith, h, le)),
            λ (le, granted). absurd (omega (int_laws, ltb→lt _ _ none_left, to granted, one)),
          )
      | inr some_left ↦
          let whole = ltb_false→le _ _ some_left in
          let asked = emission_interval a * cost in
          elim (Bool-cases (ltb_ℤ (left_over a now stored) (pos asked))) [
            | inl short ↦
                let (cut, exact) =
                  cut-ge_iff (emission_interval a) (left_over a now stored) k e
                    (omega (int_laws, whole)) in
                rw (some_left, short)
                  (
                    λ le. (
                      (times-le_iff _ k cost e).0 (omega (int_laws, cut le, ltb→lt _ _ short)),
                      back (cut le),
                    ),
                    λ (le, granted). exact (to granted),
                  )
            | inr enough ↦
                let (cut, exact) = cut-ge_iff (emission_interval a) (pos asked) k e (omega arith) in
                rw (some_left, enough)
                  (
                    λ le.
                        let within = cut le in
                        (
                          (times-le_iff _ k cost e).0 (omega (arith, within)),
                          back (omega (int_laws, within, ltb_false→le _ _ enough)),
                        ),
                    λ (le, granted). exact (omega (arith, (times-le_iff _ k cost e).1 le)),
                  )
          ]
    ]
