-- ===== src/Gcra/Run/State.antt =====
-- The arrival time that an entry stands for at a moment, and how one call of the script moves it.
use traefik_cluster_ratelimi.Common.{
  ℕ, ◌*◌, ◌≡◌, refl, ◌⊎◌, inl, inr, false, Option, none, some, arith, Bool-cases, ltb→lt,
  ltb_false→le,
}
use traefik_cluster_ratelimi.Common.Int.{
  ℤ, pos, ◌+ℤ◌, ◌-ℤ◌, ◌≤ℤ◌, ◌<ℤ◌, ltb_ℤ, max_ℤ, max_ℤ_right, max_ℤ_of_le, max_ℤ_of_ge, max_ℤ_cases,
  int_laws, eq_of_parts,
}
use traefik_cluster_ratelimi.Gcra.{
  Args, emission_interval, burst_offset, start_tat, write_if_positive,
}
use traefik_cluster_ratelimi.Gcra.Verdict.{allow_n_cases, accepted, rejected}
use traefik_cluster_ratelimi.Gcra.Run.{Entry, Call, read, commit, step}
use traefik_cluster_ratelimi.Gcra.Run.Expiry.{IsKept, step-kept_call, kept_call}

unfoldable pub tat_at : Option Entry → ℤ → ℤ
tat_at entry now = start_tat (read false now entry) now

-- At a later moment it is the same, or that moment.
pub tat_at-later :
    (entry : Option Entry) (now later : ℤ)
    → now ≤ℤ later
    → tat_at entry later ≡ max_ℤ (tat_at entry now) later
unfolding tat_at start_tat read
tat_at-later none now later h = rw (
  max_ℤ_of_le now now (omega arith),
  max_ℤ_of_ge now later h,
  max_ℤ_of_le later later (omega arith),
)
tat_at-later (some e) now later h = elim (max_ℤ_cases e.tat now) [
  | inl (m, _) ↦ rw m
  | inr (m, k) ↦ rw (m, max_ℤ_of_ge e.tat later (omega arith), max_ℤ_of_ge now later h)
]

pub tat_at-ge : (entry : Option Entry) (now : ℤ) → now ≤ℤ tat_at entry now
unfolding tat_at start_tat read
tat_at-ge none now = max_ℤ_right now now
tat_at-ge (some e) now = max_ℤ_right e.tat now

tat_at-commit :
    (a : Args) (entry : Option Entry) (now tat : ℤ) (x : ℕ)
    → tat_at entry now ≡ tat
    → tat_at (commit a now entry (write_if_positive a (tat +ℤ pos x) (tat +ℤ pos x -ℤ now))) now
      ≡ tat +ℤ pos x
unfolding commit write_if_positive
tat_at-commit a entry now tat x e = elim (Bool-cases (ltb_ℤ (pos 0) (tat +ℤ pos x -ℤ now))) [
  | inl fresh ↦
      rw fresh
        (unfold tat_at start_tat read in max_ℤ_of_le _ now (omega (int_laws, ltb→lt _ _ fresh)))
  | inr old ↦
      let ge : now ≤ℤ tat = rw e at (tat_at-ge entry now) in
      rw (old, e) (eq_of_parts _ _ (omega (int_laws, ltb_false→le _ _ old, ge)))
]

module _ (a : Args) (entry : Option Entry) where
  -- The two outcomes of a step: the entry moves to the arrival time that the call asks for, or
  -- stays as it is.
  abbrev pub Outcomes : Call → Type 0
  Outcomes c =
      ((tat_at entry c.now +ℤ pos (emission_interval a * c.cost) ≤ℤ c.now +ℤ pos (burst_offset a))
        × ((step a entry c).0 ≡ accepted a c.now c.cost (read false c.now entry))
        × (tat_at (step a entry c).1 c.now
            ≡ tat_at entry c.now +ℤ pos (emission_interval a * c.cost)))
      ⊎ ((c.now +ℤ pos (burst_offset a) <ℤ tat_at entry c.now +ℤ pos (emission_interval a * c.cost))
          × ((step a entry c).0 ≡ rejected a c.now c.cost (read false c.now entry))
          × ((step a entry c).1 ≡ entry))

  kept_call_cases : (c : Call) → Outcomes (kept_call c)
  unfolding step tat_at
  kept_call_cases c = elim (allow_n_cases a c.now c.cost (read false c.now entry)) [
    | inl (h, e) ↦ inl (h, rw e, rw e (tat_at-commit a entry c.now _ _ refl))
    | inr (h, e) ↦ inr (h, rw e, rw e (unfold commit in refl))
  ]

  pub step_cases : (c : Call) → IsKept entry → Outcomes c
  step_cases c k = rw (step-kept_call a c entry k) (kept_call_cases c)
