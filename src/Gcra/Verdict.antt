-- ===== src/Gcra/Verdict.antt =====
-- The two outcomes of allowNLua, and the comparison of times that decides between them.
use traefik_cluster_ratelimi.Common.{
  ℕ, ◌*◌, ◌≡◌, ◌⊎◌, inl, inr, Option, none, Bool-cases, ltb→lt, ltb_false→le,
}
use traefik_cluster_ratelimi.Common.Int.{ℤ, pos, ◌+ℤ◌, ◌-ℤ◌, ◌≤ℤ◌, ◌<ℤ◌, ltb_ℤ, int_laws}
use traefik_cluster_ratelimi.Common.Int.{quot_ℤ}
use traefik_cluster_ratelimi.Gcra.{
  Args, second, emission_interval, burst_offset, Reply, start_tat, write_if_positive, allow_n,
}

-- now - (new_tat - burst_offset), the room that is left
abbrev pub room : Args → ℤ → ℤ → ℤ
room a now new_tat = now -ℤ (new_tat -ℤ pos (burst_offset a))

abbrev pub next_tat : Args → ℤ → ℕ → Option ℤ → ℤ
next_tat a now cost stored = start_tat stored now +ℤ pos (emission_interval a * cost)

abbrev pub accepted : Args → ℤ → ℕ → Option ℤ → Reply
accepted a now cost stored = record {
  allowed = pos cost;
  remaining = quot_ℤ (room a now (next_tat a now cost stored)) (emission_interval a);
  retry_after = pos 0 -ℤ pos (second a);
  reset_after = next_tat a now cost stored -ℤ now;
}

abbrev pub rejected : Args → ℤ → ℕ → Option ℤ → Reply
rejected a now cost stored = record {
  allowed = pos 0;
  remaining = pos 0;
  retry_after = pos 0 -ℤ room a now (next_tat a now cost stored);
  reset_after = start_tat stored now -ℤ now;
}

-- A call is accepted if the new arrival time is within the burst offset, and else rejected.
pub allow_n_cases :
    (a : Args) (now : ℤ) (cost : ℕ) (stored : Option ℤ)
    → ((next_tat a now cost stored ≤ℤ now +ℤ pos (burst_offset a))
        × (allow_n a now cost stored ≡ (
          accepted a now cost stored,
          write_if_positive a (next_tat a now cost stored) (next_tat a now cost stored -ℤ now),
        )))
      ⊎ ((now +ℤ pos (burst_offset a) <ℤ next_tat a now cost stored)
          × (allow_n a now cost stored ≡ (rejected a now cost stored, none)))
unfolding allow_n
allow_n_cases a now cost stored =
    elim (Bool-cases (ltb_ℤ (room a now (next_tat a now cost stored)) (pos 0))) [
      | inl over ↦ inr (omega (int_laws, ltb→lt _ _ over), rw over)
      | inr within ↦ inl (omega (int_laws, ltb_false→le _ _ within), rw within)
    ]
