-- ===== src/Gcra/Run/Expiry.antt =====
-- The expiry of a Redis key, `EX math.ceil(reset_after)`: it never comes before the key has reset.
use native.Mathlib.Nat.{div-add-mod, mod-lt, mul_comm}
use traefik_cluster_ratelimi.Common.{
  ℕ, ◌+◌, ◌-◌, ◌*◌, ◌/◌, ◌≤◌, ◌<◌, ◌≡◌, refl, inl, inr, Bool, false, Option, none, some, List, [],
  ◌∷◌, map, arith, Bool-cases, ltb→lt,
}
use traefik_cluster_ratelimi.Common.Int.{
  ℤ, pos, negsuc, ◌-ℤ◌, ◌*ℤ◌, ◌≤ℤ◌, ltb_ℤ, max_ℤ, int_laws, pos-*ℤ,
}
use traefik_cluster_ratelimi.Gcra.{Args, second, ceil_seconds, start_tat, write_if_positive}
use traefik_cluster_ratelimi.Gcra.{allow_n}
use traefik_cluster_ratelimi.Gcra.Verdict.{allow_n_cases}
use traefik_cluster_ratelimi.Gcra.Run.{Entry, Call, read, commit, step, run}

-- An entry does not expire before its arrival time has passed.
abbrev pub IsKept : Option Entry → Type 0
IsKept none = Unit {0}
IsKept (some e) = e.tat ≤ℤ e.deadline

mul_ceil : (n s : ℕ) → 0 < s → n ≤ (n + (s - 1)) / s * s
mul_ceil n s h =
    omega
      (arith, div-add-mod (n + (s - 1)) s, mod-lt (n + (s - 1)) h, mul_comm s ((n + (s - 1)) / s))

-- The time to live covers the time until the key has reset.
ceil_seconds-ge :
    (a : Args) (t : ℤ) → 0 < a.rate → pos 0 ≤ℤ t → t ≤ℤ ceil_seconds a t *ℤ pos (second a)
ceil_seconds-ge a (pos n) h k = rw pos-*ℤ (omega (arith, mul_ceil n (second a) (omega arith)))
ceil_seconds-ge a (negsuc n) h k = absurd (omega arith)

-- Where a kept entry is found dropped, its arrival time would have been moved to `now` anyway.
pub start_tat-read :
    (gone : Bool) (now : ℤ) (entry : Option Entry)
    → IsKept entry
    → start_tat (read gone now entry) now ≡ start_tat (read false now entry) now
unfolding start_tat read max_ℤ
start_tat-read gone now none k = refl
start_tat-read gone now (some e) k = ground (arith, Bool-cases gone)

-- What a script writes at `now`, committed at `now`, is kept.
pub commit-IsKept :
    (a : Args) (now new_tat : ℤ) (entry : Option Entry)
    → 0 < a.rate
    → IsKept entry
    → IsKept (commit a now entry (write_if_positive a new_tat (new_tat -ℤ now)))
unfolding commit write_if_positive
commit-IsKept a now new_tat entry h k = elim (Bool-cases (ltb_ℤ (pos 0) (new_tat -ℤ now))) [
  | inl fresh ↦
      rw fresh
        (omega (int_laws, ceil_seconds-ge a (new_tat -ℤ now) h (omega (arith, ltb→lt _ _ fresh))))
  | inr old ↦ rw old k
]

pub step-IsKept :
    (a : Args) (c : Call) (entry : Option Entry)
    → 0 < a.rate
    → IsKept entry
    → IsKept (step a entry c).1
unfolding step commit
step-IsKept a c entry h k = elim (allow_n_cases a c.now c.cost (read c.gone c.now entry)) [
  | inl (_, e) ↦ rw e (commit-IsKept a c.now _ entry h k)
  | inr (_, e) ↦ rw e k
]

abbrev pub kept_call : Call → Call
kept_call c = record c { gone = false }

pub step-kept_call :
    (a : Args) (c : Call) (entry : Option Entry)
    → IsKept entry
    → step a entry c ≡ step a entry (kept_call c)
unfolding step allow_n
step-kept_call a c entry k = rw (start_tat-read c.gone c.now entry k)

-- Expiry is invisible: the replies and the entry left behind are the same whichever reads find
-- the key expired, and so the same as if the key never expired. The rate is positive and the
-- entry at the start does not expire before its arrival time.
pub run-kept_call :
    (a : Args) (entry : Option Entry) (cs : List Call)
    → 0 < a.rate
    → IsKept entry
    → run a entry cs ≡ run a entry (map kept_call cs)
unfolding run
run-kept_call a entry [] h k = refl
run-kept_call a entry (c ∷ cs) h k =
    rw (← step-kept_call a c entry k)
      (rw (← run-kept_call a (step a entry c).1 cs h (step-IsKept a c entry h k)))
