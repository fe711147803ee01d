-- ===== src/Tests/Scripts.antt =====
-- Examples of the theorems on the scripts of lua.go: two events in ten seconds.
use traefik_cluster_ratelimi.Common.{
  ◌*◌, ◌+◌, ◌≤◌, ◌≡◌, refl, ◌↔◌, true, false, Option, none, some, List, [], ◌∷◌, map, arith,
}
use traefik_cluster_ratelimi.Common.Int.{pos, ◌+ℤ◌, ◌-ℤ◌, ◌≤ℤ◌, max_ℤ}
use traefik_cluster_ratelimi.Gcra.{
  Args, emission_interval, burst_offset, start_tat, allow_n, allow_at_most,
}
use traefik_cluster_ratelimi.Gcra.AtMost.{allow_at_most-most}
use traefik_cluster_ratelimi.Gcra.Run.{Entry, Call, read, commit, step, run, admitted}
use traefik_cluster_ratelimi.Gcra.Run.Expiry.{kept_call, run-kept_call}
use traefik_cluster_ratelimi.Gcra.Run.Window.{admitted-le-burst}
use traefik_cluster_ratelimi.Gcra.Run.Bucket.{Bucket, draws, run-draws}
use traefik_cluster_ratelimi.Gcra.Run.State.{tat_at}
use traefik_cluster_ratelimi.Gcra.Run.Retry.{retry_after_exact}

abbrev two_in_ten : Args
two_in_ten = record { burst = 2; rate = 1; period = 10 }

abbrev at_start : Call
at_start = record { now = pos 0; cost = 1; gone = false }

abbrev both_at_once : Call
both_at_once = record { now = pos 5; cost = 2; gone = false }

abbrev after_a_minute : Call
after_a_minute = record { now = pos 60000000; cost = 2; gone = true }

abbrev some_calls : List Call
some_calls = at_start ∷ both_at_once ∷ after_a_minute ∷ []

-- A key that three events have been drawn from.
abbrev drawn : Option Entry
drawn = some (record { tat = pos 30000000; deadline = pos 30000000 })

run-kept_call_example :
    run two_in_ten drawn some_calls ≡ run two_in_ten drawn (map kept_call some_calls)
run-kept_call_example = run-kept_call two_in_ten drawn some_calls (omega arith) (omega arith)

admitted-le-burst_example :
    emission_interval two_in_ten * admitted (run two_in_ten drawn some_calls).0
    ≤ emission_interval two_in_ten * 2 + 60000000
unfolding ◌+ℤ◌
admitted-le-burst_example =
    admitted-le-burst two_in_ten (pos 0) 60000000 drawn some_calls (omega arith) (omega arith)
      ((omega arith, omega arith), ((omega arith, omega arith), ((omega arith, omega arith), tt)))

-- A bucket that is full.
abbrev full_bucket : Bucket
full_bucket = record { level = pos 20000000; stamp = pos 0 }

run-draws_example :
    map (λ r. r.allowed) (run two_in_ten none some_calls).0
    ≡ draws two_in_ten full_bucket some_calls
unfolding tat_at start_tat read burst_offset emission_interval ◌+ℤ◌ max_ℤ
run-draws_example =
    run-draws two_in_ten none full_bucket some_calls (omega arith) tt
      (omega arith, (omega arith, (omega arith, tt))) refl

abbrev a_second_later : Call
a_second_later = record { now = pos 20000000; cost = 1; gone = false }

refused : (step two_in_ten drawn at_start).0.allowed ≡ pos 0
unfolding step allow_n read commit ◌-ℤ◌ ◌+ℤ◌ max_ℤ emission_interval burst_offset
refused = refl

retry_after_exact_example :
    ((step two_in_ten (step two_in_ten drawn at_start).1 a_second_later).0.allowed ≡ pos 1)
    ↔ (pos 0 +ℤ (step two_in_ten drawn at_start).0.retry_after ≤ℤ pos 20000000)
retry_after_exact_example =
    retry_after_exact two_in_ten drawn at_start a_second_later (omega arith) (omega arith)
      (omega arith) (omega arith) refl (omega arith) refused

-- Two of the five events that are asked for.
allow_at_most-most_example :
    (pos 2 ≤ℤ (allow_at_most two_in_ten (pos 0) 5 none).0.allowed)
    ↔ ((2 ≤ 5) × ((allow_n two_in_ten (pos 0) 2 none).0.allowed ≡ pos 2))
allow_at_most-most_example =
    allow_at_most-most two_in_ten (pos 0) 5 2 none (omega arith) (omega arith)
