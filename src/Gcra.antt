-- ===== src/Gcra.antt =====
-- lua.go: the two Lua scripts that Redis runs, over exact arithmetic. One unit of time is
-- 1 / (10^6 * rate) seconds, in which every quantity of the scripts is an integer.
pub mod Verdict
pub mod Run
pub mod AtMost
use traefik_cluster_ratelimi.Common.{
  ℕ, suc, ◌+◌, ◌-◌, ◌*◌, ◌/◌, ◌≤◌, ◌<◌, Bool, true, false, Option, none, some, if◌then◌else◌, leb,
  ltb,
}
use traefik_cluster_ratelimi.Common.Int.{
  ℤ, pos, negsuc, pos_part, neg_part, ◌+ℤ◌, ◌-ℤ◌, ltb_ℤ, leb_ℤ, max_ℤ, quot_ℤ,
}

-- ARGV[1], ARGV[2], ARGV[3]; the cost is an argument of its own.
pub record Args : Type 0 where
  pub burst : ℕ
  pub rate : ℕ
  pub period : ℕ

abbrev pub jan_1_2024 : ℕ
jan_1_2024 = 1704085200

-- The units in a second.
abbrev pub second : Args → ℕ
second a = 1000000 * a.rate

-- period / rate seconds
unfoldable pub emission_interval : Args → ℕ
emission_interval a = a.period * 1000000

unfoldable pub burst_offset : Args → ℕ
burst_offset a = emission_interval a * a.burst

-- The answer to TIME, seconds and microseconds, relative to the script's epoch.
unfoldable pub clock : Args → ℕ → ℕ → ℤ
clock a sec usec = pos (sec * second a + usec * a.rate) -ℤ pos (jan_1_2024 * second a)

-- `math.ceil` of a time, in seconds.
abbrev pub ceil_seconds : Args → ℤ → ℤ
ceil_seconds a (pos n) = pos ((n + (second a - 1)) / second a)
ceil_seconds a (negsuc n) = pos 0 -ℤ pos (suc n / second a)

-- The four elements of the array that a script returns; the times are in units, and
-- `allowed` and `remaining` are Lua numbers that Redis has cut towards zero, to an integer.
pub record Reply : Type 0 where
  pub allowed : ℤ
  pub remaining : ℤ
  pub retry_after : ℤ
  pub reset_after : ℤ

-- SET key value EX seconds
pub record Write : Type 0 where
  pub tat : ℤ
  pub ttl : ℤ

-- `if not tat then tat = now`, and `tat = math.max(tat, now)`
unfoldable pub start_tat : Option ℤ → ℤ → ℤ
start_tat none now = max_ℤ now now
start_tat (some tat) now = max_ℤ tat now

-- `if reset_after > 0 then SET`
unfoldable pub write_if_positive : Args → ℤ → ℤ → Option Write
write_if_positive a new_tat reset_after =
    if ltb_ℤ (pos 0) reset_after
    then some (record { tat = new_tat; ttl = ceil_seconds a reset_after })
    else none

unfoldable pub allow_n : Args → ℤ → ℕ → Option ℤ → Reply × Option Write
unfolding start_tat write_if_positive
allow_n a now cost stored =
    let tat = start_tat stored now in
    let new_tat = tat +ℤ pos (emission_interval a * cost) in
    let allow_at = new_tat -ℤ pos (burst_offset a) in
    let diff = now -ℤ allow_at in
    let reset_after = new_tat -ℤ now in
    if ltb_ℤ diff (pos 0)
    then (
      record {
        allowed = pos 0;
        remaining = pos 0;
        retry_after = pos 0 -ℤ diff;
        reset_after = tat -ℤ now;
      },
      none,
    )
    else (
      record {
        allowed = pos cost;
        remaining = quot_ℤ diff (emission_interval a);
        retry_after = pos 0 -ℤ pos (second a);
        reset_after = reset_after;
      },
      write_if_positive a new_tat reset_after,
    )

-- `remaining` is kept as `diff`, a number of units, until it is returned; a cost below the
-- asked one is the fraction `diff / emission_interval`, whose increment is `diff` itself.
unfoldable pub allow_at_most : Args → ℤ → ℕ → Option ℤ → Reply × Option Write
unfolding start_tat write_if_positive
allow_at_most a now cost stored =
    let tat = start_tat stored now in
    let diff = now -ℤ (tat -ℤ pos (burst_offset a)) in
    let asked = pos (emission_interval a * cost) in
    if ltb_ℤ diff (pos (emission_interval a))
    then (
      record {
        allowed = pos 0;
        remaining = pos 0;
        retry_after = pos (emission_interval a) -ℤ diff;
        reset_after = tat -ℤ now;
      },
      none,
    )
    else (let increment = if ltb_ℤ diff asked then diff else asked in
        let left = if ltb_ℤ diff asked then pos 0 else diff -ℤ asked in
        let new_tat = tat +ℤ increment in
        let reset_after = new_tat -ℤ now in
        (
          record {
            allowed = quot_ℤ increment (emission_interval a);
            remaining = quot_ℤ left (emission_interval a);
            retry_after = pos 0 -ℤ pos (second a);
            reset_after = reset_after;
          },
          write_if_positive a new_tat reset_after,
        ))
