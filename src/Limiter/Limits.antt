-- ===== src/Limiter/Limits.antt =====
-- rate.go: limits by the second, the minute and the hour, and how a limit is printed. Printing any
-- other period by time.Duration.String is the parameter `duration_string`.
use traefik_cluster_ratelimi.Common.{Bool, ◌&&◌, ◌++◌, if◌then◌else◌, ◌≡◌, refl}
use traefik_cluster_ratelimi.Common.Int.{ℤ, pos, eqb_ℤ}
use traefik_cluster_ratelimi.Common.Bytes.{Bytes, codes}
use traefik_cluster_ratelimi.Common.Decimal.{itoa, format_int}
use traefik_cluster_ratelimi.Limiter.{Limit}

abbrev pub time_second : ℤ
time_second = pos 1000000000

abbrev pub time_minute : ℤ
time_minute = pos 60000000000

abbrev pub time_hour : ℤ
time_hour = pos 3600000000000

abbrev limit_per : ℤ → ℤ → Limit
limit_per period rate = record { rate = rate; burst = rate; period = period }

unfoldable pub per_second : ℤ → Limit
per_second rate = limit_per time_second rate

unfoldable pub per_minute : ℤ → Limit
per_minute rate = limit_per time_minute rate

unfoldable pub per_hour : ℤ → Limit
per_hour rate = limit_per time_hour rate

unfoldable pub is_zero : Limit → Bool
is_zero l = eqb_ℤ l.rate (pos 0) && (eqb_ℤ l.burst (pos 0) && eqb_ℤ l.period (pos 0))

module _ (duration_string : ℤ → Bytes) where
  unfoldable pub fmt_dur : ℤ → Bytes
  fmt_dur d =
      if eqb_ℤ d time_second
      then codes "s"
      else if eqb_ℤ d time_minute
      then codes "m"
      else if eqb_ℤ d time_hour
      then codes "h"
      else duration_string d

  unfoldable pub limit_string : Limit → Bytes
  limit_string l =
      format_int l.rate
      ++ (codes " req/"
          ++ (fmt_dur l.period ++ (codes " (burst " ++ (format_int l.burst ++ codes ")"))))

-- By the minute, a rate is printed with its burst.
limit_string_of_minute :
    limit_string (λ d. codes "") (per_minute (pos 5)) ≡ codes "5 req/m (burst 5)"
unfolding limit_string fmt_dur per_minute format_int itoa
limit_string_of_minute = refl
