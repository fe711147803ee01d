-- ===== src/Redis/Breaker/Interleaved.antt =====
-- internal/redis/script_breaker.go: calls of Run that overlap. A call takes two steps: it reads the
-- breaker as it comes in, and does the bookkeeping when the script has returned. Between the two,
-- others may take theirs.
use traefik_cluster_ratelimi.Common.{
  ℕ, suc, ◌+◌, ◌*◌, ◌^◌, ◌≤◌, ◌<◌, ◌≡◌, refl, ◌∙◌, inl, inr, List, [], ◌∷◌, if◌then◌else◌, arith,
  All, length, Bool-cases,
}
use traefik_cluster_ratelimi.Common.Int.{ℤ, pos, ◌+ℤ◌, ◌≤ℤ◌, leb_ℤ, wrap64, int_laws}
use traefik_cluster_ratelimi.Common.Bytes.{Bytes}
use traefik_cluster_ratelimi.Common.Result.{Result, ok, err, panic}
use traefik_cluster_ratelimi.Redis.Breaker.{Breaker, attempts, after_error, after_run}
use traefik_cluster_ratelimi.Redis.Breaker.Open.{
  after_error_count, after_run-armed, attempts_of_open, duration_seconds_of_fits,
}

pub data Step (V : Type 0) : Type 0 where
  enters : ℤ → Step V
  leaves : ℤ → Result V → Step V

-- An open breaker, whose counter has room for so many errors.
record IsOpen (until : ℤ) (period room : ℕ) (b : Breaker) : Type 0 where
  count : ℕ
  counts : b.error_count ≡ pos count
  many : 3 ≤ count
  fits : count + room < 2 ^ 63
  lasts : b.reattempt_period ≡ pos period
  closed : until ≤ℤ b.next_attempt

IsOpen-less :
    (until : ℤ) (period room : ℕ) (b : Breaker)
    → IsOpen until period (suc room) b
    → IsOpen until period room b
IsOpen-less until period room b is_open =
    let fits = is_open.fits in
    record {
      count = is_open.count;
      counts = is_open.counts;
      many = is_open.many;
      fits = omega (arith, fits);
      lasts = is_open.lasts;
      closed = is_open.closed;
    }

after_error-period :
    (b : Breaker) (later : ℤ) → (after_error b later).reattempt_period ≡ b.reattempt_period
unfolding after_error
after_error-period b later =
    elim (Bool-cases (leb_ℤ b.breaker_threshold (wrap64 (b.error_count +ℤ pos 1)))) [
      | inl reached ↦ rw reached refl
      | inr below ↦ rw below refl
    ]

after_error-IsOpen :
    (b : Breaker) (armed later : ℤ) (period room : ℕ)
    → period * 1000000000 < 2 ^ 63
    → armed ≤ℤ later
    → IsOpen (armed +ℤ pos (period * 1000000000)) period (suc room) b
    → IsOpen (armed +ℤ pos (period * 1000000000)) period room (after_error b later)
after_error-IsOpen b armed later period room short late is_open =
    let count = is_open.count in
    let many = is_open.many in
    let fits = is_open.fits in
    let closed = is_open.closed in
    rw (after_error_count b later count is_open.counts (omega (arith, fits)))
      (elim (Bool-cases (leb_ℤ b.breaker_threshold (pos (count + 1)))) [
        | inl reached ↦ rw reached (record {
          count = count + 1;
          counts = refl;
          many = omega (arith, many);
          fits = omega (arith, fits);
          lasts = is_open.lasts;
          closed =
              rw (is_open.lasts, duration_seconds_of_fits period short) (omega (int_laws, late));
        })
        | inr below ↦ rw below (record {
          count = count + 1;
          counts = refl;
          many = omega (arith, many);
          fits = omega (arith, fits);
          lasts = is_open.lasts;
          closed = closed;
        })
      ])

module _ {V : Type 0} where
  -- How many of the calls that come in reach the script.
  unfoldable pub admissions : Breaker → List (Step V) → ℕ
  unfolding attempts after_run
  admissions b [] = 0
  admissions b (enters now ∷ steps) = (if attempts b now then 1 else 0) + admissions b steps
  admissions b (leaves later r ∷ steps) = admissions (after_run b later r) steps

  -- From the moment of an error to the end of the period after it: no call comes in later, and those
  -- under way that still return do so with an error or a panic.
  abbrev pub IsWithin : ℤ → ℕ → Step V → Type 0
  IsWithin armed period (enters now) = now ≤ℤ armed +ℤ pos (period * 1000000000)
  IsWithin armed period (leaves later (ok v)) = ⊥
  IsWithin armed period (leaves later (err x)) = armed ≤ℤ later
  IsWithin armed period (leaves later panic) = Unit {0}

  admissions-IsOpen :
      (b : Breaker) (armed : ℤ) (period : ℕ) (steps : List (Step V))
      → period * 1000000000 < 2 ^ 63
      → IsOpen (armed +ℤ pos (period * 1000000000)) period (length steps) b
      → All (IsWithin armed period) steps
      → admissions b steps ≡ 0
  unfolding admissions after_run
  admissions-IsOpen b armed period [] short is_open all = refl
  admissions-IsOpen b armed period (enters now ∷ steps) short is_open (soon, all) =
      let many = is_open.many in
      let closed = is_open.closed in
      let shut =
        attempts_of_open b now (rw is_open.counts (omega (arith, many)))
          (omega (arith, soon, closed)) in
      let none_else =
        admissions-IsOpen b armed period steps short (IsOpen-less _ _ _ b is_open) all in
      rw shut (omega (arith, none_else))
  admissions-IsOpen b armed period (leaves later (err x) ∷ steps) short is_open (late, all) =
      admissions-IsOpen (after_error b later) armed period steps short
        (after_error-IsOpen b armed later period (length steps) short late is_open) all
  admissions-IsOpen b armed period (leaves later panic ∷ steps) short is_open (t, all) =
      admissions-IsOpen b armed period steps short (IsOpen-less _ _ _ b is_open) all
  admissions-IsOpen b armed period (leaves later (ok v) ∷ steps) short is_open (never, all) =
      absurd never

  -- Calls that overlap do not wear the breaker out: once a call has ended in an error that brings the
  -- count to at least three and to the threshold, none of the calls that come in within the
  -- reattempt period reaches the script, however many are still under way and in whatever order they
  -- come in and return, if those that return do so with an error or a panic. The period is not
  -- negative and fits int64 in nanoseconds, and the count has room for the errors to come.
  pub admissions-armed :
      (b : Breaker) (armed : ℤ) (x : Bytes) (n period : ℕ) (steps : List (Step V))
      → b.error_count ≡ pos n
      → 2 ≤ n
      → n + 1 + length steps < 2 ^ 63
      → b.breaker_threshold ≤ℤ pos (n + 1)
      → b.reattempt_period ≡ pos period
      → period * 1000000000 < 2 ^ 63
      → All (IsWithin armed period) steps
      → admissions b (leaves armed (err x) ∷ steps) ≡ 0
  unfolding admissions after_run
  admissions-armed b armed x n period steps count two room reached lasts short all =
      let failure : Result V = err x in
      let (counts, next) =
        after_run-armed b armed failure n count (omega (arith, room)) reached (x, refl) in
      admissions-IsOpen (after_error b armed) armed period steps short
        (record {
          count = n + 1;
          counts = counts;
          many = omega (arith, two);
          fits = room;
          lasts = after_error-period b armed ∙ lasts;
          closed = rw (next, lasts, duration_seconds_of_fits period short) (omega arith);
        })
        all
