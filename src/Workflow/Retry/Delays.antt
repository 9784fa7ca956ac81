-- ===== src/Workflow/Retry/Delays.antt =====
-- Bounds and growth of the delays of app/engine/retry.py.
use python_backend_projects.Base.{
  ℕ, ◌+◌, ◌-◌, ◌*◌, ◌^◌, ◌≤◌, ◌<◌, min, ◌≡◌, Bool, true, false, refl, ap, leb, return, raise,
  Exception, arith,
}
use python_backend_projects.Base.Int.{ℤ, pos, ◌*ℤ◌, ◌+ℤ◌, min_ℤ}
use python_backend_projects.Workflow.Retry.{
  RetryStrategy, fixed, exponential, linear, second, overflow_error, backoff, get_delay,
}

min_pos : (a b : ℕ) → min_ℤ (pos a) (pos b) ≡ pos (min a b)
min_pos a b = ground arith

times_pos : (a n : ℕ) → pos a *ℤ n ≡ pos (a * n)
unfolding ◌*ℤ◌
times_pos a n = ground arith

plus_pos : (a b : ℕ) → pos a +ℤ pos b ≡ pos (a + b)
unfolding ◌+ℤ◌
plus_pos a b = ground arith

jitter_bounds :
    (m random : ℕ)
    → random < second
    → (m * second ≤ 2 * (m * (2 ^ 52 + random))) × (2 * (m * (2 ^ 52 + random)) ≤ 3 * (m * second))
jitter_bounds m random h =
    let least : m * random ≤ m * second = grind arith in (omega arith, omega (arith, least))

le→leb : (a b : ℕ) → a ≤ b → leb a b ≡ true
le→leb a b h = ground arith

lt→leb : (a b : ℕ) → b < a → leb a b ≡ false
lt→leb a b h = ground arith

backoff_bounds :
    (base cap random attempt : ℕ)
    → random < second
    → (wait : ℕ) × (backoff (pos base) (pos cap) true random attempt ≡ pos wait)
      × (min (base * 2 ^ (attempt - 1)) cap * second ≤ 2 * wait)
      × (2 * wait ≤ 3 * (min (base * 2 ^ (attempt - 1)) cap * second))
unfolding backoff
backoff_bounds base cap random attempt h =
    let m = min (base * 2 ^ (attempt - 1)) cap in
    let (low, high) = jitter_bounds m random h in
    (
      m * (2 ^ 52 + random),
      rw (times_pos base (2 ^ (attempt - 1)), min_pos (base * 2 ^ (attempt - 1)) cap)
          (times_pos m (2 ^ 52 + random)),
      low,
      high,
    )

-- With delays that are not negative, an exponential wait of an attempt up to 1024 is at least half
-- and at most one and a half times the capped backoff min(base * 2^(attempt - 1), max); so the
-- jitter can carry it past the cap. A later attempt raises OverflowError in place of a wait.
pub exponential_bounds :
    (base cap random attempt : ℕ)
    → random < second
    → let delay = get_delay (exponential (pos base) (pos cap) true) random attempt in
      (attempt ≤ 1024
        → (wait : ℕ) × (delay ≡ return (pos wait))
          × (min (base * 2 ^ (attempt - 1)) cap * second ≤ 2 * wait)
          × (2 * wait ≤ 3 * (min (base * 2 ^ (attempt - 1)) cap * second)))
      × (1024 < attempt → delay ≡ raise overflow_error)
unfolding get_delay
exponential_bounds base cap random attempt h = (
  λ le.
      let (wait, value, low, high) = backoff_bounds base cap random attempt h in
      (wait, rw (le→leb attempt 1024 le) (ap return value), low, high),
  λ late. rw (lt→leb attempt 1024 late) refl,
)

exponential_raises :
    (base_delay max_delay : ℤ) (jitter : Bool) (random attempt : ℕ) (e : Exception)
    → get_delay (exponential base_delay max_delay jitter) random attempt ≡ raise e
    → (e ≡ overflow_error) × (1024 < attempt)
unfolding get_delay
exponential_raises base_delay max_delay jitter random attempt e h = ground arith

-- Only an exponential backoff raises, and only from the attempt 1025 on.
pub get_delay_raises :
    (strategy : RetryStrategy) (random attempt : ℕ) (e : Exception)
    → get_delay strategy random attempt ≡ raise e
    → (e ≡ overflow_error)
      × (1024 < attempt)
      × ((base_delay : ℤ) × (max_delay : ℤ) × (jitter : Bool) × (strategy
            ≡ exponential base_delay max_delay jitter))
unfolding get_delay
get_delay_raises (fixed delay) random attempt e h = absurd cc
get_delay_raises (exponential base_delay max_delay jitter) random attempt e h =
    let (same, late) = exponential_raises base_delay max_delay jitter random attempt e h in
    (same, late, (base_delay, max_delay, jitter, refl))
get_delay_raises (linear initial_delay increment max_delay) random attempt e h = absurd cc
