-- ===== src/Workflow/Retry.antt =====
-- app/engine/retry.py: the waits between the attempts of a task. A delay is a whole number of
-- seconds in the configuration; the result is counted in units of 2^-53 seconds, in which
-- `random.random()` is a whole number below 2^53. The arithmetic is exact: the rounding of doubles
-- is not modelled, and the configured seconds are in their range. An attempt counts from 1.
pub mod Delays
use python_backend_projects.Base.{
  ℕ, ◌+◌, ◌-◌, ◌^◌, String, Bool, true, false, Option, none, some, ◌==◌, if◌then◌else◌, leb, Result,
  return, raise, Exception, other_error,
}
use python_backend_projects.Base.Int.{ℤ, pos, ◌+ℤ◌, ◌*ℤ◌, min_ℤ}
use python_backend_projects.Workflow.Schemas.{RetryConfig}

pub data RetryStrategy : Type 0 where
  fixed : (delay : ℤ) → RetryStrategy
  exponential : (base_delay max_delay : ℤ) (jitter : Bool) → RetryStrategy
  linear : (initial_delay increment max_delay : ℤ) → RetryStrategy

-- one second
abbrev pub second : ℕ
second = 2 ^ 53

-- OverflowError: the product of a float and an integer from 2 ^ 1024 on
abbrev pub overflow_error : Exception
overflow_error = other_error "OverflowError: int too large to convert to float"

-- the exponential wait, once the power is a float
unfoldable pub backoff : (base_delay max_delay : ℤ) (jitter : Bool) → (random attempt : ℕ) → ℤ
unfolding ◌*ℤ◌
backoff base_delay max_delay jitter random attempt =
    let delay = min_ℤ (base_delay *ℤ 2 ^ (attempt - 1)) max_delay in
    if jitter then delay *ℤ (2 ^ 52 + random) else delay *ℤ second

-- `get_delay(attempt)`, where `random` is what `random.random()` draws.
unfoldable pub get_delay : RetryStrategy → (random attempt : ℕ) → Result ℤ
unfolding ◌+ℤ◌ ◌*ℤ◌ backoff
get_delay (fixed delay) random attempt = return (delay *ℤ second)
get_delay (exponential base_delay max_delay jitter) random attempt =
    if leb attempt 1024
    then return (backoff base_delay max_delay jitter random attempt)
    else raise overflow_error
get_delay (linear initial_delay increment max_delay) random attempt =
    return (min_ℤ (initial_delay +ℤ increment *ℤ (attempt - 1)) max_delay *ℤ second)

-- the dict that a strategy is chosen by; a key may be missing
pub record RetryDict : Type 0 where
  pub strategy : Option String
  pub delay_seconds : Option ℤ
  pub max_delay_seconds : Option ℤ

-- `retry.model_dump()`
abbrev pub dump : RetryConfig → RetryDict
dump c = record {
  strategy = some c.strategy;
  delay_seconds = some c.delay_seconds;
  max_delay_seconds = some c.max_delay_seconds;
}

abbrev or_default {ℓ} : {A : Type ℓ} → Option A → A → A
or_default none d = d
or_default (some a) d = a

-- `none` is None or the empty dict.
unfoldable pub get_retry_strategy : Option RetryDict → RetryStrategy
get_retry_strategy none = fixed (pos 5)
get_retry_strategy (some config) =
    let strategy = or_default config.strategy "fixed" in
    if strategy == "exponential"
    then exponential (or_default config.delay_seconds (pos 2))
        (or_default config.max_delay_seconds (pos 300)) true
    else if strategy == "linear"
    then linear (or_default config.delay_seconds (pos 5)) (or_default config.delay_seconds (pos 5))
        (or_default config.max_delay_seconds (pos 300))
    else fixed (or_default config.delay_seconds (pos 5))
