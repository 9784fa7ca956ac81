-- ===== src/Workflow/Examples/Engine.antt =====
-- The state machine and the waits (app/engine/state_machine.py, retry.py) at concrete inputs.
use python_backend_projects.Base.{
  str_dec, ℕ, ◌*◌, ◌^◌, ◌≤◌, ◌<◌, min, ◌≡◌, ◌≢◌, refl, ◌↔◌, true, none, return, raise, arith,
  value_error,
}
use python_backend_projects.Base.Int.{pos}
use python_backend_projects.Workflow.StateMachine.{
  running, completed, failed, cancelled, value, of_value,
}
use python_backend_projects.Workflow.StateMachine.Lifecycle.{of_value_iff}
use python_backend_projects.Workflow.Retry.{
  exponential, fixed, second, overflow_error, get_delay, get_retry_strategy,
}
use python_backend_projects.Workflow.Retry.Delays.{exponential_bounds}

failed-ne-completed : failed ≢ completed
failed-ne-completed e = cc

failed-ne-cancelled : failed ≢ cancelled
failed-ne-cancelled e = cc

of_value_iff_example : (of_value "running" ≡ return running) ↔ ("running" ≡ value running)
of_value_iff_example = of_value_iff "running" running

of_value_unknown : of_value "paused" ≡ raise (value_error "'paused' is not a valid ExecutionState")
unfolding of_value str_dec
of_value_unknown = refl

-- base 2 s, cap 300 s, the fourth attempt, a draw of 2^52
exponential_bounds_example :
    let delay = get_delay (exponential (pos 2) (pos 300) true) (2 ^ 52) 4 in
    (4 ≤ 1024
      → (wait : ℕ) × (delay ≡ return (pos wait))
        × (min (2 * 2 ^ 3) 300 * second ≤ 2 * wait)
        × (2 * wait ≤ 3 * (min (2 * 2 ^ 3) 300 * second)))
    × (1024 < 4 → delay ≡ raise overflow_error)
exponential_bounds_example = exponential_bounds 2 300 (2 ^ 52) 4 (omega arith)

default_strategy : get_retry_strategy none ≡ fixed (pos 5)
unfolding get_retry_strategy
default_strategy = refl
