-- ===== src/Workflow/StateMachine.antt =====
-- app/engine/state_machine.py: the states of an execution and the transitions between them.
pub mod Lifecycle
use python_backend_projects.Base.{
  String, ◌<>◌, Bool, true, false, ◌||◌, List, [], ◌∷◌, Result, return, raise, Action, value_error,
  ◌==◌, if◌then◌else◌,
}
use mathlib.Core.Logic.{ite}

pub data ExecutionState : Type 0 where
  pending running completed failed cancelled timed_out : ExecutionState

-- the enum's values, which the status columns hold
abbrev pub value : ExecutionState → String
value pending = "pending"
value running = "running"
value completed = "completed"
value failed = "failed"
value cancelled = "cancelled"
value timed_out = "timed_out"

-- the names by which `str` prints a member
abbrev pub member_name : ExecutionState → String
member_name pending = "ExecutionState.PENDING"
member_name running = "ExecutionState.RUNNING"
member_name completed = "ExecutionState.COMPLETED"
member_name failed = "ExecutionState.FAILED"
member_name cancelled = "ExecutionState.CANCELLED"
member_name timed_out = "ExecutionState.TIMED_OUT"

-- `ExecutionState(current_state)`: the member of that value, or ValueError
unfoldable pub of_value : String → Result ExecutionState
of_value s =
    if s == "pending"
    then return pending
    else if s == "running"
    then return running
    else if s == "completed"
    then return completed
    else if s == "failed"
    then return failed
    else if s == "cancelled"
    then return cancelled
    else if s == "timed_out"
    then return timed_out
    else raise (value_error ("'" <> s <> "' is not a valid ExecutionState"))

-- VALID_TRANSITIONS
unfoldable pub valid_transitions : ExecutionState → List ExecutionState
valid_transitions pending = running ∷ cancelled ∷ []
valid_transitions running = completed ∷ failed ∷ cancelled ∷ timed_out ∷ []
valid_transitions completed = []
valid_transitions failed = pending ∷ []
valid_transitions cancelled = []
valid_transitions timed_out = pending ∷ []

unfoldable pub state_dec : Discrete ExecutionState
state_dec = hlevel

-- `target in targets`
unfoldable pub contains_state : List ExecutionState → ExecutionState → Bool
unfolding state_dec
contains_state [] target = false
contains_state (s ∷ rest) target = ite (state_dec s target) true false || contains_state rest target

unfoldable pub can_transition_to : ExecutionState → ExecutionState → Bool
unfolding valid_transitions contains_state
can_transition_to state target = contains_state (valid_transitions state) target

-- The machine's one field is its state, so the object is that state.
unfoldable pub transition_to : ExecutionState → Action ExecutionState ExecutionState
unfolding can_transition_to
transition_to target state = if can_transition_to state target then (return target, target) else (
  raise (value_error ("Invalid transition: " <> member_name state <> " -> " <> member_name target)),
  state,
)
