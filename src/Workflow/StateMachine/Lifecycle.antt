-- ===== src/Workflow/StateMachine/Lifecycle.antt =====
-- What the state machine of app/engine/state_machine.py allows, against a diagram of the states.
use python_backend_projects.Base.{
  String, ◌≡◌, refl, ap, ◌≢◌, ◌↔◌, ◌⊎◌, inl, inr, str_dec, ◌<>◌, Bool-cases, value_error, return,
  raise, Exception, arith, true,
}
use python_backend_projects.Workflow.StateMachine.{
  ExecutionState, pending, running, completed, failed, cancelled, timed_out, member_name, value,
  of_value, can_transition_to, transition_to,
}

-- the arrows of the execution's life
pub data Arrow : ExecutionState → ExecutionState → Type 0 where
  start : Arrow pending running
  withdraw : Arrow pending cancelled
  finish : Arrow running completed
  fail : Arrow running failed
  cancel : Arrow running cancelled
  expire : Arrow running timed_out
  retry_failed : Arrow failed pending
  retry_timed_out : Arrow timed_out pending

-- the exception of a request that is not granted
abbrev pub refusal : ExecutionState → ExecutionState → Exception
refusal s t = value_error ("Invalid transition: " <> member_name s <> " -> " <> member_name t)

pub of_value-value : (s : ExecutionState) → of_value (value s) ≡ return s
unfolding of_value str_dec
of_value-value pending = refl
of_value-value _ = refl

of_value_sound : (text : String) (s : ExecutionState) → of_value text ≡ return s → text ≡ value s
unfolding of_value
of_value_sound text s h = ground arith

can_transition_to→Arrow : (s t : ExecutionState) → can_transition_to s t ≡ true → Arrow s t
unfolding can_transition_to
can_transition_to→Arrow pending running h = start
can_transition_to→Arrow pending cancelled h = withdraw
can_transition_to→Arrow running completed h = finish
can_transition_to→Arrow running failed h = fail
can_transition_to→Arrow running cancelled h = cancel
can_transition_to→Arrow running timed_out h = expire
can_transition_to→Arrow failed pending h = retry_failed
can_transition_to→Arrow timed_out pending h = retry_timed_out
can_transition_to→Arrow _ _ h = cc

Arrow→can_transition_to : {s t : ExecutionState} → Arrow s t → can_transition_to s t ≡ true
unfolding can_transition_to
Arrow→can_transition_to start = refl
Arrow→can_transition_to _ = refl

-- A request moves the machine to the target exactly when the diagram has that arrow; without the
-- arrow it raises ValueError and the machine stays where it was.
pub transition_to-Arrow :
    (s t : ExecutionState)
    → ((transition_to t s ≡ (return t, t)) ↔ Arrow s t)
      × (¬ Arrow s t → transition_to t s ≡ (raise (refusal s t), s))
unfolding transition_to
transition_to-Arrow s t = (
  (λ h. can_transition_to→Arrow s t (ground arith), λ a. ground (arith, Arrow→can_transition_to a)),
  λ none. elim (Bool-cases (can_transition_to s t)) [
    | inl yes_arrow ↦ absurd (none (can_transition_to→Arrow s t yes_arrow))
    | inr refused ↦ rw refused
  ],
)

-- the states that a machine can get to by requests that are granted
pub data Reach (s : ExecutionState) : ExecutionState → Type 0 where
  here : Reach s s
  next : {t u : ExecutionState} → Reach s t → (transition_to u t).0 ≡ return u → Reach s u

-- Whatever is requested of a completed or cancelled execution, it stays so.
pub Reach-terminal : (s u : ExecutionState) → (s ≡ completed) ⊎ (s ≡ cancelled) → Reach s u → u ≡ s
unfolding transition_to
Reach-terminal s u end here = refl
Reach-terminal s u end (next {t} r granted) = ground (arith, Reach-terminal s t end r)

from_running : Reach running completed
unfolding transition_to
from_running = next here refl

from_pending : Reach pending completed
unfolding transition_to
from_pending = next (next {t = pending} {u = running} here refl) refl

from_failed : Reach failed completed
unfolding transition_to
from_failed =
    next (next {t = pending} {u = running} (next {t = failed} {u = pending} here refl) refl) refl

from_timed_out : Reach timed_out completed
unfolding transition_to
from_timed_out =
    next (next {t = pending} {u = running} (next {t = timed_out} {u = pending} here refl) refl) refl

-- From every other state an execution can still be brought to completion.
pub Reach-completed : (s : ExecutionState) → s ≢ completed → s ≢ cancelled → Reach s completed
Reach-completed pending a b = from_pending
Reach-completed running a b = from_running
Reach-completed completed a b = absurd (a refl)
Reach-completed failed a b = from_failed
Reach-completed cancelled a b = absurd (b refl)
Reach-completed timed_out a b = from_timed_out

-- `ExecutionState(text)` gives a member exactly at that member's value; every other text raises.
pub of_value_iff :
    (text : String) (s : ExecutionState) → (of_value text ≡ return s) ↔ (text ≡ value s)
unfolding of_value
of_value_iff text s = (of_value_sound text s, λ e. rw e (of_value-value s))

-- The values of the members differ.
pub value-injective : (s t : ExecutionState) → value s ≡ value t → s ≡ t
value-injective s t e = ground (arith, ap of_value e, of_value-value s, of_value-value t)
