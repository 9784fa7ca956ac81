-- ===== src/Workflow/Handlers/Settled.antt =====
-- How the handlers of the tasks (app/tasks) end.
use python_backend_projects.Base.{
  ℕ, String, true, false, none, some, List, [], ◌∷◌, Result, return, raise, any, nat_eq, ◌≡◌, ◌⊎◌,
}
use python_backend_projects.Base.Value.{Value, Fields, end, field}
use python_backend_projects.Workflow.Tasks.{TaskResult}
use python_backend_projects.Workflow.Handlers.{Builtins, Response}

-- a success without an error, or a failure with an error and no output
abbrev pub IsSettled : TaskResult → Type 0
IsSettled r =
    ((r.success ≡ true) × (r.error ≡ none))
    ⊎ ((r.success ≡ false) × (r.output ≡ none) × ((e : String) × (r.error ≡ some e)))

abbrev pub Settles : Result TaskResult → Type 0
Settles (return r) = IsSettled r
Settles (raise e) = ⊥

abbrev pub names_of : Fields → List String
names_of end = []
names_of (field k v rest) = k ∷ names_of rest

module _ (b : Builtins) where
  -- the outputs of the transformations have their names
  abbrev pub HaveNames : Fields → Result Fields → Type 0
  HaveNames ts (return out) = names_of out ≡ names_of ts
  HaveNames ts (raise e) = Unit

  -- a response: success exactly if its status is expected
  abbrev pub IsAnswered : List ℕ → Result Response → TaskResult → Type 0
  IsAnswered expected (raise e) r = r.success ≡ false
  IsAnswered expected (return resp) r =
      r.success ≡ any (λ code. nat_eq code resp.status_code) expected
