-- ===== src/Workflow/Examples/Handled.antt =====
-- The theorems about the handlers of the tasks at concrete inputs.
use python_backend_projects.Base.{
  String, Bool, true, false, not, none, [], ◌∷◌, Result, return, raise, type_error, ◌==◌,
}
use python_backend_projects.Base.Value.{Value, null, boolean, text, object, Fields, end, field}
use python_backend_projects.Workflow.Handlers.{Builtins}

abbrev is_true : Value → Bool
is_true null = false
is_true (boolean x) = x
is_true (text s) = not (s == "")
is_true v = true

abbrev str : Value → String
str (text s) = s
str v = "value"

abbrev to_dict : Value → Result Fields
to_dict (object fs) = return fs
to_dict v = raise (type_error "not a dict")

-- an expression is its own value, and every host answers 503
abbrev builtins : Builtins
builtins = record {
  eval = λ expr input. return expr;
  is_true = is_true;
  str = str;
  float = λ v. return "1";
  sleep = λ seconds. return tt;
  to_dict = to_dict;
  to_codes = λ v. return (200 ∷ []);
  upper = λ s. s;
  shown = λ n. "503";
  first_500 = λ s. s;
  str_exception = λ e. "error";
  render = λ template input. template;
  request = λ timeout method url headers payload.
      return record { status_code = 503; text = "busy"; parsed = none };
  duration_ms = 1;
}

abbrev branching : Fields
branching =
    field "condition" (text "input") (field "on_true" (text "a") (field "on_false" (text "b") end))
