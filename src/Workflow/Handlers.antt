-- ===== src/Workflow/Handlers.antt =====
-- app/tasks: the handlers of the tasks. A handler returns a result or raises. What they call is a
-- parameter: `eval` with its names, the built-in conversions, the rendering of a template by
-- a regular expression, and httpx. An expression that gives no JSON value is left out.
pub mod Settled
use python_backend_projects.Base.{
  ℕ, String, ◌<>◌, Bool, true, false, Option, none, some, List, [], ◌∷◌, Result, return, raise,
  Exception, nat_eq, any, ◌==◌, if◌then◌else◌,
}
use python_backend_projects.Base.Value.{
  Value, null, boolean, text, object, Fields, end, field, get_field,
}
use python_backend_projects.Workflow.Tasks.{TaskResult, Output, json}

pub record Response : Type 0 where
  pub status_code : ℕ
  pub text : String
  -- `resp.json()`, if the body is JSON
  pub parsed : Option Value

-- The two ways of `client.request`: with `json=` or with `content=`.
pub data Payload : Type 0 where
  as_json : Value → Payload
  as_content : Value → Payload

pub record Builtins : Type 0 where
  -- `eval(expr, {"__builtins__": {}}, {"input": inp, **_ALLOWED_NAMES})`
  pub eval : (expr : Value) → (input : Fields) → Result Value
  -- `bool(v)`, `str(v)`, `float(v)` as a literal, `dict(v)`, and `set(v)` of numbers
  pub is_true : Value → Bool
  pub str : Value → String
  pub float : Value → Result String
  -- `asyncio.sleep`, which raises for some floats, such as nan
  pub sleep : (seconds : String) → Result (Unit {0})
  pub to_dict : Value → Result Fields
  pub to_codes : Value → Result (List ℕ)
  pub upper : String → String
  pub shown : ℕ → String
  pub first_500 : String → String
  pub str_exception : Exception → String
  pub render : (template : String) → Fields → String
  pub request : (timeout method url : String) → (headers : Fields) → Payload → Result Response
  -- the measured duration
  pub duration_ms : ℕ

abbrev pub get_or : Fields → String → Value → Value
get_or config key default = elim (get_field config key) [ none ↦ default | some v ↦ v ]

-- `input_data or {}`
abbrev pub or_empty : Option Fields → Fields
or_empty none = end
or_empty (some fs) = fs

-- the output of a result; None is none
abbrev pub output_of : Value → Option Output
output_of null = none
output_of v = some (json v)

module _ (b : Builtins) where
  abbrev pub succeeded : Value → TaskResult
  succeeded out = record {
    success = true;
    output = output_of out;
    error = none;
    duration_ms = b.duration_ms;
  }

  abbrev pub failed_with : (error : String) → TaskResult
  failed_with error = record {
    success = false;
    output = none;
    error = some error;
    duration_ms = b.duration_ms;
  }

  -- the output of a condition, with the values of `on_true` and `on_false`
  abbrev pub condition_output : (result : Bool) → (on_true on_false : Value) → Value
  condition_output result on_true on_false = object (
      field "result" (boolean result) (
        field "branch" (text (if result then "true_branch" else "false_branch"))
          (field "next_task_id" (if result then on_true else on_false) end)))

  abbrev pub condition_result : (on_true on_false : Value) → Result Value → TaskResult
  condition_result on_true on_false (raise e) = failed_with (b.str_exception e)
  condition_result on_true on_false (return v) =
      succeeded (condition_output (b.is_true v) on_true on_false)

  unfoldable pub condition_execute : (config : Fields) → Option Fields → Result TaskResult
  condition_execute config input_data = return (
      condition_result (get_or config "on_true" (text "")) (get_or config "on_false" (text ""))
        (b.eval (get_or config "condition" (text "True")) (or_empty input_data)))

  abbrev pub expression_result : Result Value → TaskResult
  expression_result (raise e) = failed_with (b.str_exception e)
  expression_result (return v) = succeeded v

  unfoldable pub python_execute : (config : Fields) → Option Fields → Result TaskResult
  python_execute config input_data =
      return (
        expression_result
          (b.eval (get_or config "expression" (text "input")) (or_empty input_data)))

  abbrev pub add_output : String → Value → Result Fields → Result Fields
  add_output key v (raise e) = raise e
  add_output key v (return out) = return (field key v out)

  -- the loop over the transformations; the first that raises ends it
  abbrev pub after_expression : String → Result Value → Result Fields → Result Fields
  after_expression key (raise e) rest = raise e
  after_expression key (return v) rest = add_output key v rest

  unfoldable pub transform_all : Fields → (input : Fields) → Result Fields
  transform_all end input = return end
  transform_all (field key expr rest) input =
      after_expression key (b.eval expr input) (transform_all rest input)

  abbrev pub transform_result : Result Fields → TaskResult
  transform_result (raise e) = failed_with (b.str_exception e)
  transform_result (return out) = succeeded (object out)

  abbrev pub transform_dict : (input : Fields) → Result Fields → Result TaskResult
  transform_dict input (raise e) = raise e
  transform_dict input (return transformations) =
      return (transform_result (transform_all transformations input))

  -- `dict(v or {})`
  abbrev pub dict_or_empty : Option Value → Result Fields
  dict_or_empty none = return end
  dict_or_empty (some v) = if b.is_true v then b.to_dict v else return end

  unfoldable pub transform_execute : (config : Fields) → Option Fields → Result TaskResult
  transform_execute config input_data =
      transform_dict (or_empty input_data) (dict_or_empty (get_field config "transformations"))

  abbrev pub slept : (seconds : String) → Result (Unit {0}) → Result TaskResult
  slept seconds (raise e) = raise e
  slept seconds (return _) =
      return (succeeded (object (field "delayed_seconds" (Value.number seconds) end)))

  abbrev pub delay_result : Result String → Result TaskResult
  delay_result (raise e) = raise e
  delay_result (return seconds) = slept seconds (b.sleep seconds)

  unfoldable pub delay_execute : (config : Fields) → Option Fields → Result TaskResult
  delay_execute config input_data =
      delay_result (b.float (get_or config "delay_seconds" (Value.number "1")))

  -- `expected_status_codes or [200, 201, 204]`
  abbrev pub codes_or_usual : Option Value → Result (List ℕ)
  codes_or_usual none = return (200 ∷ 201 ∷ 204 ∷ [])
  codes_or_usual (some v) = if b.is_true v then b.to_codes v else return (200 ∷ 201 ∷ 204 ∷ [])

  -- `resp.json()`, or the text
  abbrev pub body_of : Response → Value
  body_of resp = elim resp.parsed [ none ↦ text resp.text | some v ↦ v ]

  abbrev pub http_result : (expected : List ℕ) → Result Response → TaskResult
  http_result expected (raise e) = failed_with (b.str_exception e)
  http_result expected (return resp) =
      if any (λ code. nat_eq code resp.status_code) expected
      then succeeded (body_of resp)
      else failed_with ("HTTP " <> b.shown resp.status_code <> ": " <> b.first_500 resp.text)

  -- a text is rendered, and any other body is sent as it is
  abbrev pub rendered_body : Fields → Option Value → Value
  rendered_body input none = null
  rendered_body input (some (text s)) = text (b.render s input)
  rendered_body input (some v) = v

  -- `json_payload is not None`
  abbrev pub payload_for : Fields → (json_payload body : Option Value) → Payload
  payload_for input none body = as_content (rendered_body input body)
  payload_for input (some null) body = as_content (rendered_body input body)
  payload_for input (some v) body = as_json v

  -- the call of `client.request`
  abbrev pub sent_request : (config input headers : Fields) → (timeout : String) → Result Response
  sent_request config input headers timeout =
      b.request timeout (b.upper (b.str (get_or config "method" (text "GET"))))
        (b.render (b.str (get_or config "url" (text ""))) input) headers
        (payload_for input (get_field config "json") (get_field config "body"))

  -- the conversions before the `try`, in the order of the code
  abbrev pub send_request :
      (config input : Fields) → Result Fields → Result (List ℕ) → Result String → Result TaskResult
  send_request config input (raise e) codes timeout = raise e
  send_request config input (return headers) (raise e) timeout = raise e
  send_request config input (return headers) (return expected) (raise e) = raise e
  send_request config input (return headers) (return expected) (return timeout) =
      return (http_result expected (sent_request config input headers timeout))

  unfoldable pub http_execute : (config : Fields) → Option Fields → Result TaskResult
  http_execute config input_data =
      send_request config (or_empty input_data) (dict_or_empty (get_field config "headers"))
        (codes_or_usual (get_field config "expected_status_codes"))
        (b.float (get_or config "timeout" (Value.number "30")))
