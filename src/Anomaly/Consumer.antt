-- ===== src/Anomaly/Consumer.antt =====
-- app/kafka_client/consumer.py: the metrics of the topic metrics.raw. `_handle` names `select` and
-- `MetricSource`, which its module does not import.
use python_backend_projects.Base.{
  String, Bool, ◌||◌, Option, none, some, List, [], ◌∷◌, Result, return, raise, Exception,
  name_error, ◌==◌, if◌then◌else◌, ◌≡◌, ◌⊎◌, inl, inr, str_dec, arith,
}
use python_backend_projects.Base.Value.{Value, text, number, Fields, get_field}

-- `str(v)`, `float(v)` as a literal, and `get_redis_client()`, which raises before it is
-- initialised
pub record Conversions : Type 0 where
  pub str : Value → String
  pub float : Value → Result String
  pub redis_client : Result (Unit {0})

abbrev pub value_or : Option Value → Value → Value
value_or none default = default
value_or (some v) default = v

module _ (c : Conversions) where
  -- the body of `async with`: the session is opened, and the names of the query are looked up
  abbrev pub after_client : Result (Unit {0}) → Result (Unit {0})
  after_client (raise e) = raise e
  after_client (return _) = raise (name_error "select")

  abbrev pub handle_value : (source_name metric_name : String) → Result String → Result (Unit {0})
  handle_value source_name metric_name (raise e) = raise e
  handle_value source_name metric_name (return value) =
      if source_name == "" || metric_name == "" then return tt else after_client c.redis_client

  unfoldable pub handle : (payload : Fields) → Result (Unit {0})
  handle payload =
      handle_value (c.str (value_or (get_field payload "source_name") (text "")))
        (c.str (value_or (get_field payload "metric_name") (text "")))
        (c.float (value_or (get_field payload "value") (number "0.0")))

  -- `_loop`: the payloads with what the stop event says before each; the exceptions that are logged
  abbrev pub logged : Result (Unit {0}) → List Exception → List Exception
  logged (return _) more = more
  logged (raise e) more = e ∷ more

  unfoldable pub loop : List (Bool × Fields) → List Exception
  loop [] = []
  loop ((stop_is_set, payload) ∷ rest) =
      let more = loop rest in if stop_is_set then [] else logged (handle payload) more

  -- A payload whose handling returns has no source name or no metric name: no metric is handled.
  pub handle-return :
      (payload : Fields)
      → handle payload ≡ return tt
      → (c.str (value_or (get_field payload "source_name") (text "")) ≡ "")
        ⊎ (c.str (value_or (get_field payload "metric_name") (text "")) ≡ "")
  unfolding handle
  handle-return payload h =
      by_value (c.str (value_or (get_field payload "source_name") (text "")))
        (c.str (value_or (get_field payload "metric_name") (text "")))
        (c.float (value_or (get_field payload "value") (number "0.0"))) h
    where
      never : (r : Result (Unit {0})) → after_client r ≡ return tt → ⊥
      never (raise e) p = cc
      never (return _) p = cc

      by_value :
          (source_name metric_name : String) (v : Result String)
          → handle_value source_name metric_name v ≡ return tt
          → (source_name ≡ "") ⊎ (metric_name ≡ "")
      by_value s m (raise e) p = absurd cc
      by_value s m (return value) p = elim (str_dec s "") [
        | yes a ↦ inl a
        | no a ↦ elim (str_dec m "") [
          | yes b ↦ inr b
          | no b ↦ absurd (never c.redis_client (ground (arith, p, a, b)))
        ]
      ]
