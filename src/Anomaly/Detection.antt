-- ===== src/Anomaly/Detection.antt =====
-- app/services/detection_engine.py: `run_detection` from the detectors' results on, with the
-- cooldowns of app/cache/redis_client.py. A cooldown is the time at which its key expires; the
-- clock stands during a run. The publications on Kafka and the web socket change no state, and
-- their exceptions are caught: they are left out.

pub mod Once
pub mod Total
pub mod Severity
use python_backend_projects.Base.{
  ℕ, zero, suc, ◌+◌, String, Bool, true, false, not, ◌&&◌, ◌||◌, Option, none, some, List, [], ◌∷◌,
  ◌++◌, Result, return, raise, Exception, other_error, ◌==◌, if◌then◌else◌, ltb, leb, nat_eq,
}
use python_backend_projects.Base.Value.{Value, text, null, Fields, end, field}
use python_backend_projects.Anomaly.Records.{
  AlertRule, AlertNotification, DetectionResult, AnomalyRecord,
}
use python_backend_projects.Anomaly.Notifications.{Outside, send_notification}

-- `_SEVERITY_RANK.get(s, default)`
unfoldable pub severity_rank : String → (default : ℕ) → ℕ
severity_rank s default =
    if s == "low"
    then 1
    else if s == "medium"
    then 2
    else if s == "high"
    then 3
    else if s == "critical"
    then 4
    else default

unfoldable pub severity_meets_threshold : (severity threshold : String) → Bool
severity_meets_threshold severity threshold =
    leb (severity_rank threshold 99) (severity_rank severity 0)

-- `f"cd:{source.id}:{metric_name}:{det.detector_name}"` and
-- `f"rulecd:{rule.id}:{source.id}:{metric_name}"`
pub data Key : Type 0 where
  cd : (source : ℕ) (metric detector : String) → Key
  rulecd : (rule source : ℕ) (metric : String) → Key

unfoldable pub key_eq : Key → Key → Bool
key_eq (cd s m d) (cd s' m' d') = nat_eq s s' && m == m' && d == d'
key_eq (cd s m d) (rulecd r' s' m') = false
key_eq (rulecd r s m) (cd s' m' d') = false
key_eq (rulecd r s m) (rulecd r' s' m') = nat_eq r r' && nat_eq s s' && m == m'

-- The newest entry of a key counts.
abbrev pub Cooldowns : Type 0
Cooldowns = List (Key × ℕ)

-- `check_cooldown(key)`: the key exists.
unfoldable pub check_cooldown : ℕ → Key → Cooldowns → Bool
check_cooldown now k [] = false
check_cooldown now k ((k', expires) ∷ rest) =
    if key_eq k k' then ltb now expires else check_cooldown now k rest

-- settings.ANOMALY_COOLDOWN_SECONDS, as app/config.py sets it
abbrev pub anomaly_cooldown_seconds : ℕ
anomaly_cooldown_seconds = 300

-- `arm_cooldown(key, ttl)`: Redis refuses a time to live that is not positive.
unfoldable pub arm_cooldown : ℕ → Key → ℕ → Cooldowns → Result Cooldowns
arm_cooldown now k zero cds = raise (other_error "invalid expire time in 'setex' command")
arm_cooldown now k (suc ttl) cds = return ((k, now + suc ttl) ∷ cds)

-- `x is not None and x != y`
abbrev pub differs_id : Option ℕ → ℕ → Bool
differs_id none y = false
differs_id (some x) y = not (nat_eq x y)

abbrev pub differs_text : Option String → String → Bool
differs_text none y = false
differs_text (some x) y = not (x == y)

-- the four guards of the loop over the rules
unfoldable pub rule_applies : (source : ℕ) → (metric detector severity : String) → AlertRule → Bool
unfolding severity_meets_threshold
rule_applies source metric detector severity rule =
    if differs_id rule.source_id source
    then false
    else if differs_text rule.metric_name metric
    then false
    else if not (rule.detector_type == detector)
    then false
    else severity_meets_threshold severity rule.severity_threshold

-- the cooldowns after an attempt to arm one
abbrev pub armed_or : Cooldowns → Result Cooldowns → Cooldowns
armed_or cds (raise e) = cds
armed_or cds (return armed) = armed

-- `matched.append(rule)`, before the matches of the rules after it
abbrev pub append_rule :
    AlertRule → Result (List AlertRule) × Cooldowns → Result (List AlertRule) × Cooldowns
append_rule rule (raise e, cds) = (raise e, cds)
append_rule rule (return matched, cds) = (return (rule ∷ matched), cds)

-- a rule that has matched, by the arming of its cooldown
abbrev pub match_armed :
    AlertRule
    → Cooldowns
    → Result Cooldowns
    → Result (List AlertRule) × Cooldowns
    → Result (List AlertRule) × Cooldowns
match_armed rule cds (raise e) more = (raise e, cds)
match_armed rule cds (return armed) more = append_rule rule more

-- The loop over the rules: the matched ones, and the cooldowns after it. An exception ends it.
unfoldable pub match_rules :
    ℕ
    → (source : ℕ) → (metric detector severity : String) → List AlertRule
    → Cooldowns
    → Result (List AlertRule) × Cooldowns
match_rules now source metric detector severity [] cds = (return [], cds)
match_rules now source metric detector severity (rule ∷ rest) cds =
    let k = rulecd rule.id source metric in
    let arming = arm_cooldown now k rule.cooldown_seconds cds in
    let passed = match_rules now source metric detector severity rest cds in
    let more = match_rules now source metric detector severity rest (armed_or cds arming) in
    if not (rule_applies source metric detector severity rule) || check_cooldown now k cds
    then passed
    else match_armed rule cds arming more

module _ (F : Type 0) where
  -- How a value is put into JSON, and an id into text.
  pub record Encode : Type 0 where
    pub of_float : F → Value
    pub of_id : ℕ → String

  -- the tables, the cooldowns and the next key
  pub record Platform : Type 0 where
    pub records : List (AnomalyRecord F)
    pub notifications : List AlertNotification
    pub cooldowns : Cooldowns
    pub next_id : ℕ

  abbrev pub new_record :
      ℕ → ℕ → (source : ℕ) → (metric : String) → DetectionResult F → AnomalyRecord F
  new_record now id source metric det = record {
    id = id;
    source_id = source;
    metric_name = metric;
    detector_type = det.detector_name;
    severity = det.severity;
    score = det.score;
    expected_value = det.expected_value;
    actual_value = det.actual_value;
    deviation = det.deviation;
    reason = det.reason;
    status = "new";
    acknowledged_by = none;
    resolved_at = none;
    detected_at = now;
  }

  -- `base_payload` of `send_notification`
  unfoldable pub base_payload : Encode → AnomalyRecord F → Fields
  base_payload enc rec = field "anomaly_id" (text (enc.of_id rec.id)) (
      field "source_id" (text (enc.of_id rec.source_id)) (
        field "metric_name" (text rec.metric_name) (
          field "detector_type" (text rec.detector_type) (
            field "severity" (text rec.severity) (
              field "score" (enc.of_float rec.score) (
                field "actual_value" (enc.of_float rec.actual_value) (
                  field "expected_value"
                    (elim rec.expected_value [ none ↦ null | some v ↦ enc.of_float v ]) end)))))))

  -- the loop over the matched rules
  unfoldable pub notify_rules :
      Outside
      → Encode
      → AnomalyRecord F
      → List AlertRule
      → List AlertNotification
      → List AlertNotification
  notify_rules out enc rec [] rows = rows
  notify_rules out enc rec (rule ∷ rest) rows =
      notify_rules out enc rec rest
        (send_notification out rec.id (base_payload enc rec) rule.notification_channels rows)

  -- what follows the loop over the rules
  unfoldable pub store_matched :
      Outside
      → Encode
      → AnomalyRecord F
      → Platform
      → Result (List AlertRule) × Cooldowns
      → Result (Unit {0}) × Platform
  store_matched out enc rec p (raise e, cds) = (raise e, record p { cooldowns = cds })
  store_matched out enc rec p (return matched, cds) = (
    return tt,
    record p { cooldowns = cds; notifications = notify_rules out enc rec matched p.notifications },
  )

  -- An anomaly that is not cooling down: the record is stored, its cooldown armed, the rules
  -- matched.
  unfoldable pub record_anomaly :
      Outside
      → Encode
      → (source : ℕ) → (metric : String) → List AlertRule
      → DetectionResult F
      → Platform
      → Result (Unit {0}) × Platform
  record_anomaly out enc source metric rules det p =
      let rec = new_record out.now p.next_id source metric det in
      let k = cd source metric det.detector_name in
      let armed = (k, out.now + anomaly_cooldown_seconds) ∷ p.cooldowns in
      store_matched out enc rec
        (record p { records = p.records ++ (rec ∷ []); cooldowns = armed; next_id = suc p.next_id })
        (match_rules out.now source metric det.detector_name det.severity rules armed)

  -- one round of the loop over the detectors' results
  unfoldable pub handle_result :
      Outside
      → Encode
      → (source : ℕ) → (metric : String) → List AlertRule
      → DetectionResult F
      → Platform
      → Result (Unit {0}) × Platform
  handle_result out enc source metric rules det p =
      if not det.is_anomaly
        || check_cooldown out.now (cd source metric det.detector_name) p.cooldowns
      then (return tt, p)
      else record_anomaly out enc source metric rules det p

  -- the rounds after one that ended so
  abbrev pub after_result :
      Result (Unit {0}) → Platform → Result (Unit {0}) × Platform → Result (Unit {0}) × Platform
  after_result (raise e) p more = (raise e, p)
  after_result (return _) p more = more

  -- the loop over the detectors' results
  unfoldable pub run_results :
      Outside
      → Encode
      → (source : ℕ) → (metric : String) → List AlertRule
      → List (DetectionResult F)
      → Platform
      → Result (Unit {0}) × Platform
  run_results out enc source metric rules [] p = (return tt, p)
  run_results out enc source metric rules (det ∷ rest) p =
      let (r, p') = handle_result out enc source metric rules det p in
      after_result r p' (run_results out enc source metric rules rest p')

  -- what follows the detectors; one that raises ends the detection
  abbrev pub after_detectors :
      Outside
      → Encode
      → (source : ℕ) → (metric : String) → List AlertRule
      → Result (List (DetectionResult F))
      → Platform
      → Result (Unit {0}) × Platform
  after_detectors out enc source metric rules (raise e) p = (raise e, p)
  after_detectors out enc source metric rules (return results) p =
      run_results out enc source metric rules results p

  -- `run_detection` for a source that was found, with the sliding window of its metric: the last
  -- value is judged against those before it.
  unfoldable pub run_detection :
      Outside
      → Encode
      → (detect_with_all : List F → F → Result (List (DetectionResult F))) → (source : ℕ)
      → (metric : String) → List AlertRule
      → (before : List F) → (current : Option F) → Platform
      → Result (Unit {0}) × Platform
  run_detection out enc detect_with_all source metric rules before none p = (return tt, p)
  run_detection out enc detect_with_all source metric rules before (some current) p =
      after_detectors out enc source metric rules (detect_with_all before current) p
