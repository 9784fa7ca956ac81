-- ===== src/Anomaly/Rules.antt =====
-- app/api/routes/rules.py: the alert rules. The routes' answers are results; an HTTPException is
-- `other_error` with its status and detail. The table is a list; `fits` tells whether the database
-- takes the row at the flush and the commit (the name is unique, no column but two may be null).
pub mod Changes
use python_backend_projects.Base.{
  ℕ, String, Bool, true, false, not, Option, none, some, List, [], ◌∷◌, ◌++◌, Result, return, raise,
  other_error, if◌then◌else◌,
}
use python_backend_projects.Base.Value.{Fields}
use python_backend_projects.Base.Rows.{find_row, update_row, remove_row}
use python_backend_projects.Anomaly.Records.{AlertRule}

-- app/schemas/rule.py
pub record AlertRuleCreate : Type 0 where
  pub name : String
  pub source_id : Option ℕ
  pub metric_name : Option String
  pub detector_type : String
  pub severity_threshold : String
  pub cooldown_seconds : ℕ
  pub notification_channels : List Fields

-- `model_dump(exclude_unset=True)`: `none` where the request leaves the field out. A null for a
-- column that may not be null is refused at the commit, with the whole request: it is a request
-- that does not fit. The cooldown is a natural number; the schema does not exclude a negative one.
pub record AlertRuleUpdate : Type 0 where
  pub source_id : Option (Option ℕ)
  pub metric_name : Option (Option String)
  pub detector_type : Option String
  pub severity_threshold : Option String
  pub enabled : Option Bool
  pub cooldown_seconds : Option ℕ
  pub notification_channels : Option (List Fields)

abbrev pub rule_key : AlertRule → ℕ
rule_key rule = rule.id

abbrev pub new_rule : ℕ → AlertRuleCreate → AlertRule
new_rule pk body = record {
  id = pk;
  name = body.name;
  source_id = body.source_id;
  metric_name = body.metric_name;
  detector_type = body.detector_type;
  severity_threshold = body.severity_threshold;
  enabled = true;
  cooldown_seconds = body.cooldown_seconds;
  notification_channels = body.notification_channels;
}

unfoldable pub create_rule :
    (fits : Bool) → ℕ → AlertRuleCreate → List AlertRule → Result AlertRule × List AlertRule
create_rule fits pk body rules =
    if fits
    then (return (new_rule pk body), rules ++ (new_rule pk body ∷ []))
    else (raise (other_error "400: could not create rule"), rules)

-- the answer for a row that was looked up
abbrev pub or_not_found : Option AlertRule → Result AlertRule
or_not_found none = raise (other_error "404: rule not found")
or_not_found (some rule) = return rule

unfoldable pub get_rule : ℕ → List AlertRule → Result AlertRule
get_rule pk rules = or_not_found (find_row rule_key pk rules)

-- `setattr` of a field that the request has
abbrev pub or_kept : {A : Type 0} → Option A → A → A
or_kept none old = old
or_kept (some new) old = new

unfoldable pub set_fields : AlertRuleUpdate → AlertRule → AlertRule
set_fields body rule = record rule {
  source_id = or_kept body.source_id rule.source_id;
  metric_name = or_kept body.metric_name rule.metric_name;
  detector_type = or_kept body.detector_type rule.detector_type;
  severity_threshold = or_kept body.severity_threshold rule.severity_threshold;
  enabled = or_kept body.enabled rule.enabled;
  cooldown_seconds = or_kept body.cooldown_seconds rule.cooldown_seconds;
  notification_channels = or_kept body.notification_channels rule.notification_channels;
}

-- the assignments to a rule that was found, and the commit, which the database can refuse
abbrev pub change_rule :
    (fits : Bool)
    → ℕ
    → (AlertRule → AlertRule)
    → List AlertRule
    → Option AlertRule
    → Result AlertRule × List AlertRule
change_rule fits pk f rules none = (raise (other_error "404: rule not found"), rules)
change_rule true pk f rules (some rule) = (return (f rule), update_row rule_key pk f rules)
change_rule false pk f rules (some rule) = (raise (other_error "IntegrityError"), rules)

unfoldable pub update_rule :
    (fits : Bool) → ℕ → AlertRuleUpdate → List AlertRule → Result AlertRule × List AlertRule
update_rule fits pk body rules =
    change_rule fits pk (set_fields body) rules (find_row rule_key pk rules)

abbrev pub toggled : AlertRule → AlertRule
toggled rule = record rule { enabled = not rule.enabled }

unfoldable pub toggle_rule : ℕ → List AlertRule → Result AlertRule × List AlertRule
toggle_rule pk rules = change_rule true pk toggled rules (find_row rule_key pk rules)

abbrev pub delete_found : ℕ → List AlertRule → Option AlertRule → Result (Unit {0}) × List AlertRule
delete_found pk rules none = (raise (other_error "404: rule not found"), rules)
delete_found pk rules (some rule) = (return tt, remove_row rule_key pk rules)

unfoldable pub delete_rule : ℕ → List AlertRule → Result (Unit {0}) × List AlertRule
delete_rule pk rules = delete_found pk rules (find_row rule_key pk rules)
