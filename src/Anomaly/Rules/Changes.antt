-- ===== src/Anomaly/Rules/Changes.antt =====
-- What the routes of the alert rules (app/api/routes/rules.py) change.
use python_backend_projects.Base.{
  Bool, true, false, not, ℕ, ◌≡◌, ◌≢◌, Option, none, some, List, [], ◌∷◌, Result, return, raise,
  other_error, ◌⊎◌,
}
use python_backend_projects.Base.Rows.{find_row}
use python_backend_projects.Anomaly.Records.{AlertRule}
use python_backend_projects.Anomaly.Rules.{AlertRuleUpdate, rule_key, get_rule}

-- no key twice
abbrev pub AreKeyed : List AlertRule → Type 0
AreKeyed [] = Unit
AreKeyed (rule ∷ rest) = (find_row rule_key rule.id rest ≡ none) × AreKeyed rest

-- the new value of a field: that of the request, or the old one if the request leaves it out
abbrev pub IsAssigned : {A : Type 0} → Option A → (old new : A) → Type 0
IsAssigned none old new = new ≡ old
IsAssigned (some given) old new = new ≡ given

-- A rule has the fields of a request, and its key and name.
pub record IsUpdated (body : AlertRuleUpdate) (old new : AlertRule) : Type 0 where
  pub id : new.id ≡ old.id
  pub name : new.name ≡ old.name
  pub source_id : IsAssigned body.source_id old.source_id new.source_id
  pub metric_name : IsAssigned body.metric_name old.metric_name new.metric_name
  pub detector_type : IsAssigned body.detector_type old.detector_type new.detector_type
  pub severity_threshold :
      IsAssigned body.severity_threshold old.severity_threshold new.severity_threshold
  pub enabled : IsAssigned body.enabled old.enabled new.enabled
  pub cooldown_seconds : IsAssigned body.cooldown_seconds old.cooldown_seconds new.cooldown_seconds
  pub notification_channels :
      IsAssigned body.notification_channels old.notification_channels new.notification_channels

-- the switch of a rule is turned, and nothing else
abbrev pub IsToggled : (old new : AlertRule) → Type 0
IsToggled old new = new ≡ record old { enabled = not old.enabled }

-- The route answers with the rule as the table holds it afterwards, related to the old rule, or
-- with 404, or with the error of a commit that is refused, and then the table is as it was; every
-- other rule is found as before.
pub record IsRuleChange (fits : Bool) (pk : ℕ) (rules : List AlertRule)
    (Effect : AlertRule → AlertRule → Type 0) (result : Result AlertRule × List AlertRule)
    : Type 0 where
  pub returned : fits ≡ true → result.0 ≡ get_rule pk result.1
  pub refused : fits ≡ false → result.1 ≡ rules
  pub others : (k : ℕ) → k ≢ pk → get_rule k result.1 ≡ get_rule k rules
  pub missing :
      find_row rule_key pk rules ≡ none
      → result ≡ (raise (other_error "404: rule not found"), rules)
  pub changed :
      (rule : AlertRule)
      → fits ≡ true
      → find_row rule_key pk rules ≡ some rule
      → (new : AlertRule) × (result.0 ≡ return new) × Effect rule new

-- a rule is gone, or was not there
abbrev pub IsRemoved : ℕ → List AlertRule → Result (Unit {0}) × List AlertRule → Type 0
IsRemoved pk rules (r, left) =
    (get_rule pk left ≡ raise (other_error "404: rule not found"))
    × ((k : ℕ) → k ≢ pk → get_rule k left ≡ get_rule k rules)
    × (((r ≡ return tt) × ((rule : AlertRule) × (find_row rule_key pk rules ≡ some rule)))
        ⊎ ((r ≡ raise (other_error "404: rule not found")) × (left ≡ rules)))
