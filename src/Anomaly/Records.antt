-- ===== src/Anomaly/Records.antt =====
-- app/models/anomaly.py and notification.py of the anomaly platform, app/detectors/base.py, and the
-- changes of an anomaly's state in app/services/anomaly_service.py. A UUID key and a time are
-- numbers; a measured value is of a type that is a parameter, since nothing here computes with it.
use python_backend_projects.Base.{ℕ, String, Bool, Option, List}
use python_backend_projects.Base.Value.{Fields}

pub record AlertRule : Type 0 where
  pub id : ℕ
  pub name : String
  pub source_id : Option ℕ
  pub metric_name : Option String
  pub detector_type : String
  pub severity_threshold : String
  pub enabled : Bool
  pub cooldown_seconds : ℕ
  pub notification_channels : List Fields

pub record AlertNotification : Type 0 where
  pub anomaly_id : ℕ
  pub channel : String
  pub payload : Fields
  pub status : String
  pub sent_at : Option ℕ
  pub error : Option String

module _ (F : Type 0) where
  pub record DetectionResult : Type 0 where
    pub is_anomaly : Bool
    pub score : F
    pub expected_value : Option F
    pub actual_value : F
    pub deviation : F
    pub detector_name : String
    pub severity : String
    pub reason : String

  pub record AnomalyRecord : Type 0 where
    pub id : ℕ
    pub source_id : ℕ
    pub metric_name : String
    pub detector_type : String
    pub severity : String
    pub score : F
    pub expected_value : Option F
    pub actual_value : F
    pub deviation : F
    -- the reason in `context`
    pub reason : String
    pub status : String
    pub acknowledged_by : Option String
    pub resolved_at : Option ℕ
    pub detected_at : ℕ
