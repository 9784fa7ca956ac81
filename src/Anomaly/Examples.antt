-- ===== src/Anomaly/Examples.antt =====
-- The theorems about the anomaly platform at concrete inputs. A measured value is a number here.
pub mod Judged
pub mod Stores
pub mod Kept
use python_backend_projects.Base.{
  take, ◌≤◌, ◌*◌, ℕ, ◌≡◌, ◌↔◌, String, true, false, none, some, List, [], ◌∷◌, ◌++◌, return, raise,
  other_error, length, keep, All, arith,
}
use python_backend_projects.Base.Value.{Value, text, number, Fields, end, field}
use python_backend_projects.Anomaly.Records.{AlertRule, AlertNotification, DetectionResult}
use python_backend_projects.Anomaly.Notifications.{Outside, send_notification}
use python_backend_projects.Anomaly.Notifications.Sent.{
  IsSettled, is_notified, send_notification-IsSettled,
}
use python_backend_projects.Anomaly.Detection.{
  Encode, Platform, severity_meets_threshold, run_results,
}
use python_backend_projects.Anomaly.Detection.Severity.{Meets, severity_meets_threshold-Meets}
use python_backend_projects.Anomaly.Detection.Total.{HasCooldown, run_results_twice}
use python_backend_projects.Anomaly.Anomalies.{
  acknowledge_anomaly, resolve_anomaly, mark_false_positive,
}
use python_backend_projects.Anomaly.Anomalies.Changes.{IsChange, changes-IsChange}
use python_backend_projects.Anomaly.Listing.{Filters, passes, list_anomalies}
use python_backend_projects.Anomaly.Listing.Filtered.{
  IsWanted, passes-Decides, pages_to, list_anomalies_lem,
}

abbrev text_of : Value → String
text_of (text s) = s
text_of v = ""

-- texts are in lower case already, and every webhook is down
abbrev outside : Outside
outside = record {
  str = text_of;
  lower = λ s. s;
  is_zero = λ s. false;
  post = λ n url payload. raise (other_error "503");
  str_exception = λ e. "503";
  now = 1000;
}

abbrev encode : Encode ℕ
encode = record { of_float = λ n. number "7"; of_id = λ n. "id" }

abbrev webhook : Fields
webhook = field "type" (text "webhook") (field "url" (text "http://ops") end)

abbrev rule : AlertRule
rule = record {
  id = 1;
  name = "cpu is high";
  source_id = none;
  metric_name = some "cpu";
  detector_type = "zscore";
  severity_threshold = "medium";
  enabled = true;
  cooldown_seconds = 300;
  notification_channels = webhook ∷ [];
}

abbrev spike : DetectionResult ℕ
spike = record {
  is_anomaly = true;
  score = 9;
  expected_value = some 10;
  actual_value = 95;
  deviation = 85;
  detector_name = "zscore";
  severity = "high";
  reason = "z";
}

abbrev start : Platform ℕ
start = record { records = []; notifications = []; cooldowns = []; next_id = 1 }

send_notification-IsSettled_example :
    (new : List AlertNotification) × (send_notification outside 1 end (webhook ∷ []) [] ≡ [] ++ new)
    × (length new ≡ length (keep (is_notified outside) (webhook ∷ [])))
    × All (IsSettled 1) new
send_notification-IsSettled_example = send_notification-IsSettled outside 1 end (webhook ∷ []) []

rule-HasCooldown : All HasCooldown (rule ∷ [])
rule-HasCooldown = (omega arith, tt)

run_results_twice_example :
    let (r, p') = run_results ℕ outside encode 4 "cpu" (rule ∷ []) (spike ∷ []) start in
    (r ≡ return tt)
    × (run_results ℕ outside encode 4 "cpu" (rule ∷ []) (spike ∷ []) p' ≡ (return tt, p'))
run_results_twice_example =
    run_results_twice ℕ outside encode 4 "cpu" (rule ∷ []) rule-HasCooldown (spike ∷ []) start

changes-IsChange_example :
    let rows = (run_results ℕ outside encode 4 "cpu" (rule ∷ []) (spike ∷ []) start).1.records in
    ((who : String) → IsChange ℕ 1 "acknowledged" rows (acknowledge_anomaly ℕ 1 who rows))
    × ((now : ℕ) → IsChange ℕ 1 "resolved" rows (resolve_anomaly ℕ 1 now rows))
    × IsChange ℕ 1 "false_positive" rows (mark_false_positive ℕ 1 rows)
changes-IsChange_example =
    changes-IsChange ℕ 1
      (run_results ℕ outside encode 4 "cpu" (rule ∷ []) (spike ∷ []) start).1.records

abbrev high_only : Filters
high_only = record {
  severity = some "high";
  status = none;
  detector = none;
  start = none;
  stop = none;
}

list_anomalies_lem_example :
    let rows = (run_results ℕ outside encode 4 "cpu" (rule ∷ []) (spike ∷ []) start).1.records in
    let wanted = passes ℕ high_only in
    ((page : ℕ)
      → let (items, total) = list_anomalies ℕ rows rows page 20 high_only in
        All (IsWanted ℕ high_only) items
        × (length items ≤ 20)
        × (total ≡ length (keep wanted rows)))
    × (pages_to ℕ rows rows 2 20 high_only ≡ take (2 * 20) (keep wanted rows))
list_anomalies_lem_example =
    list_anomalies_lem ℕ
      (run_results ℕ outside encode 4 "cpu" (rule ∷ []) (spike ∷ []) start).1.records
      (run_results ℕ outside encode 4 "cpu" (rule ∷ []) (spike ∷ []) start).1.records 2 20 high_only
      (passes ℕ high_only) (passes-Decides ℕ high_only)
