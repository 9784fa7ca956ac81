-- ===== src/Anomaly/Anomalies.antt =====
-- app/services/anomaly_service.py: the changes of an anomaly's state, over the table as a list.
pub mod Changes
use python_backend_projects.Base.{ℕ, String, Option, none, some, List}
use python_backend_projects.Base.Rows.{find_row, update_row}
use python_backend_projects.Anomaly.Records.{AnomalyRecord}

module _ (F : Type 0) where
  abbrev pub record_key : AnomalyRecord F → ℕ
  record_key rec = rec.id

  unfoldable pub get_anomaly : List (AnomalyRecord F) → ℕ → Option (AnomalyRecord F)
  get_anomaly rows pk = find_row record_key pk rows

  -- the assignments to a record that was found
  abbrev pub change_found :
      ℕ
      → (AnomalyRecord F → AnomalyRecord F)
      → List (AnomalyRecord F)
      → Option (AnomalyRecord F)
      → Option (AnomalyRecord F) × List (AnomalyRecord F)
  change_found pk f rows none = (none, rows)
  change_found pk f rows (some rec) = (some (f rec), update_row record_key pk f rows)

  unfoldable pub acknowledge_anomaly :
      ℕ
      → (acknowledged_by : String) → List (AnomalyRecord F)
      → Option (AnomalyRecord F) × List (AnomalyRecord F)
  acknowledge_anomaly pk acknowledged_by rows =
      change_found pk
        (λ rec. record rec { status = "acknowledged"; acknowledged_by = some acknowledged_by }) rows
        (get_anomaly rows pk)

  unfoldable pub resolve_anomaly :
      ℕ → (now : ℕ) → List (AnomalyRecord F) → Option (AnomalyRecord F) × List (AnomalyRecord F)
  resolve_anomaly pk now rows =
      change_found pk (λ rec. record rec { status = "resolved"; resolved_at = some now }) rows
        (get_anomaly rows pk)

  unfoldable pub mark_false_positive :
      ℕ → List (AnomalyRecord F) → Option (AnomalyRecord F) × List (AnomalyRecord F)
  mark_false_positive pk rows =
      change_found pk (λ rec. record rec { status = "false_positive" }) rows (get_anomaly rows pk)
