-- ===== src/Anomaly/Anomalies/Changes.antt =====
-- What the changes of an anomaly's state do to the table (app/services/anomaly_service.py).

use python_backend_projects.Base.{
  sym, ap, ◌∙◌, ℕ, ◌≡◌, ◌≢◌, refl, String, Option, none, some, List, arith,
}
use python_backend_projects.Base.Rows.{find_row-update_row}
use python_backend_projects.Anomaly.Records.{AnomalyRecord}
use python_backend_projects.Anomaly.Anomalies.{
  record_key, get_anomaly, change_found, acknowledge_anomaly, resolve_anomaly, mark_false_positive,
}

module _ (F : Type 0) where
  -- The operation returns the anomaly as the table holds it afterwards, with that status, and
  -- changes no other; without the anomaly it returns none and changes nothing.
  pub record IsChange (pk : ℕ) (status : String) (rows : List (AnomalyRecord F))
      (result : Option (AnomalyRecord F) × List (AnomalyRecord F)) : Type 0 where
    pub returned : result.0 ≡ get_anomaly F result.1 pk
    pub others : (k : ℕ) → k ≢ pk → get_anomaly F result.1 k ≡ get_anomaly F rows k
    pub missing : get_anomaly F rows pk ≡ none → result ≡ (none, rows)
    pub changed :
        (rec : AnomalyRecord F)
        → get_anomaly F rows pk ≡ some rec
        → (rec' : AnomalyRecord F) × (result.0 ≡ some rec')
          × (rec'.status ≡ status)
          × (rec'.score ≡ rec.score)
          × (rec'.detector_type ≡ rec.detector_type)

  change_found-IsChange :
      (pk : ℕ) (status : String) (f : AnomalyRecord F → AnomalyRecord F)
      (rows : List (AnomalyRecord F)) (found : Option (AnomalyRecord F))
      → get_anomaly F rows pk ≡ found
      → ((rec : AnomalyRecord F)
          → ((f rec).id ≡ rec.id)
            × ((f rec).status ≡ status)
            × ((f rec).score ≡ rec.score)
            × ((f rec).detector_type ≡ rec.detector_type))
      → IsChange pk status rows (change_found F pk f rows found)
  unfolding get_anomaly
  change_found-IsChange pk status f rows none e keeps = record {
    returned = sym e;
    others = λ k ne. refl;
    missing = λ h. refl;
    changed = λ rec h. absurd cc;
  }
  change_found-IsChange pk status f rows (some rec) e keeps =
      let law = λ (k : ℕ). find_row-update_row (record_key F) pk k f rows (λ r. (keeps r).0) in
      record {
        returned = ground (arith, e, law pk);
        others = λ k ne. ground (arith, law k, ne);
        missing = λ h. absurd cc;
        changed = λ old h.
            let same : rec ≡ old = cc in
            (
              f rec,
              refl,
              (keeps rec).1,
              (keeps rec).2 ∙ ap (λ (r : AnomalyRecord F). r.score) same,
              (keeps rec).3 ∙ ap (λ (r : AnomalyRecord F). r.detector_type) same,
            );
      }

  -- Acknowledging, resolving and marking as a false positive each return the anomaly as the table
  -- then holds it, with its new status and the same score and detector, and change no other
  -- anomaly; for an unknown key they return none and change nothing.
  pub changes-IsChange :
      (pk : ℕ) (rows : List (AnomalyRecord F))
      → ((who : String) → IsChange pk "acknowledged" rows (acknowledge_anomaly F pk who rows))
        × ((now : ℕ) → IsChange pk "resolved" rows (resolve_anomaly F pk now rows))
        × IsChange pk "false_positive" rows (mark_false_positive F pk rows)
  unfolding acknowledge_anomaly resolve_anomaly mark_false_positive
  changes-IsChange pk rows = (
    λ who. change_found-IsChange pk "acknowledged" _ rows _ refl (λ r. (refl, refl, refl, refl)),
    λ now. change_found-IsChange pk "resolved" _ rows _ refl (λ r. (refl, refl, refl, refl)),
    change_found-IsChange pk "false_positive" _ rows _ refl (λ r. (refl, refl, refl, refl)),
  )
