-- ===== src/Anomaly/Statistics/Sums.antt =====
-- The sums of the statistics (app/services/anomaly_service.py).
use python_backend_projects.Base.{
  ℕ, ◌≡◌, String, List, length, length-map, map, keep, ◌==◌, nat_eq, ◌∙◌,
}
use python_backend_projects.Anomaly.Records.{AnomalyRecord}
use python_backend_projects.Anomaly.Dashboard.{group_counts, by_hour}
use python_backend_projects.Anomaly.Dashboard.Grouped.{
  total, number_of, total-group_counts, AreOrdered, total-order_groups, IsEarlier, order_by_hour,
  text_groups,
}
use python_backend_projects.Anomaly.Statistics.{
  get_stats, severity_of_record, detector_of_record, status_of_record, day_of_record, is_recent,
}

module _ {F : Type 0} where
  -- The groups by severity, by detector and by status each make up all anomalies, and each status
  -- is counted as often as an anomaly has it. The trend is in the order of its days, and its
  -- numbers make up the anomalies since the day 13 days ago.
  pub get_stats_sums :
      (now : ℕ) (records : List (AnomalyRecord F))
      → let stats = get_stats now records in
        (total stats.by_severity ≡ stats.total)
        × (total stats.by_detector ≡ stats.total)
        × (total stats.by_status ≡ stats.total)
        × ((status : String)
            → number_of ◌==◌ status stats.by_status
              ≡ length (keep (λ x. status == x) (map status_of_record records)))
        × AreOrdered IsEarlier stats.trend
        × (total stats.trend ≡ length (keep (is_recent now) records))
  unfolding get_stats
  get_stats_sums now records =
      let recent = keep (is_recent now) records in
      let days = group_counts nat_eq (map day_of_record recent) in
      (
        total-group_counts ◌==◌ (map severity_of_record records)
            ∙ length-map severity_of_record records,
        total-group_counts ◌==◌ (map detector_of_record records)
            ∙ length-map detector_of_record records,
        total-group_counts ◌==◌ (map status_of_record records)
            ∙ length-map status_of_record records,
        (λ status. text_groups status (map status_of_record records)),
        order_by_hour days,
        total-order_groups by_hour days
            ∙ total-group_counts nat_eq (map day_of_record recent)
            ∙ length-map day_of_record recent,
      )
