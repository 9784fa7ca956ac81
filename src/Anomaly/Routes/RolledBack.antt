-- ===== src/Anomaly/Routes/RolledBack.antt =====
-- What a failed request leaves behind: app/api/routes/metrics.py over
-- app/services/metric_service.py and the window of app/cache/redis_client.py.
use python_backend_projects.Base.{ℕ, Result, return, raise, ◌≡◌, refl}
use python_backend_projects.Anomaly.Redis.{SortedSets}
use python_backend_projects.Anomaly.Window.{Member}
use python_backend_projects.Anomaly.Metrics.{
  MetricSource, MetricDataPoint, MetricIngest, or_now, new_point, Metrics, Setup, ingest_metric,
}
use python_backend_projects.Anomaly.Metrics.Stored.{names, AreDistinct}
use python_backend_projects.Anomaly.Metrics.Ingested.{
  AreWindowsWith, IsIngested, ingest_metric-IsIngested,
}
use python_backend_projects.Anomaly.Routes.{request, ingest_single}

module _ {F : Type 0} (zs : SortedSets (Member F)) where
  -- the tables after a failed request, and the windows
  pub record IsHalfDone (now : ℕ) (data_in : MetricIngest F) (st st' : Metrics zs) : Type 0 where
    pub sources : st'.sources ≡ st.sources
    pub points : st'.points ≡ st.points
    pub records : st'.platform.records ≡ st.platform.records
    pub notifications : st'.platform.notifications ≡ st.platform.notifications
    pub src : MetricSource
    pub named : src.name ≡ data_in.source_name
    pub id : ℕ
    pub point : MetricDataPoint F
    pub is_point : point ≡ new_point zs id src (or_now data_in.timestamp now) data_in
    pub windows : AreWindowsWith zs point id st.windows st'.windows

  -- how the request ends
  abbrev pub EndsAs :
      (now : ℕ) → MetricIngest F → Metrics zs → Result (MetricDataPoint F) × Metrics zs → Type 0
  EndsAs now data_in st (return p, st') = IsIngested zs now data_in st st' (return p)
  EndsAs now data_in st (raise e, st') = IsHalfDone now data_in st st'

  -- A request that ingests a metric and is answered has stored it, as an ingestion does. One that
  -- fails, because the publication or the detection raises, leaves no source, no point, no anomaly
  -- and no notification; but the window of its source and metric in Redis has become
  -- what adding its value at its time, or the time of the clock, leaves of it, and no other window
  -- changes. No name of a source stands twice before.
  pub ingest_single-EndsAs :
      (set_up : Setup F) (data_in : MetricIngest F) (st : Metrics zs)
      → AreDistinct (names st.sources)
      → EndsAs set_up.out.now data_in st (ingest_single zs set_up data_in st)
  unfolding ingest_single
  ingest_single-EndsAs set_up data_in st h =
      end (ingest_metric zs set_up data_in st) (ingest_metric-IsIngested zs set_up data_in st h)
    where
      end :
          (d : Result (MetricDataPoint F) × Metrics zs)
          → IsIngested zs set_up.out.now data_in st d.1 d.0
          → EndsAs set_up.out.now data_in st (request zs st d)
      end (return p, st') done = done
      end (raise e, st') done = record {
        sources = refl;
        points = refl;
        records = refl;
        notifications = refl;
        src = done.src;
        named = done.source.0;
        id = done.id;
        point = done.point;
        is_point = done.is_point;
        windows = done.windows;
      }
