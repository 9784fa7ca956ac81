-- ===== src/Lib.antt =====
-- Verification of the two Python back ends of the repository: the workflow orchestration engine
-- (workflow-orchestration-engine/app) and the anomaly detection platform
-- (anomaly-detection-platform/app).
--
-- Workflow engine. An API stores workflow definitions, whose tasks form a directed acyclic graph, and
-- puts executions on a queue. A worker runs an execution: it walks the graph, runs each ready task
-- with retries, and moves the execution through a state machine. A scheduler triggers executions by
-- cron expressions, under Redis locks.
--   Workflow/StateMachine: app/engine/state_machine.py (ExecutionState, can_transition_to,
--     transition_to); a machine is its state.
--   Workflow/Schemas, Workflow/Models: app/schemas/workflow.py and app/models, as records.
--   Workflow/Retry: app/engine/retry.py (get_delay, get_retry_strategy).
--   Workflow/Graphs: what the code uses of networkx, as an interface with its documented laws;
--     Graphs/Adjacency is a graph library of lists that meets them.
--   Workflow/Dag: app/engine/dag.py, every method of DAG.
--   Workflow/Tasks: app/tasks/__init__.py and base.py, the registry and the results.
--   Workflow/Executor: app/engine/executor.py. State holds what the methods share: the execution
--     as the session holds it, the committed row, the published events, the sleeps, and a count of
--     the questions to the outside (clock, random numbers, other sessions, handlers), which is an
--     environment. Attempts is _execute_task_once and _execute_task_with_retries, Verdicts
--     what they come to, Finish is
--     _complete_execution, _fail_execution and cancel_execution, Run is execute_workflow.
--   Workflow/Scheduler: app/engine/scheduler.py (check_and_trigger), over croniter as a parameter,
--     with acquire_lock and release_lock of app/cache/redis_client.py.
--   Workflow/Services: app/services/execution_service.py, workflow_service.py and
--     schedule_service.py, and the trigger of app/workers/workflow_worker.py, over rows in lists and a
--     queue of messages.
--   Workflow/Routes: app/api/routes/workflows.py, executions.py and schedules.py, with the transaction
--     of get_db (app/models/database.py).
--   Workflow/History: a life of one execution as a sequence of runs, cancellations, failures and
--     retries, with the state machine as its abstract specification.
--   Workflow/Handlers: app/tasks, the five handlers of tasks.
--   Workflow/Sockets: ConnectionManager of app/api/routes/websocket.py.
--   Workflow/Examples: concrete inputs.
--
-- Anomaly platform. Metrics are kept in a sliding window; detectors judge the newest value, and the
-- detection engine stores the anomalies, holds off repeated ones by cooldowns in Redis, and notifies
-- the channels of the rules that match.
--   Anomaly/Records: app/models/anomaly.py and notification.py, app/detectors/base.py; a measured
--     value is of a type that is a parameter.
--   Anomaly/Redis: what the code uses of Redis' sorted sets, as an interface with its documented
--     laws; Redis/Listed is an implementation by lists that meets them. Anomaly/Window is
--     add_to_sliding_window and get_sliding_window of app/cache/redis_client.py over it.
--   Anomaly/Metrics: app/services/metric_service.py. ingest_metric finds or adds the source, stores
--     the point, adds its value to the window, publishes it and runs the detection. Ingested is about
--     what is stored, Queries is query_metrics and get_aggregation.
--   Anomaly/Floats, Anomaly/Detectors: app/detectors, over floats, numpy and scikit-learn as one
--     record of operations; Seasonal is app/detectors/seasonal.py, Registry the registry.
--   Anomaly/Detection: app/services/detection_engine.py (run_detection) from the results of the
--     detectors on, with check_cooldown and arm_cooldown of app/cache/redis_client.py; its lookups are
--     detect_stored of Anomaly/Metrics.
--   Anomaly/Rules: app/api/routes/rules.py, the routes of the alert rules.
--   Anomaly/Sockets: ConnectionManager of app/api/routes/websocket.py.
--   Anomaly/Dashboard: app/api/routes/dashboard.py.
--   Anomaly/Statistics: the statistics of app/services/anomaly_service.py.
--   Anomaly/Routes: app/api/routes/metrics.py and anomalies.py, with the transaction of get_db
--     (app/models/database.py).
--   Anomaly/Consumer: app/kafka_client/consumer.py.
--   Anomaly/Workers: app/workers/cleanup_task.py and detection_task.py.
--   Anomaly/Notifications: app/services/notification_service.py, over httpx as a parameter.
--   Anomaly/Anomalies, Anomaly/Listing: the changes of state and the filtered list in
--     app/services/anomaly_service.py.
--   Anomaly/Examples: concrete inputs.
-- The two back ends share no code.
--
-- Base holds what the parts share: tests, lists, integers, dicts, JSON values, rows by key, Python's
-- exceptions, and actions on a state that may raise and keep what was written.
--
-- Bounds. The loop over the attempts of a task is given max_attempts - attempt + 1 rounds, which are
-- enough since each round but the last raises the attempt by one. The loop of execute_workflow has
-- one round at most, since its first round that finds the execution neither cancelled nor failed
-- raises NameError at `async with lock`.
--
-- Not modelled: what stands behind that line (run_node, and _apply_condition_branch_skips, which is
-- called with one argument too many and raises NameError itself), the rounding of doubles, the expiry
-- of locks, what other coroutines do between the sends of a broadcast of the anomaly platform,
-- the templates of tasks, the dashboard of the workflow engine, the Kafka clients, migrations, scripts
-- and configuration, and what numpy and scikit-learn compute. The detector iqr, which app/detectors
-- imports, is not in the repository.
pub mod Base
pub mod Workflow
pub mod Anomaly
