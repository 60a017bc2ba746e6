-- ===== src/Tests/Queue.antt =====
-- internal/db and the queue of internal/backup/job.go at concrete inputs.
use m365_backup.Base.{
  ◌<◌, ◌≤◌, ◌≡◌, refl, ap, true, false, some, List, [], ◌∷◌, ◌++◌, Text, codes, arith, contains,
  same, same-eq, length, length-append, Bool-cases, inl, inr, any, count_if, keep_if,
}
use m365_backup.Jobs.{
  Job, queued, has_id, active_for, create_job, full, is_active_status, count_active_jobs,
}
use m365_backup.Jobs.Active.{IsTable, create_job-IsTable}
use m365_backup.Tokens.{DeltaToken, delete_delta_tokens}
use m365_backup.Runner.{World}
use m365_backup.Runner.Enqueue.{
  Env, Request, Schedule, done, promote, fan_out, enqueue_params, enqueue_locked,
  is_graph_backup_service,
}
use m365_backup.Runner.Enqueue.Admission.{Granted}
use m365_backup.Runner.Enqueue.Outcome.{enqueue_params-Granted}
use m365_backup.Runner.Enqueue.FanOut.{Supply, enqueue_params-fan_out}
use m365_backup.Runner.Life.{cancel, start_run}
use m365_backup.Runner.Threads.{here, later, enqueue_job, cancel_job, begin_run}
use m365_backup.Runner.Threads.Invariant.{Reach-IsTable}
use m365_backup.Tests.Data.{tenant, exchange, job_1, world_of}

IsTable-none : IsTable []
unfolding count_if
IsTable-none = record { ids = tt; one_active = λ t s. omega arith }

abbrev row_1 : Job
row_1 = record job_1 { created_at = 4 }

IsTable-one : IsTable (row_1 ∷ [])
unfolding create_job any is_active_status
IsTable-one = create_job-IsTable [] job_1 (codes "u") 4 row_1 (row_1 ∷ []) IsTable-none refl

abbrev token_of : Text → DeltaToken
token_of user = record {
  tenant_id = tenant;
  service = exchange;
  user_id = user;
  token = codes "d1";
  updated_at = 1;
}

abbrev tokens : List DeltaToken
tokens = token_of (codes "a") ∷ token_of (codes "b") ∷ []

-- An ID that is longer than all IDs of the table.
abbrev long_id : List Job → Text
long_id [] = b'0' ∷ []
long_id (j ∷ js) = j.id ++ long_id js

long_id-pos : (js : List Job) → 0 < length (long_id js)
long_id-pos [] = omega arith
long_id-pos (j ∷ js) = omega (arith, length-append j.id (long_id js), long_id-pos js)

longer_lem : (a b : Text) → length a < length b → same a b ≡ false
longer_lem a b h = elim (Bool-cases (same a b)) [
  | inl e ↦ absurd (omega (arith, ap length (same-eq a b e)))
  | inr e ↦ e
]

unused_id :
    (js : List Job) (id : Text) → length (long_id js) ≤ length id → any (has_id id) js ≡ false
unfolding any
unused_id [] id h = refl
unused_id (j ∷ js) id h =
    let sum = length-append j.id (long_id js) in
    ground (
      arith,
      longer_lem j.id id (omega (arith, sum, long_id-pos js)),
      unused_id js id (omega (arith, sum)),
    )

abbrev teams_schedule : Schedule
teams_schedule = record {
  id = codes "s1";
  tenant_id = tenant;
  service = codes "teams";
  cron_expr = [];
  enabled = true;
  last_run = 0;
  next_run = 0;
  created_at = 0;
}

-- An environment with an empty store and one schedule.
abbrev env : Env
env = record {
  empty_store_state = λ t s. some (true, true);
  schedules = λ t. some (teams_schedule ∷ []);
  uuid = long_id;
  now = 9;
}

env-Supply : Supply env
env-Supply jobs = unused_id jobs (long_id jobs) (omega arith)

abbrev delta_request : Request
delta_request = record {
  tenant_id = tenant;
  service = exchange;
  schedule_id = [];
  job_type = codes "delta";
  params = [];
}

-- The first request of an empty store becomes a full sync.
abbrev first_row : Job
first_row = record job_1 {
  id = b'0' ∷ [];
  job_type = full;
  status = queued;
  started_at = 0;
  progress_pct = 0;
  created_at = 9;
}

enqueue_params-Granted_example :
    (w' : World) × (extras : List Text) × Granted (world_of []) delta_request w' first_row
    × (promote env delta_request true ≡ done (full, extras))
    × ((enqueue_params env (world_of []) delta_request).0 ≡ fan_out env w' tenant extras)
unfolding enqueue_params enqueue_locked is_graph_backup_service contains same count_active_jobs
    count_if delete_delta_tokens create_job any is_active_status
enqueue_params-Granted_example =
    enqueue_params-Granted env (world_of []) delta_request first_row (env-Supply []) refl

enqueue_params-fan_out_example :
    any (active_for tenant (codes "teams")) (enqueue_params env (world_of []) delta_request).0.jobs
    ≡ true
unfolding enqueue_params enqueue_locked is_graph_backup_service contains same count_active_jobs
    count_if delete_delta_tokens create_job any is_active_status keep_if promote
enqueue_params-fan_out_example =
    enqueue_params-fan_out env (world_of []) delta_request first_row full (codes "teams")
      (codes "teams" ∷ []) env-Supply refl refl refl refl

-- The first request, a cancel of its job, and the start of the run, which comes too late.
Reach-IsTable_example :
    IsTable
      (start_run
        (cancel (enqueue_params env (world_of []) delta_request).0 (b'0' ∷ []) 10).0
        first_row
        11).0.jobs
Reach-IsTable_example =
    Reach-IsTable (world_of [])
      (start_run (cancel (enqueue_params env (world_of []) delta_request).0 (b'0' ∷ []) 10).0
        first_row 11).0
      (later (later (later here (enqueue_job env delta_request)) (cancel_job (b'0' ∷ []) 10))
        (begin_run first_row 11))
      IsTable-none
