-- ===== src/Runner/Enqueue.antt =====
-- internal/backup/job.go: Enqueue, EnqueueParams and enqueueLocked. `enqueueMu` makes a call of
-- EnqueueParams one step.
pub mod Admission
pub mod Outcome
pub mod Table
pub mod FanOut
use m365_backup.Base.{
  ℕ, Bool, true, false, not, ◌&&◌, ◌||◌, Option, none, some, List, [], ◌∷◌, ◌++◌, map, Text, codes,
  same, contains, keep_if, ltb, if◌then◌else◌,
}
use m365_backup.Clock.{Time}
use m365_backup.Jobs.{
  Job, queued, DbError, ok, err, unique_violation, no_rows, create_job, count_active_jobs,
  count_active_full_jobs, full,
}
use m365_backup.Tokens.{DeltaToken, delete_delta_tokens}
use m365_backup.Runner.{World}

abbrev pub export_type : Text
export_type = codes "export"

-- catalog.GraphBackupServices.
abbrev pub graph_backup_services : List Text
graph_backup_services =
    codes "exchange" ∷ codes "onedrive" ∷ codes "teams" ∷ codes "sharepoint" ∷ []

unfoldable pub is_graph_backup_service : Text → Bool
is_graph_backup_service service = contains graph_backup_services service

pub record Schedule : Type 0 where
  pub id : Text
  pub tenant_id : Text
  pub service : Text
  pub cron_expr : Text
  pub enabled : Bool
  pub last_run : Time
  pub next_run : Time
  pub created_at : Time

-- `ErrTenantBusy`, an error of the store's survey, one of the database.
pub data EnqueueError : Type 0 where
  tenant_busy store_error db_error : EnqueueError

pub data Enqueued (A : Type 0) : Type 0 where
  done : A → Enqueued A
  refused : EnqueueError → Enqueued A

-- What a call of Enqueue reads besides the state: emptyStoreState with its error as `none`
-- (the service's store, the tenant's store), the schedules, the next UUID and the time.
pub record Env : Type 0 where
  pub empty_store_state : Text → Text → Option (Bool × Bool)
  pub schedules : Text → Option (List Schedule)
  pub uuid : List Job → Text
  pub now : Time

pub record Request : Type 0 where
  pub tenant_id : Text
  pub service : Text
  pub schedule_id : Text
  pub job_type : Text
  pub params : Text

abbrev pub is_extra : Text → Schedule → Bool
is_extra except s =
    not (not s.enabled || same s.service except || not (is_graph_backup_service s.service))

abbrev pub service_of : Schedule → Text
service_of s = s.service

-- enabledGraphServices.
unfoldable pub enabled_graph_services : Env → Text → Text → Enqueued (List Text)
enabled_graph_services e tenant except = elim (e.schedules tenant) [
  | none ↦ refused db_error
  | some list ↦ done (map service_of (keep_if (is_extra except) list))
]

-- The first part of enqueueLocked: the type that the job gets, and the services to sync too.
unfoldable pub promote : Env → Request → Bool → Enqueued (Text × List Text)
unfolding enabled_graph_services
promote e q promote_empty =
    if promote_empty && is_graph_backup_service q.service && not (same q.job_type export_type)
    then elim (e.empty_store_state q.tenant_id q.service) [
      | none ↦ refused store_error
      | some (svc_empty, tenant_empty) ↦
          let job_type = if not (same q.job_type full) && svc_empty then full else q.job_type in
          if tenant_empty
          then elim (enabled_graph_services e q.tenant_id q.service) [
            | refused x ↦ refused x
            | done extras ↦ done (job_type, extras)
          ]
          else done (job_type, [])
    ]
    else done (q.job_type, [])

-- The job that a request becomes.
unfoldable pub job_of : Request → Text → Job
job_of q job_type = record {
  id = [];
  tenant_id = q.tenant_id;
  schedule_id = q.schedule_id;
  service = q.service;
  job_type = job_type;
  status = queued;
  started_at = 0;
  finished_at = 0;
  items_new = 0;
  items_total = 0;
  bytes_transferred = 0;
  error_message = [];
  snapshot_id = [];
  progress_pct = 0;
  progress_message = [];
  params = q.params;
  created_at = 0;
}

-- The last part: the INSERT, and the goroutine that runs the job.
unfoldable pub insert_job : Env → World → Job → World × Enqueued Job
insert_job e w j = elim (create_job w.jobs j (e.uuid w.jobs) e.now) [
  | err unique_violation ↦ (w, refused tenant_busy)
  | err no_rows ↦ (w, refused db_error)
  | ok (row, jobs) ↦ (record w { jobs = jobs; spawned = w.spawned ++ row.id ∷ [] }, done row)
]

-- The second part: the checks for active jobs, and the delta tokens of a full sync.
unfoldable pub admit : Env → World → Request → Text → World × Enqueued Job
unfolding insert_job job_of
admit e w q job_type =
    if ltb 0 (count_active_jobs w.jobs q.tenant_id q.service)
    then (w, refused tenant_busy)
    else if not (same job_type full) && ltb 0 (count_active_full_jobs w.jobs q.tenant_id)
    then (w, refused tenant_busy)
    else if same job_type full
    then elim (delete_delta_tokens w.tokens q.tenant_id q.service) [
      | none ↦ (w, refused db_error)
      | some tokens ↦ insert_job e (record w { tokens = tokens }) (job_of q job_type)
    ]
    else insert_job e w (job_of q job_type)

unfoldable pub with_extras : List Text → World × Enqueued Job → World × Enqueued (Job × List Text)
with_extras extras (w, done job) = (w, done (job, extras))
with_extras extras (w, refused x) = (w, refused x)

-- enqueueLocked.
unfoldable pub enqueue_locked : Env → World → Request → Bool → World × Enqueued (Job × List Text)
unfolding promote admit with_extras
enqueue_locked e w q promote_empty = elim (promote e q promote_empty) [
  | refused x ↦ (w, refused x)
  | done (job_type, extras) ↦ with_extras extras (admit e w q job_type)
]

-- The request of the fan-out for one service of an empty store.
abbrev pub full_request : Text → Text → Request
full_request tenant service = record {
  tenant_id = tenant;
  service = service;
  schedule_id = [];
  job_type = full;
  params = [];
}

-- The loop over the extra services: their errors are logged only.
unfoldable pub fan_out : Env → World → Text → List Text → World
fan_out e w tenant [] = w
fan_out e w tenant (svc ∷ svcs) =
    fan_out e (enqueue_locked e w (full_request tenant svc) false).0 tenant svcs

unfoldable pub finish_enqueue :
    Env → Text → World × Enqueued (Job × List Text) → World × Enqueued Job
finish_enqueue e tenant (w, done (job, extras)) = (fan_out e w tenant extras, done job)
finish_enqueue e tenant (w, refused x) = (w, refused x)

-- EnqueueParams, as one step: no other goroutine writes the tables between the checks and the
-- INSERT. runJob and other processes do not hold enqueueMu; for their writes in between,
-- Runner/Threads has the INSERT alone.
unfoldable pub enqueue_params : Env → World → Request → World × Enqueued Job
unfolding finish_enqueue
enqueue_params e w q = finish_enqueue e q.tenant_id (enqueue_locked e w q true)
