-- ===== src/Jobs.antt =====
-- internal/db/job.go: the jobs table. The statuses are the six that the code writes.
-- The primary key on `id` and the partial unique index `uq_jobs_one_active` on (tenant_id,
-- service) are those of internal/db/migrations; failures of the database itself are not modelled.
pub mod Keys
pub mod Active
use m365_backup.Base.{
  ℕ, ◌+◌, Bool, true, false, not, ◌&&◌, ◌||◌, Option, none, some, List, [], ◌∷◌, ◌++◌, map, Text,
  codes, is_empty, same, any, count_if, keep_if, find_if, if◌then◌else◌,
}
use m365_backup.Clock.{Time}

pub data Status : Type 0 where
  queued running success warning error cancelled : Status

unfoldable pub status_eq : Status → Status → Bool
status_eq queued queued = true
status_eq running running = true
status_eq success success = true
status_eq warning warning = true
status_eq error error = true
status_eq cancelled cancelled = true
status_eq _ _ = false

pub record Job : Type 0 where
  pub id : Text
  pub tenant_id : Text
  pub schedule_id : Text
  pub service : Text
  pub job_type : Text
  pub status : Status
  pub started_at : Time
  pub finished_at : Time
  pub items_new : ℕ
  pub items_total : ℕ
  pub bytes_transferred : ℕ
  pub error_message : Text
  pub snapshot_id : Text
  pub progress_pct : ℕ
  pub progress_message : Text
  pub params : Text
  pub created_at : Time

pub data DbError : Type 0 where
  no_rows unique_violation : DbError

pub data DbResult (A : Type 0) : Type 0 where
  ok : A → DbResult A
  err : DbError → DbResult A

-- `status IN ('queued', 'running')`
unfoldable pub is_active_status : Status → Bool
is_active_status queued = true
is_active_status running = true
is_active_status success = false
is_active_status warning = false
is_active_status error = false
is_active_status cancelled = false

abbrev pub is_active : Job → Bool
is_active j = is_active_status j.status

abbrev pub has_id : Text → Job → Bool
has_id id j = same j.id id

-- The rows that the unique index counts for one tenant and service.
abbrev pub active_for : Text → Text → Job → Bool
active_for tenant service j = is_active j && same j.tenant_id tenant && same j.service service

-- GetJob.
unfoldable pub get_job : List Job → Text → DbResult Job
get_job jobs id = elim (find_if (has_id id) jobs) [ none ↦ err no_rows | some j ↦ ok j ]

-- CreateJob, with the ID that `uuid.NewString` would give and the time. An INSERT fails on a
-- primary key in use and on a second active row for the tenant and service.
unfoldable pub create_job : List Job → Job → Text → Time → DbResult (Job × List Job)
create_job jobs j uuid now =
    let row = record j { id = if is_empty j.id then uuid else j.id; created_at = now } in
    if any (has_id row.id) jobs
      || (is_active row && any (active_for row.tenant_id row.service) jobs)
    then err unique_violation
    else ok (row, jobs ++ row ∷ [])

-- The columns that UpdateJob sets.
unfoldable pub update_row : Job → Job → Job
update_row j row = record row {
  status = j.status;
  started_at = j.started_at;
  finished_at = j.finished_at;
  items_new = j.items_new;
  items_total = j.items_total;
  bytes_transferred = j.bytes_transferred;
  error_message = j.error_message;
  snapshot_id = j.snapshot_id;
  progress_pct = j.progress_pct;
  progress_message = j.progress_message;
  job_type = j.job_type;
}

-- An UPDATE of the row that has the primary key.
unfoldable pub replace : (Job → Job) → Text → List Job → List Job
replace f id [] = []
replace f id (j ∷ js) = (if has_id id j then f j else j) ∷ replace f id js

-- A row that the unique index holds against the changed row.
abbrev pub conflicts : Job → Job → Bool
conflicts row other = not (same other.id row.id) && active_for row.tenant_id row.service other

-- UpdateJob: an UPDATE of no row is no error.
unfoldable pub update_job : List Job → Job → DbResult (List Job)
unfolding update_row
update_job jobs j = elim (find_if (has_id j.id) jobs) [
  | none ↦ ok jobs
  | some old ↦
      let row = update_row j old in
      if is_active row && any (conflicts row) jobs
      then err unique_violation
      else ok (replace (update_row j) j.id jobs)
]

-- `_ = DB.UpdateJob(…)`: the callers drop the error, and the table is as it was.
unfoldable pub update_or_ignore : List Job → Job → List Job
update_or_ignore jobs j = elim (update_job jobs j) [ ok js ↦ js | err e ↦ jobs ]

-- UpdateJobProgress: every column but status, times, messages of error, snapshot and type.
unfoldable pub progress_row : Job → Job → Job
progress_row j row = record row {
  items_new = j.items_new;
  items_total = j.items_total;
  bytes_transferred = j.bytes_transferred;
  progress_pct = j.progress_pct;
  progress_message = j.progress_message;
}

unfoldable pub update_job_progress : List Job → Job → List Job
unfolding progress_row
update_job_progress jobs j = replace (progress_row j) j.id jobs

-- UpdateJobProgressMessage.
unfoldable pub update_job_progress_message : List Job → Text → Text → List Job
update_job_progress_message jobs id msg =
    replace (λ row. record row { progress_message = msg }) id jobs

-- CountActiveJobs: an empty service counts those of the whole tenant.
unfoldable pub count_active_jobs : List Job → Text → Text → ℕ
count_active_jobs jobs tenant service =
    if is_empty service
    then count_if (λ j. same j.tenant_id tenant && is_active j) jobs
    else count_if (active_for tenant service) jobs

abbrev pub full : Text
full = codes "full"

-- CountActiveFullJobs.
unfoldable pub count_active_full_jobs : List Job → Text → ℕ
count_active_full_jobs jobs tenant =
    count_if (λ j. same j.tenant_id tenant && same j.job_type full && is_active j) jobs

-- FailOrphanedJobs: the table and the number of rows affected.
unfoldable pub fail_row : Text → Time → Job → Job
fail_row reason now j =
    if is_active j
    then record j {
      status = error;
      error_message = reason;
      progress_message = reason;
      finished_at = now;
    }
    else j

unfoldable pub fail_orphaned_jobs : List Job → Text → Time → List Job × ℕ
unfolding fail_row
fail_orphaned_jobs jobs reason now = (map (fail_row reason now) jobs, count_if is_active jobs)

abbrev is_running : Job → Bool
is_running j = status_eq j.status running

-- ListRunningJobs, in the table's order; the source sorts the rows by `started_at`.
unfoldable pub list_running_jobs : List Job → List Job
unfolding status_eq
list_running_jobs jobs = keep_if is_running jobs
