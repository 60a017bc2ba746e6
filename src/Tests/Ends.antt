-- ===== src/Tests/Ends.antt =====
-- internal/backup/job.go, the run of a job, at concrete inputs.
use m365_backup.Base.{◌≡◌, ◌⊎◌, refl, true, false, [], ◌∷◌, codes, contains, same, find_if, any}
use m365_backup.Jobs.{Job, running, cancelled, is_active_status, get_job}
use m365_backup.Runner.{World}
use m365_backup.Runner.Life.{
  was_cancelled, cancel, kill_stale, start_run, stopped, not_active, cancelled_by_user, after_run,
  commit_progress, after_commit, ServiceResult, run_failed, committed, Texts,
}
use m365_backup.Runner.Life.Errors.{Error, is_cancel_err}
use m365_backup.Runner.Life.Rows.{RowIs, IsClosed}
use m365_backup.Runner.Life.Ending.{LeftOpen, after_commit-IsClosed}
use m365_backup.Runner.Life.Cancelled.{cancel_lem}
use m365_backup.Runner.Life.Races.{start_run-revives, kill_stale-overwritten}
use m365_backup.Tests.Data.{job_1, world_of}

abbrev result_1 : ServiceResult
result_1 = record {
  items_new = 2;
  items_total = 3;
  bytes_transferred = 40;
  skipped_users = 0;
  warnings = [];
  lines = [];
  skip_snapshot = false;
  export_path = [];
  live_persisted = false;
}

abbrev texts_1 : Texts
texts_1 = record { summary = []; message = codes "Completed"; snapshot = []; now = 20 }

abbrev stopped_error : Error
stopped_error = record { text = codes "Post: Context Canceled"; is_context = false }

-- The context of the run was cancelled; the row is not yet written.
abbrev signalled_1 : World
signalled_1 = record (world_of (job_1 ∷ [])) { signalled = codes "j1" ∷ [] }

after_commit-IsClosed_example :
    IsClosed
      (after_commit signalled_1 job_1 result_1 (committed (codes "s1")) texts_1).jobs
      (codes "j1")
    ⊎ LeftOpen signalled_1
        (after_commit signalled_1 job_1 result_1 (committed (codes "s1")) texts_1)
        (codes "j1")
unfolding find_if same
after_commit-IsClosed_example =
    after_commit-IsClosed signalled_1 job_1 job_1 result_1 (committed (codes "s1")) texts_1 refl

abbrev ended_1 : Job
ended_1 = record job_1 { status = cancelled }

abbrev world_1 : World
world_1 = world_of (ended_1 ∷ [])

abbrev progressed : World × Job
progressed = commit_progress world_1 job_1 1 2 (codes "writing")

cancel_lem_example :
    ((is_active_status running ≡ false)
      × (cancel (world_of (job_1 ∷ [])) (codes "j1") 20 ≡ (world_of (job_1 ∷ []), not_active)))
    ⊎ ((is_active_status running ≡ true)
        × ((cancel (world_of (job_1 ∷ [])) (codes "j1") 20).1 ≡ stopped)
        × (was_cancelled (cancel (world_of (job_1 ∷ [])) (codes "j1") 20).0 (codes "j1") ≡ true)
        × (contains (codes "j1" ∷ []) (codes "j1") ≡ true
            → contains (cancel (world_of (job_1 ∷ [])) (codes "j1") 20).0.signalled (codes "j1")
              ≡ true)
        × (contains (cancel (world_of (job_1 ∷ [])) (codes "j1") 20).0.staging (codes "j1")
            ≡ false))
unfolding find_if same
cancel_lem_example = cancel_lem (world_of (job_1 ∷ [])) (codes "j1") 20 job_1 refl

-- The thread still has the queued row that it read before the user cancelled the job.
start_run-revives_example :
    (was_cancelled (start_run (world_of (ended_1 ∷ [])) job_1 30).0 (codes "j1") ≡ false)
    × ((row : Job) × RowIs (start_run (world_of (ended_1 ∷ [])) job_1 30).0.jobs (codes "j1") row
        × (row.status ≡ running))
unfolding find_if same was_cancelled contains any get_job is_active_status
start_run-revives_example =
    start_run-revives (world_of (ended_1 ∷ [])) job_1 ended_1 30 refl refl refl refl

kill_stale-overwritten_example :
    (row : Job) × RowIs
      (after_run
        (kill_stale (world_of (job_1 ∷ [])) (codes "j1") (codes "stall") [] 20)
        job_1
        (run_failed stopped_error)
        texts_1).0.jobs
      (codes "j1")
      row
    × (row.status ≡ cancelled)
    × (row.error_message ≡ cancelled_by_user)
unfolding find_if same is_cancel_err
kill_stale-overwritten_example =
    kill_stale-overwritten (world_of (job_1 ∷ [])) job_1 job_1 (codes "stall") [] 20 stopped_error
      texts_1 refl refl refl
