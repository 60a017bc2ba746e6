-- ===== src/Runner/Life.antt =====
-- internal/backup/job.go: Cancel, KillStale and the parts of runJob that write the job's state.
-- A part of runJob between two looks at the database is one function, so that the calls of other
-- threads can stand between the parts. Each thread works on its own copy of the job row.
pub mod Errors
pub mod Rows
pub mod Ending
pub mod Cancelled
pub mod Races
use m365_backup.Base.{
  ℕ, Bool, true, false, not, ◌&&◌, ◌||◌, Option, none, some, List, [], ◌∷◌, ◌++◌, Text, codes, ltb,
  min, ◌+◌, ◌*◌, ◌/◌, is_empty, same, contains, keep_if, if◌then◌else◌,
}
use m365_backup.Clock.{Time}
use m365_backup.Jobs.{
  Job, Status, queued, running, success, warning, error, cancelled, status_eq, is_active_status,
  DbResult, ok, err, get_job, update_or_ignore, update_job_progress,
}
use m365_backup.Runner.{World, JobLog, Event, job_error, job_warning, clean_staging_job}
use m365_backup.Runner.Life.Errors.{Error, is_cancel_err}

abbrev pub cancelled_by_user : Text
cancelled_by_user = codes "cancelled by user"

abbrev log_of : Text → Text → Text → JobLog
log_of id level message = record { job_id = id; level = level; message = message }

-- The bytes of "…".
abbrev pub ellipsis : Text
ellipsis = 226 ∷ 128 ∷ 166 ∷ []

-- wasCancelled.
unfoldable pub was_cancelled : World → Text → Bool
unfolding status_eq
was_cancelled w id = elim (get_job w.jobs id) [
  | err e ↦ false
  | ok j ↦ status_eq j.status cancelled
]

-- `_ = r.DB.UpdateJob(context.Background(), job)`
abbrev pub write : World → Job → World
write w j = record w { jobs = update_or_ignore w.jobs j }

-- `_ = r.DB.UpdateJob(ctx, job)`: a statement under a cancelled context is not run.
unfoldable pub write_ctx : World → Job → World
write_ctx w j = if contains w.signalled j.id then w else write w j

-- `_ = r.DB.UpdateJobProgress(ctx, job)`
abbrev pub write_progress : World → Job → World
write_progress w j =
    if contains w.signalled j.id then w else record w { jobs = update_job_progress w.jobs j }

-- `if cancel, ok := r.cancels[jobID]; ok { cancel() }`
unfoldable pub signal : World → Text → World
signal w id = if contains w.cancels id then record w { signalled = id ∷ w.signalled } else w

pub data CancelResult : Type 0 where
  stopped no_such_job not_active : CancelResult

-- Cancel, of a request whose own context is not cancelled. Here the signal and the write
-- of the row are one step; Runner/Threads has them apart too.
unfoldable pub cancel : World → Text → Time → World × CancelResult
unfolding signal clean_staging_job
cancel w id now = elim (get_job w.jobs id) [
  | err e ↦ (w, no_such_job)
  | ok j ↦
      if not (is_active_status j.status)
      then (w, not_active)
      else let w1 = write (signal w id) (record j {
        status = cancelled;
        finished_at = now;
        error_message = cancelled_by_user;
        progress_message = codes "Cancelled";
      }) in
        let w2 = record w1 {
          logs = w1.logs ++ log_of j.id (codes "warn") cancelled_by_user ∷ [];
        } in
        (clean_staging_job w2 id, stopped)
]

-- KillStale, in one step like Cancel, with the notifier's event; `detail` is the progress message.
unfoldable pub kill_stale : World → Text → Text → Text → Time → World
unfolding signal clean_staging_job
kill_stale w id reason detail now = elim (get_job w.jobs id) [
  | err e ↦ w
  | ok j ↦
      if not (status_eq j.status running)
      then w
      else let w1 = write (signal w id) (record j {
        status = error;
        error_message = reason;
        finished_at = now;
        progress_message = detail;
      }) in
        let w2 = record w1 { logs = w1.logs ++ log_of j.id (codes "error") reason ∷ [] } in
        let w3 = clean_staging_job w2 id in
        record w3 {
          events =
              w3.events
              ++ record { event_type = job_error; tenant_id = j.tenant_id; body = reason } ∷ [];
        }
]

-- finishCancelled.
unfoldable pub finish_cancelled : World → Job → Text → Time → World
unfolding clean_staging_job
finish_cancelled w j reason now =
    if was_cancelled w j.id
    then clean_staging_job w j.id
    else let w1 = write w (record j {
      status = cancelled;
      error_message = reason;
      finished_at = now;
      progress_message = codes "Cancelled";
    }) in
      clean_staging_job (record w1 { logs = w1.logs ++ log_of j.id (codes "warn") reason ∷ [] })
        j.id

-- fail.
unfoldable pub fail : World → Job → Error → Time → World
unfolding clean_staging_job
fail w j e now =
    if was_cancelled w j.id || is_cancel_err e
    then clean_staging_job (finish_cancelled w j cancelled_by_user now) j.id
    else let w1 = write w (record j {
      status = error;
      error_message = e.text;
      finished_at = now;
      progress_message = codes "Failed: " ++ e.text;
    }) in
      clean_staging_job
        (record w1 {
          logs = w1.logs ++ log_of j.id (codes "error") e.text ∷ [];
          events =
              w1.events
              ++ record { event_type = job_error; tenant_id = j.tenant_id; body = e.text } ∷ [];
        })
        j.id

-- runJob up to the status `running`: the context's cancel function is registered, and the local
-- copy of the row is written.
unfoldable pub start_run : World → Job → Time → World × Job
start_run w j now =
    let j1 = record j { status = running; started_at = now } in
    (write_ctx (record w { cancels = j.id ∷ w.cancels }) j1, j1)

-- The deferred end of runJob.
unfoldable pub leave_run : World → Text → World
leave_run w id = record w { cancels = keep_if (λ c. not (same c id)) w.cancels }

pub record LogLine : Type 0 where
  pub level : Text
  pub message : Text

-- Result of service.go.
pub record ServiceResult : Type 0 where
  pub items_new : ℕ
  pub items_total : ℕ
  pub bytes_transferred : ℕ
  pub skipped_users : ℕ
  pub warnings : List Text
  pub lines : List LogLine
  pub skip_snapshot : Bool
  pub export_path : Text
  pub live_persisted : Bool

-- persistLogs: skipped users leave no line.
unfoldable pub persist_logs : List JobLog → Text → List LogLine → List JobLog
persist_logs logs id [] = logs
persist_logs logs id (l ∷ ls) =
    persist_logs
      (if same l.level (codes "skip") then logs else logs ++ log_of id l.level l.message ∷ []) id ls

unfoldable pub persist : World → Text → ServiceResult → World
persist w id r = if r.live_persisted then w else record w { logs = persist_logs w.logs id r.lines }

-- `result.Info(msg)`.
abbrev pub with_line : ServiceResult → Text → ServiceResult
with_line r msg = record r {
  lines = r.lines ++ record { level = codes "info"; message = msg } ∷ [];
}

abbrev pub no_warnings : List Text → Bool
no_warnings [] = true
no_warnings (x ∷ xs) = false

-- The row of a job that came to its end, with the texts of summarizeResult and of the progress.
unfoldable pub finished : Job → ServiceResult → Text → Text → Text → Time → Job
finished j r snapshot_id summary message now = record j {
  items_new = r.items_new;
  items_total = r.items_total;
  bytes_transferred = r.bytes_transferred;
  snapshot_id = snapshot_id;
  finished_at = now;
  progress_pct = 100;
  progress_message = message;
  status = if no_warnings r.warnings then success else warning;
  error_message = summary;
}

-- What `svc.Run` returned.
pub data RunResult : Type 0 where
  ran : ServiceResult → RunResult
  run_failed : Error → RunResult

-- What `cat.CommitSnapshotWithProgress` returned: an error, a generation that was reused with its
-- snapshot if there is one, or a new snapshot.
pub data CommitResult : Type 0 where
  commit_failed : Error → CommitResult
  commit_skipped : Option Text → CommitResult
  committed : Text → CommitResult

abbrev pub snapshot_or : Text → Option Text → Text
snapshot_or old none = old
snapshot_or old (some id) = id

pub record Texts : Type 0 where
  pub summary : Text
  pub message : Text
  pub snapshot : Text  -- filepath.Base of the export path, for an export
  pub now : Time

-- An export job ends here, with no snapshot.
unfoldable pub end_export : World → Job → ServiceResult → Texts → World
end_export w j r t = write_ctx (persist w j.id r) (
    finished j r (if is_empty r.export_path then j.snapshot_id else t.snapshot) t.summary t.message
      t.now)

-- The part of runJob behind `svc.Run`: the job is over, or goes on to the commit with the copy.
unfoldable pub after_run : World → Job → RunResult → Texts → World × Option Job
after_run w j (run_failed e) t =
    if is_cancel_err e || was_cancelled w j.id
    then (finish_cancelled w j cancelled_by_user t.now, none)
    else (fail w j e t.now, none)
after_run w j (ran r) t =
    if was_cancelled w j.id || contains w.signalled j.id
    then (finish_cancelled w j cancelled_by_user t.now, none)
    else if r.skip_snapshot
    then (end_export w j r t, none)
    else let j1 = record j {
      items_new = r.items_new;
      items_total = r.items_total;
      bytes_transferred = r.bytes_transferred;
      progress_pct = 95;
      progress_message = codes "Committing catalog snapshot" ++ ellipsis;
    } in
      (write_progress w j1, some j1)

-- The callback of CommitSnapshotWithProgress, which writes under a context that is never cancelled,
-- with the copy it goes on with; the line of the job's log is left out.
unfoldable pub commit_progress : World → Job → ℕ → ℕ → Text → World × Job
commit_progress w j steps total msg =
    let j1 = record j {
      progress_message = msg;
      progress_pct =
          if ltb 0 total && ltb 0 steps then min 99 (95 + steps * 4 / total) else j.progress_pct;
    } in
    if is_empty msg then (w, j) else (record w { jobs = update_job_progress w.jobs j1 }, j1)

-- The event of a job with warnings.
unfoldable pub warn : World → Job → ServiceResult → Text → World
warn w j r summary = if no_warnings r.warnings then w else record w {
  events =
      w.events ++ record { event_type = job_warning; tenant_id = j.tenant_id; body = summary } ∷ [];
}

-- The part of runJob behind the commit.
unfoldable pub after_commit : World → Job → ServiceResult → CommitResult → Texts → World
after_commit w j r (commit_failed e) t =
    if is_cancel_err e || was_cancelled w j.id
    then finish_cancelled w j cancelled_by_user t.now
    else fail w j (record e { text = codes "snapshot: " ++ e.text }) t.now
after_commit w j r (commit_skipped snap) t =
    if was_cancelled w j.id
    then finish_cancelled w j cancelled_by_user t.now
    else write_ctx (persist w j.id r)
        (finished j r (snapshot_or j.snapshot_id snap) t.summary t.message t.now)
after_commit w j r (committed id) t =
    if was_cancelled w j.id
    then finish_cancelled w j cancelled_by_user t.now
    else write_ctx (warn (persist w j.id (with_line r t.message)) j r t.summary)
        (finished j r id t.summary t.message t.now)
