-- ===== src/Runner/Threads.antt =====
-- internal/backup/job.go: the steps that the goroutines of the runner take on the shared state, in
-- any order: requests, cancels, the watchdog's kills, and the parts of runJob. The copy of the row
-- that a run holds is any job. Beside the calls as a whole stand the parts between which other
-- goroutines may come: the signal of Cancel and KillStale alone, their write of a row that was read
-- earlier (a write that fails is no step), and an INSERT whose checks were made on an earlier table.
pub mod Invariant
use m365_backup.Base.{ℕ, false, List, Text, ◌≡◌}
use m365_backup.Clock.{Time}
use m365_backup.Jobs.{Job, is_active_status}
use m365_backup.Runner.{World}
use m365_backup.Runner.Enqueue.{Env, Request, insert_job, enqueue_params}
use m365_backup.Runner.Life.{
  signal, write, write_progress, cancel, kill_stale, start_run, leave_run, fail, after_run,
  after_commit, commit_progress, ServiceResult, RunResult, CommitResult, Texts,
}
use m365_backup.Runner.Life.Errors.{Error}

pub data Step (w : World) : World → Type 0 where
  enqueue_job : (e : Env) (q : Request) → Step w (enqueue_params e w q).0
  cancel_job : (id : Text) (now : Time) → Step w (cancel w id now).0
  kill_job : (id reason detail : Text) (now : Time) → Step w (kill_stale w id reason detail now)
  signal_job : (id : Text) → Step w (signal w id)
  late_write : (j : Job) → is_active_status j.status ≡ false → Step w (write w j)
  late_insert : (e : Env) (j : Job) → Step w (insert_job e w j).0
  begin_run : (j : Job) (now : Time) → Step w (start_run w j now).0
  fail_run : (j : Job) (x : Error) (now : Time) → Step w (fail w j x now)
  end_run : (j : Job) (r : RunResult) (t : Texts) → Step w (after_run w j r t).0
  end_commit :
      (j : Job) (r : ServiceResult) (c : CommitResult) (t : Texts) → Step w (after_commit w j r c t)
  progress_step : (j : Job) → Step w (write_progress w j)
  commit_step :
      (j : Job) (steps total : ℕ) (msg : Text) → Step w (commit_progress w j steps total msg).0
  release : (id : Text) → Step w (leave_run w id)

-- The states that any number of steps leads to.
pub data Reach (w : World) : World → Type 0 where
  here : Reach w w
  later : {s t : World} → Reach w s → Step s t → Reach w t
