-- ===== src/Runner.antt =====
-- internal/backup/job.go: the runner. Its state is the database's jobs and delta tokens with the
-- runner's own maps and the staging folders; a method is a function of the state. The texts that
-- are put together for the operator (progress details, summaries) are arguments, and the logger
-- is left out.
pub mod Enqueue
pub mod Life
pub mod Threads
use m365_backup.Base.{ℕ, Bool, true, false, not, ◌&&◌, ◌||◌, List, [], ◌∷◌, Text, same, keep_if}
use m365_backup.Clock.{Time}
use m365_backup.Jobs.{Job}
use m365_backup.Tokens.{DeltaToken}

pub record JobLog : Type 0 where
  pub job_id : Text
  pub level : Text
  pub message : Text

-- The kinds of the events that the runner sends to the notifier.
pub data EventType : Type 0 where
  job_error job_warning : EventType

pub record Event : Type 0 where
  pub event_type : EventType
  pub tenant_id : Text
  pub body : Text

pub record World : Type 0 where
  pub jobs : List Job
  pub tokens : List DeltaToken
  pub cancels : List Text  -- the IDs with a cancel function in `r.cancels`
  pub signalled : List Text  -- the IDs whose context was cancelled
  pub spawned : List Text  -- the IDs given to `go r.runJob`
  pub staging : List Text  -- the folders under StagingRoot
  pub logs : List JobLog
  pub events : List Event

-- cleanStagingJob.
unfoldable pub clean_staging_job : World → Text → World
clean_staging_job w id = record w { staging = keep_if (λ d. not (same d id)) w.staging }
