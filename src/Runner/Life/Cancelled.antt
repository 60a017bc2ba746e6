-- ===== src/Runner/Life/Cancelled.antt =====
-- internal/backup/job.go: the rows of cancelled jobs.
use m365_backup.Base.{
  ◌≡◌, refl, ap, ◌∙◌, ◌⊎◌, true, false, not, List, [], ◌∷◌, Text, arith, same, same-eq, find_if,
  find_if_holds, keep_if, Bool-cases, inl, inr, contains, contains-cons_self,
}
use m365_backup.Clock.{Time}
use m365_backup.Jobs.{
  Job, cancelled, has_id, is_active_status, get_job, update_row, update_or_ignore,
}
use m365_backup.Runner.{World}
use m365_backup.Runner.Life.{was_cancelled, cancel, stopped, not_active, cancelled_by_user, signal}
use m365_backup.Runner.Life.Rows.{RowIs, write_inactive_at}
use m365_backup.Runner.Life.Ending.{cancelled_copy}

gone_keep : (id : Text) (l : List Text) → contains (keep_if (λ d. not (same d id)) l) id ≡ false
unfolding contains keep_if
gone_keep id [] = refl
gone_keep id (d ∷ ds) = ground (arith, gone_keep id ds)

cancel-parts :
    (w : World) (id : Text) (now : Time) (old : Job)
    → RowIs w.jobs id old
    → is_active_status old.status ≡ true
    → ((cancel w id now).1 ≡ stopped)
      × ((cancel w id now).0.jobs
          ≡ update_or_ignore w.jobs (cancelled_copy old cancelled_by_user now))
      × ((cancel w id now).0.signalled ≡ (signal w id).signalled)
      × ((cancel w id now).0.staging ≡ keep_if (λ d. not (same d id)) w.staging)
unfolding cancel get_job
cancel-parts w id now old found act = ground arith

signal-contains :
    (w : World) (id : Text)
    → contains w.cancels id ≡ true
    → contains (signal w id).signalled id ≡ true
unfolding signal
signal-contains w id h = ground (arith, contains-cons_self id w.signalled)

was_cancelled-jobs :
    (w : World) (id : Text) (row : Job)
    → RowIs w.jobs id row
    → row.status ≡ cancelled
    → was_cancelled w id ≡ true
unfolding was_cancelled get_job
was_cancelled-jobs w id row found h = ground arith

-- Cancel of a job that is queued or running marks its row cancelled, cancels the context of a
-- run that is registered, and removes the job's staging folder; of any other job it refuses and
-- changes nothing.
pub cancel_lem :
    (w : World) (id : Text) (now : Time) (old : Job)
    → RowIs w.jobs id old
    → ((is_active_status old.status ≡ false) × (cancel w id now ≡ (w, not_active)))
      ⊎ ((is_active_status old.status ≡ true)
          × ((cancel w id now).1 ≡ stopped)
          × (was_cancelled (cancel w id now).0 id ≡ true)
          × (contains w.cancels id ≡ true → contains (cancel w id now).0.signalled id ≡ true)
          × (contains (cancel w id now).0.staging id ≡ false))
unfolding update_row is_active_status
cancel_lem w id now old found = elim (Bool-cases (is_active_status old.status)) [
  | inr idle ↦ inl (idle, unfold cancel get_job in ground arith)
  | inl act ↦
      let (answer, jobs, signals, staging) = cancel-parts w id now old found act in
      let own : old.id ≡ id = same-eq old.id id (find_if_holds (has_id id) w.jobs old found) in
      let row =
        write_inactive_at w.jobs (cancelled_copy old cancelled_by_user now) old id own found refl in
      inr (
        act,
        answer,
        was_cancelled-jobs (cancel w id now).0 id
            (update_row (cancelled_copy old cancelled_by_user now) old)
            (ap (λ (js : List Job). find_if (has_id id) js) jobs ∙ row) refl,
        (λ h. rw signals (signal-contains w id h)),
        rw staging (gone_keep id w.staging),
      )
]
