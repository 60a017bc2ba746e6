-- ===== src/Runner/Life/Ending.antt =====
-- internal/backup/job.go: the ways out of runJob, and the status of the row.
use m365_backup.Base.{
  ◌≡◌, refl, ◌∙◌, ◌⊎◌, true, false, ◌||◌, some, Option, List, Text, codes, ◌++◌, arith,
  if◌then◌else◌, Bool-cases, inl, inr, contains,
}
use m365_backup.Clock.{Time}
use m365_backup.Jobs.{Job, error, cancelled, is_active_status, update_row, update_or_ignore}
use m365_backup.Runner.{World}
use m365_backup.Runner.Life.{
  was_cancelled, cancelled_by_user, finish_cancelled, fail, after_commit, finished, persist,
  with_line, ServiceResult, RunResult, ran, CommitResult, commit_failed, commit_skipped, committed,
  Texts, write_ctx, warn,
}
use m365_backup.Runner.Life.Errors.{Error, is_cancel_err}
use m365_backup.Runner.Life.Rows.{
  RowIs, IsClosed, write-IsClosed, write_inactive_at, was_cancelled-IsClosed,
}

abbrev pub cancelled_copy : Job → Text → Time → Job
cancelled_copy j reason now = record j {
  status = cancelled;
  error_message = reason;
  finished_at = now;
  progress_message = codes "Cancelled";
}

pub finish_cancelled-jobs :
    (w : World) (j : Job) (reason : Text) (now : Time)
    → (finish_cancelled w j reason now).jobs ≡ (
        if was_cancelled w j.id
        then w.jobs
        else update_or_ignore w.jobs (cancelled_copy j reason now))
unfolding finish_cancelled
finish_cancelled-jobs w j reason now = ground arith

pub fail-jobs :
    (w : World) (j : Job) (e : Error) (now : Time)
    → (fail w j e now).jobs ≡ (
        if was_cancelled w j.id || is_cancel_err e
        then (finish_cancelled w j cancelled_by_user now).jobs
        else update_or_ignore w.jobs (record j {
          status = error;
          error_message = e.text;
          finished_at = now;
          progress_message = codes "Failed: " ++ e.text;
        }))
unfolding fail
fail-jobs w j e now = ground arith

pub finish_cancelled-IsClosed :
    (w : World) (j old : Job) (reason : Text) (now : Time)
    → RowIs w.jobs j.id old
    → IsClosed (finish_cancelled w j reason now).jobs j.id
unfolding is_active_status
finish_cancelled-IsClosed w j old reason now found =
    rw finish_cancelled-jobs (elim (Bool-cases (was_cancelled w j.id)) [
      | inl c ↦ rw c (was_cancelled-IsClosed w j.id old found c)
      | inr c ↦ rw c (write-IsClosed w.jobs (cancelled_copy j reason now) old found refl)
    ])

pub fail-IsClosed :
    (w : World) (j old : Job) (e : Error) (now : Time)
    → RowIs w.jobs j.id old
    → IsClosed (fail w j e now).jobs j.id
unfolding is_active_status
fail-IsClosed w j old e now found =
    rw fail-jobs (elim (Bool-cases (was_cancelled w j.id || is_cancel_err e)) [
      | inl c ↦ rw c (finish_cancelled-IsClosed w j old cancelled_by_user now found)
      | inr c ↦ rw c (write-IsClosed w.jobs _ old found refl)
    ])

finished-inactive :
    (j : Job) (r : ServiceResult) (id summary message : Text) (now : Time)
    → is_active_status (finished j r id summary message now).status ≡ false
unfolding finished is_active_status
finished-inactive j r id summary message now = ground arith

pub write_ctx-jobs :
    (w : World) (j : Job)
    → (write_ctx w j).jobs
      ≡ (if contains w.signalled j.id then w.jobs else update_or_ignore w.jobs j)
unfolding write_ctx
write_ctx-jobs w j = ground arith

pub persist-same :
    (w : World) (id : Text) (r : ServiceResult)
    → ((persist w id r).jobs ≡ w.jobs) × ((persist w id r).signalled ≡ w.signalled)
unfolding persist
persist-same w id r = ground arith

pub warn-same :
    (w : World) (j : Job) (r : ServiceResult) (summary : Text)
    → ((warn w j r summary).jobs ≡ w.jobs) × ((warn w j r summary).signalled ≡ w.signalled)
unfolding warn
warn-same w j r summary = ground arith

-- The run's context was cancelled, the row is as before, and the write of a status that is not
-- active closes it: that of the Cancel or KillStale which cancelled the context.
pub record LeftOpen (w v : World) (id : Text) : Type 0 where
  pub signalled : contains w.signalled id ≡ true
  pub jobs : v.jobs ≡ w.jobs
  pub closes :
      (c : Job)
      → c.id ≡ id
      → is_active_status c.status ≡ false
      → IsClosed (update_or_ignore v.jobs c) id

write_at-IsClosed :
    (jobs : List Job) (c old : Job) (id : Text)
    → c.id ≡ id
    → RowIs jobs id old
    → is_active_status c.status ≡ false
    → IsClosed (update_or_ignore jobs c) id
unfolding update_row
write_at-IsClosed jobs c old id own found h = record {
  row = update_row c old;
  found = write_inactive_at jobs c old id own found h;
  closed = h;
}

write_ctx-IsClosed :
    (w v : World) (j old : Job)
    → v.jobs ≡ w.jobs
    → v.signalled ≡ w.signalled
    → RowIs w.jobs j.id old
    → is_active_status j.status ≡ false
    → IsClosed (write_ctx v j).jobs j.id ⊎ LeftOpen w (write_ctx v j) j.id
write_ctx-IsClosed w v j old same_jobs same_signals found h =
    elim (Bool-cases (contains w.signalled j.id)) [
      | inl c ↦
          let kept : (write_ctx v j).jobs ≡ w.jobs =
            rw (write_ctx-jobs, same_jobs, same_signals, c) refl in
          inr (record {
            signalled = c;
            jobs = kept;
            closes = λ x own idle. rw kept (write_at-IsClosed w.jobs x old j.id own found idle);
          })
      | inr c ↦
          inl
            (rw (write_ctx-jobs, same_jobs, same_signals, c) (write-IsClosed w.jobs j old found h))
    ]

end_run-IsClosed :
    (w v : World) (j old : Job) (r : ServiceResult) (id summary message : Text) (now : Time)
    → v.jobs ≡ w.jobs
    → v.signalled ≡ w.signalled
    → RowIs w.jobs j.id old
    → IsClosed (write_ctx v (finished j r id summary message now)).jobs j.id
      ⊎ LeftOpen w (write_ctx v (finished j r id summary message now)) j.id
unfolding finished
end_run-IsClosed w v j old r id summary message now a b found =
    write_ctx-IsClosed w v (finished j r id summary message now) old a b found
      (finished-inactive j r id summary message now)

-- When runJob leaves a job that has a row by the commit, whatever the commit returned and whether
-- the job was cancelled or killed meanwhile, the job's row is neither queued nor running; or the run's context was
-- cancelled, the last write is dropped with it, and the row is as before: then the write of the
-- Cancel or KillStale that cancelled the context, when it comes, closes it.
pub after_commit-IsClosed :
    (w : World) (j old : Job) (r : ServiceResult) (c : CommitResult) (t : Texts)
    → RowIs w.jobs j.id old
    → IsClosed (after_commit w j r c t).jobs j.id ⊎ LeftOpen w (after_commit w j r c t) j.id
unfolding after_commit
after_commit-IsClosed w j old r (commit_failed e) t found =
    inl (elim (Bool-cases (is_cancel_err e || was_cancelled w j.id)) [
      | inl x ↦ rw x (finish_cancelled-IsClosed w j old cancelled_by_user t.now found)
      | inr x ↦ rw x (fail-IsClosed w j old _ t.now found)
    ])
after_commit-IsClosed w j old r (commit_skipped snap) t found =
    elim (Bool-cases (was_cancelled w j.id)) [
      | inl x ↦ inl (rw x (finish_cancelled-IsClosed w j old cancelled_by_user t.now found))
      | inr x ↦
          let (a, b) = persist-same w j.id r in
          rw x (end_run-IsClosed w (persist w j.id r) j old r _ _ _ t.now a b found)
    ]
after_commit-IsClosed w j old r (committed id) t found = elim (Bool-cases (was_cancelled w j.id)) [
  | inl x ↦ inl (rw x (finish_cancelled-IsClosed w j old cancelled_by_user t.now found))
  | inr x ↦
      let v = persist w j.id (with_line r t.message) in
      let (a, b) = persist-same w j.id (with_line r t.message) in
      let (c, d) = warn-same v j r t.summary in
      rw x (end_run-IsClosed w (warn v j r t.summary) j old r id _ _ t.now (c ∙ a) (d ∙ b) found)
]

-- The job goes on to the commit, of a service that wants a snapshot, with the counters of the run.
pub record GoesOn (j : Job) (run : RunResult) (next : Option Job) : Type 0 where
  pub result : ServiceResult
  pub copy : Job
  pub ran_to_end : run ≡ ran result
  pub wants_snapshot : result.skip_snapshot ≡ false
  pub is_next : next ≡ some copy
  pub id : copy.id ≡ j.id
  pub items_new : copy.items_new ≡ result.items_new
  pub items_total : copy.items_total ≡ result.items_total
  pub bytes_transferred : copy.bytes_transferred ≡ result.bytes_transferred
