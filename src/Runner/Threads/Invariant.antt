-- ===== src/Runner/Threads/Invariant.antt =====
-- internal/backup/job.go: what holds in every order of the steps.
use m365_backup.Base.{
  ◌≡◌, refl, ◌∙◌, Bool, true, false, ◌||◌, ℕ, is_empty, List, Text, arith, Bool-cases, inl, inr,
  contains, if◌then◌else◌,
}
use m365_backup.Clock.{Time}
use m365_backup.Jobs.{
  Job, running, status_eq, is_active_status, DbResult, ok, err, get_job, update_or_ignore,
}
use m365_backup.Jobs.Active.{IsTable, update_or_ignore-IsTable, update_job_progress-IsTable}
use m365_backup.Runner.{World}
use m365_backup.Runner.Enqueue.Table.{insert_job-IsTable, enqueue_params-IsTable}
use m365_backup.Runner.Life.{
  was_cancelled, write_ctx, write_progress, signal, cancelled_by_user, cancel, kill_stale,
  finish_cancelled, fail, start_run, leave_run, persist, with_line, warn, end_export, after_run,
  commit_progress, after_commit, ServiceResult, RunResult, ran, run_failed, CommitResult,
  commit_failed, commit_skipped, committed, Texts,
}
use m365_backup.Runner.Life.Errors.{Error, is_cancel_err}
use m365_backup.Runner.Life.Ending.{
  finish_cancelled-jobs, fail-jobs, persist-same, warn-same, write_ctx-jobs,
}
use m365_backup.Runner.Threads.{
  Step, enqueue_job, cancel_job, kill_job, signal_job, late_write, late_insert, progress_step,
  begin_run, fail_run, end_run, end_commit, commit_step, release, Reach, here, later,
}

-- A table that is the old one, or the old one after an UPDATE.
may_write :
    (b : Bool) (jobs : List Job) (j : Job)
    → IsTable jobs
    → IsTable (if b then jobs else update_or_ignore jobs j)
may_write true jobs j t = t
may_write false jobs j t = update_or_ignore-IsTable jobs j t

write_ctx-IsTable : (w : World) (j : Job) → IsTable w.jobs → IsTable (write_ctx w j).jobs
write_ctx-IsTable w j t = rw write_ctx-jobs (may_write (contains w.signalled j.id) w.jobs j t)

finish_cancelled-IsTable :
    (w : World) (j : Job) (reason : Text) (now : Time)
    → IsTable w.jobs
    → IsTable (finish_cancelled w j reason now).jobs
finish_cancelled-IsTable w j reason now t =
    rw finish_cancelled-jobs (may_write (was_cancelled w j.id) w.jobs _ t)

fail-IsTable :
    (w : World) (j : Job) (x : Error) (now : Time) → IsTable w.jobs → IsTable (fail w j x now).jobs
fail-IsTable w j x now t =
    rw fail-jobs (elim (Bool-cases (was_cancelled w j.id || is_cancel_err x)) [
      | inl c ↦ rw c (finish_cancelled-IsTable w j cancelled_by_user now t)
      | inr c ↦ rw c (update_or_ignore-IsTable w.jobs _ t)
    ])

-- The writes behind lines of the log and events.
end-IsTable :
    (w v : World) (j : Job) → v.jobs ≡ w.jobs → IsTable w.jobs → IsTable (write_ctx v j).jobs
end-IsTable w v j e t = write_ctx-IsTable v j (rw e t)

signal-jobs : (w : World) (id : Text) → (signal w id).jobs ≡ w.jobs
unfolding signal
signal-jobs w id = ground arith

cancel-IsTable :
    (w : World) (id : Text) (now : Time) → IsTable w.jobs → IsTable (cancel w id now).0.jobs
unfolding cancel
cancel-IsTable w id now t = by_result (get_job w.jobs id) refl
  where
    by_result : (r : DbResult Job) → get_job w.jobs id ≡ r → IsTable (cancel w id now).0.jobs
    by_result (err x) e = rw (e, cancel) t
    by_result (ok j) e = elim (Bool-cases (is_active_status j.status)) [
      | inl a ↦ rw (e, cancel, a) (rw signal-jobs (update_or_ignore-IsTable w.jobs _ t))
      | inr a ↦ rw (e, cancel, a) t
    ]

kill_stale-IsTable :
    (w : World) (id reason detail : Text) (now : Time)
    → IsTable w.jobs
    → IsTable (kill_stale w id reason detail now).jobs
unfolding kill_stale
kill_stale-IsTable w id reason detail now t = by_result (get_job w.jobs id) refl
  where
    by_result :
        (r : DbResult Job)
        → get_job w.jobs id ≡ r
        → IsTable (kill_stale w id reason detail now).jobs
    by_result (err x) e = rw (e, kill_stale) t
    by_result (ok j) e = elim (Bool-cases (status_eq j.status running)) [
      | inl a ↦ rw (e, kill_stale, a) (rw signal-jobs (update_or_ignore-IsTable w.jobs _ t))
      | inr a ↦ rw (e, kill_stale, a) t
    ]

write_progress-IsTable : (w : World) (j : Job) → IsTable w.jobs → IsTable (write_progress w j).jobs
write_progress-IsTable w j t = elim (Bool-cases (contains w.signalled j.id)) [
  | inl c ↦ rw c t
  | inr c ↦ rw c (update_job_progress-IsTable w.jobs j t)
]

end_export-IsTable :
    (w : World) (j : Job) (r : ServiceResult) (x : Texts)
    → IsTable w.jobs
    → IsTable (end_export w j r x).jobs
unfolding end_export
end_export-IsTable w j r x t = end-IsTable w (persist w j.id r) _ (persist-same w j.id r).0 t

after_run-IsTable :
    (w : World) (j : Job) (r : RunResult) (x : Texts)
    → IsTable w.jobs
    → IsTable (after_run w j r x).0.jobs
unfolding after_run
after_run-IsTable w j (run_failed e) x t =
    elim (Bool-cases (is_cancel_err e || was_cancelled w j.id)) [
      | inl c ↦ rw c (finish_cancelled-IsTable w j cancelled_by_user x.now t)
      | inr c ↦ rw c (fail-IsTable w j e x.now t)
    ]
after_run-IsTable w j (ran r) x t =
    elim (Bool-cases (was_cancelled w j.id || contains w.signalled j.id)) [
      | inl c ↦ rw c (finish_cancelled-IsTable w j cancelled_by_user x.now t)
      | inr c ↦ elim (Bool-cases r.skip_snapshot) [
        | inl s ↦ rw (c, s) (end_export-IsTable w j _ x t)
        | inr s ↦ rw (c, s) (write_progress-IsTable w _ t)
      ]
    ]

after_commit-IsTable :
    (w : World) (j : Job) (r : ServiceResult) (c : CommitResult) (x : Texts)
    → IsTable w.jobs
    → IsTable (after_commit w j r c x).jobs
unfolding after_commit
after_commit-IsTable w j r (commit_failed e) x t =
    elim (Bool-cases (is_cancel_err e || was_cancelled w j.id)) [
      | inl c ↦ rw c (finish_cancelled-IsTable w j cancelled_by_user x.now t)
      | inr c ↦ rw c (fail-IsTable w j _ x.now t)
    ]
after_commit-IsTable w j r (commit_skipped snap) x t = elim (Bool-cases (was_cancelled w j.id)) [
  | inl c ↦ rw c (finish_cancelled-IsTable w j cancelled_by_user x.now t)
  | inr c ↦ rw c (end-IsTable w (persist w j.id r) _ (persist-same w j.id r).0 t)
]
after_commit-IsTable w j r (committed id) x t = elim (Bool-cases (was_cancelled w j.id)) [
  | inl c ↦ rw c (finish_cancelled-IsTable w j cancelled_by_user x.now t)
  | inr c ↦
      let v = persist w j.id (with_line r x.message) in
      rw c (
        end-IsTable w (warn v j r x.summary) _
          ((warn-same v j r x.summary).0 ∙ (persist-same w j.id (with_line r x.message)).0) t)
]

commit_progress-IsTable :
    (w : World) (j : Job) (steps total : ℕ) (msg : Text)
    → IsTable w.jobs
    → IsTable (commit_progress w j steps total msg).0.jobs
unfolding commit_progress
commit_progress-IsTable w j steps total msg t = elim (Bool-cases (is_empty msg)) [
  | inl e ↦ rw e t
  | inr e ↦ rw e (update_job_progress-IsTable w.jobs _ t)
]

Step-IsTable : (w v : World) → Step w v → IsTable w.jobs → IsTable v.jobs
unfolding start_run leave_run
Step-IsTable w v (enqueue_job e q) t = enqueue_params-IsTable e w q t
Step-IsTable w v (cancel_job id now) t = cancel-IsTable w id now t
Step-IsTable w v (kill_job id reason detail now) t = kill_stale-IsTable w id reason detail now t
Step-IsTable w v (signal_job id) t = rw signal-jobs t
Step-IsTable w v (late_write j idle) t = update_or_ignore-IsTable w.jobs j t
Step-IsTable w v (late_insert e j) t = insert_job-IsTable e w j t
Step-IsTable w v (begin_run j now) t = write_ctx-IsTable _ _ t
Step-IsTable w v (fail_run j x now) t = fail-IsTable w j x now t
Step-IsTable w v (end_run j r x) t = after_run-IsTable w j r x t
Step-IsTable w v (end_commit j r c x) t = after_commit-IsTable w j r c x t
Step-IsTable w v (progress_step j) t = write_progress-IsTable w j t
Step-IsTable w v (commit_step j n total msg) t = commit_progress-IsTable w j n total msg t
Step-IsTable w v (release id) t = t

-- Whatever requests, cancels, kills and parts of runs follow each other, in whatever order and
-- with whatever copies of rows, the IDs of the jobs stay unique, and at no time are two jobs of
-- one tenant and service active.
pub Reach-IsTable : (w v : World) → Reach w v → IsTable w.jobs → IsTable v.jobs
Reach-IsTable w v here t = t
Reach-IsTable w v (later {s} r step) t = Step-IsTable s v step (Reach-IsTable w s r t)
