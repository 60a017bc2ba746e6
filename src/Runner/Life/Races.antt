-- ===== src/Runner/Life/Races.antt =====
-- internal/backup/job.go: two orders of events around Cancel and KillStale.
use m365_backup.Base.{
  ◌≡◌, refl, ap, ◌∙◌, true, false, List, [], ◌∷◌, Text, arith, same-eq, find_if, find_if_holds, any,
  contains,
}
use m365_backup.Clock.{Time}
use m365_backup.Jobs.{
  Job, active_for, conflicts, update_job, running, error, cancelled, status_eq, has_id,
  is_active_status, get_job, update_row, update_or_ignore,
}
use m365_backup.Runner.{World}
use m365_backup.Runner.Life.{
  was_cancelled, kill_stale, start_run, cancelled_by_user, finish_cancelled, after_run, run_failed,
  Texts, write_ctx,
}
use m365_backup.Runner.Life.Errors.{Error, is_cancel_err}
use m365_backup.Runner.Life.Rows.{RowIs, RowIs-replace, write_inactive, write_inactive_at}
use m365_backup.Runner.Life.Ending.{cancelled_copy, finish_cancelled-jobs}

no_conflict :
    (jobs : List Job) (row : Job)
    → any (active_for row.tenant_id row.service) jobs ≡ false
    → any (conflicts row) jobs ≡ false
unfolding any
no_conflict [] row h = refl
no_conflict (j ∷ js) row h = ground (arith, no_conflict js row)

-- An UPDATE of a row whose service has no active job is never refused.
write_free :
    (jobs : List Job) (j old : Job)
    → RowIs jobs j.id old
    → any (active_for old.tenant_id old.service) jobs ≡ false
    → RowIs (update_or_ignore jobs j) j.id (update_row j old)
unfolding update_or_ignore update_job update_row
write_free jobs j old found free = ground (
  arith,
  RowIs-replace (update_row j) j.id jobs old (λ r. refl) found,
  no_conflict jobs (update_row j old) free,
)

not_cancelled :
    (w : World) (id : Text) (row : Job)
    → RowIs w.jobs id row
    → row.status ≡ running
    → was_cancelled w id ≡ false
unfolding was_cancelled get_job
not_cancelled w id row found h = ground arith

not_cancelled_error :
    (w : World) (id : Text) (row : Job)
    → RowIs w.jobs id row
    → row.status ≡ error
    → was_cancelled w id ≡ false
unfolding was_cancelled get_job
not_cancelled_error w id row found h = ground arith

start_run-jobs :
    (w : World) (j : Job) (now : Time)
    → contains w.signalled j.id ≡ false
    → (start_run w j now).0.jobs
      ≡ update_or_ignore w.jobs (record j { status = running; started_at = now })
unfolding start_run write_ctx
start_run-jobs w j now sig = ground arith

-- runJob looks at the status before it waits for the service's gate, and then writes `running`
-- from its own copy. A job that is cancelled in between is running again: the write succeeds
-- whenever no other job of the service is active, and its context is not cancelled, since Cancel
-- found no cancel function.
pub start_run-revives :
    (w : World) (j old : Job) (now : Time)
    → RowIs w.jobs j.id old
    → was_cancelled w j.id ≡ true
    → contains w.signalled j.id ≡ false
    → any (active_for old.tenant_id old.service) w.jobs ≡ false
    → was_cancelled (start_run w j now).0 j.id ≡ false
      × ((row : Job) × RowIs (start_run w j now).0.jobs j.id row × (row.status ≡ running))
start_run-revives w j old now found c sig free =
    let j1 : Job = record j { status = running; started_at = now } in
    let row : RowIs (start_run w j now).0.jobs j.id (update_row j1 old) =
      ap (λ (js : List Job). find_if (has_id j.id) js) (start_run-jobs w j now sig)
      ∙ write_free w.jobs j1 old found free in
    (
      not_cancelled (start_run w j now).0 j.id (update_row j1 old) row (unfold update_row in refl),
      (update_row j1 old, row, unfold update_row in refl),
    )

killed_copy : Job → Text → Text → Time → Job
killed_copy old reason detail now = record old {
  status = error;
  error_message = reason;
  finished_at = now;
  progress_message = detail;
}

kill_stale-jobs :
    (w : World) (old : Job) (id reason detail : Text) (now : Time)
    → RowIs w.jobs id old
    → old.status ≡ running
    → (kill_stale w id reason detail now).jobs
      ≡ update_or_ignore w.jobs (killed_copy old reason detail now)
unfolding kill_stale get_job status_eq killed_copy
kill_stale-jobs w old id reason detail now found run = ground arith

after_run-cancel :
    (w : World) (j : Job) (e : Error) (t : Texts)
    → is_cancel_err e ≡ true
    → (after_run w j (run_failed e) t).0 ≡ finish_cancelled w j cancelled_by_user t.now
unfolding after_run
after_run-cancel w j e t h = ground arith

-- A run that the watchdog killed, and that ends with the error of its cancelled context, has its
-- status `error` and the watchdog's reason overwritten by `cancelled` and "cancelled by user".
pub kill_stale-overwritten :
    (w : World) (j old : Job) (reason detail : Text) (now : Time) (e : Error) (t : Texts)
    → RowIs w.jobs j.id old
    → old.status ≡ running
    → is_cancel_err e ≡ true
    → (row : Job) × RowIs
        (after_run (kill_stale w j.id reason detail now) j (run_failed e) t).0.jobs
        j.id
        row
      × (row.status ≡ cancelled)
      × (row.error_message ≡ cancelled_by_user)
unfolding killed_copy update_row is_active_status
kill_stale-overwritten w j old reason detail now e t found run ctx =
    let k = kill_stale w j.id reason detail now in
    let own : old.id ≡ j.id = same-eq old.id j.id (find_if_holds (has_id j.id) w.jobs old found) in
    let killed = update_row (killed_copy old reason detail now) old in
    let at_kill : RowIs k.jobs j.id killed =
      ap (λ (js : List Job). find_if (has_id j.id) js)
        (kill_stale-jobs w old j.id reason detail now found run)
      ∙ write_inactive_at w.jobs (killed_copy old reason detail now) old j.id own found refl in
    let still = not_cancelled_error k j.id killed at_kill refl in
    let last = cancelled_copy j cancelled_by_user t.now in
    (
      update_row last killed,
      ap (λ (v : World). find_if (has_id j.id) v.jobs) (after_run-cancel k j e t ctx)
          ∙ ap (λ (js : List Job). find_if (has_id j.id) js)
              (finish_cancelled-jobs k j cancelled_by_user t.now ∙ rw still refl)
          ∙ write_inactive k.jobs last killed at_kill refl,
      refl,
      refl,
    )
