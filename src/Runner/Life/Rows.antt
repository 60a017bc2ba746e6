-- ===== src/Runner/Life/Rows.antt =====
-- internal/backup/job.go: the row of a job under the writes of the runner.
use m365_backup.Base.{
  ◌≡◌, refl, ap, sym, ◌∙◌, true, false, List, [], ◌∷◌, some, Text, arith, find_if, Bool-cases, inl,
  inr,
}
use m365_backup.Jobs.{
  Job, Status, queued, running, success, warning, error, cancelled, status_eq, has_id,
  is_active_status, get_job, update_row, replace, update_job, update_or_ignore,
}
use m365_backup.Runner.{World}
use m365_backup.Runner.Life.{was_cancelled}

-- The row of a job.
abbrev pub RowIs : List Job → Text → Job → Type 0
RowIs jobs id row = find_if (has_id id) jobs ≡ some row

-- The job's row is there, and is neither queued nor running.
pub record IsClosed (jobs : List Job) (id : Text) : Type 0 where
  pub row : Job
  pub found : RowIs jobs id row
  pub closed : is_active_status row.status ≡ false

pub RowIs-replace :
    (f : Job → Job) (id : Text) (jobs : List Job) (old : Job)
    → ((j : Job) → (f j).id ≡ j.id)
    → RowIs jobs id old
    → RowIs (replace f id jobs) id (f old)
unfolding find_if replace
RowIs-replace f id [] old keep h = absurd (cc)
RowIs-replace f id (j ∷ js) old keep h = elim (Bool-cases (has_id id j)) [
  | inl e ↦ ground (arith, keep j)
  | inr e ↦ ground (arith, RowIs-replace f id js old keep)
]

-- A write of a status that is not active is never refused.
pub write_inactive :
    (jobs : List Job) (j old : Job)
    → RowIs jobs j.id old
    → is_active_status j.status ≡ false
    → RowIs (update_or_ignore jobs j) j.id (update_row j old)
unfolding update_or_ignore update_job update_row
write_inactive jobs j old found h =
    ground (arith, RowIs-replace (update_row j) j.id jobs old (λ r. refl) found)

pub write-IsClosed :
    (jobs : List Job) (j old : Job)
    → RowIs jobs j.id old
    → is_active_status j.status ≡ false
    → IsClosed (update_or_ignore jobs j) j.id
unfolding update_row
write-IsClosed jobs j old found h = record {
  row = update_row j old;
  found = write_inactive jobs j old found h;
  closed = h;
}

status_eq-cancelled : (s : Status) → status_eq s cancelled ≡ true → is_active_status s ≡ false
unfolding status_eq is_active_status
status_eq-cancelled queued h = absurd (cc)
status_eq-cancelled running h = absurd (cc)
status_eq-cancelled success h = absurd (cc)
status_eq-cancelled warning h = absurd (cc)
status_eq-cancelled error h = absurd (cc)
status_eq-cancelled cancelled h = refl

pub was_cancelled-IsClosed :
    (w : World) (id : Text) (row : Job)
    → RowIs w.jobs id row
    → was_cancelled w id ≡ true
    → IsClosed w.jobs id
unfolding was_cancelled get_job
was_cancelled-IsClosed w id row found h = record {
  row = row;
  found = found;
  closed = status_eq-cancelled row.status (ground arith);
}

-- The same at an ID that is known to be the job's.
pub write_inactive_at :
    (jobs : List Job) (j old : Job) (id : Text)
    → j.id ≡ id
    → RowIs jobs id old
    → is_active_status j.status ≡ false
    → RowIs (update_or_ignore jobs j) id (update_row j old)
write_inactive_at jobs j old id own found h =
    sym (ap (λ (x : Text). find_if (has_id x) (update_or_ignore jobs j)) own)
    ∙ write_inactive jobs j old (ap (λ (x : Text). find_if (has_id x) jobs) own ∙ found) h
