-- ===== src/Jobs/Active.antt =====
-- internal/db/job.go: the active jobs of a tenant and service, under every
-- statement that writes the jobs table.
use m365_backup.Base.{
  ◌+◌, ◌≤◌, ◌≡◌, refl, ◌∙◌, ◌⊎◌, Bool, true, false, not, ◌&&◌, List, [], ◌∷◌, ◌++◌, some, Text,
  arith, same, same-eq, any, count_if, find_if, find_if_holds, count_if-append, count_if-zero,
  if◌then◌else◌, Bool-cases, Option-cases, inl, inr, map, &&_split,
}
use m365_backup.Clock.{Time}
use m365_backup.Jobs.{
  Job, ok, has_id, is_active, active_for, create_job, update_row, replace, conflicts, update_job,
  update_or_ignore, update_job_progress, progress_row, fail_row, fail_orphaned_jobs,
  is_active_status,
}
use m365_backup.Jobs.Keys.{
  UniqueIds, UniqueIds-append, UniqueIds-replace, UniqueIds-map, fail_row-id,
}

-- What the table's two indexes hold: no ID twice, and one active row for a tenant and service.
pub record IsTable (jobs : List Job) : Type 0 where
  pub ids : UniqueIds jobs
  pub one_active : (tenant service : Text) → count_if (active_for tenant service) jobs ≤ 1

-- The rows but the one of an ID.
abbrev others : Text → (Job → Bool) → Job → Bool
others id p j = not (has_id id j) && p j

replace_absent :
    (f : Job → Job) (id : Text) (js : List Job) → any (has_id id) js ≡ false → replace f id js ≡ js
unfolding any replace
replace_absent f id [] h = refl
replace_absent f id (j ∷ js) h = elim (Bool-cases (has_id id j)) [
  | inl e ↦ absurd (ground arith)
  | inr e ↦ rw (e, replace_absent f id js (ground arith))
]

count_absent :
    (p : Job → Bool) (id : Text) (js : List Job)
    → any (has_id id) js ≡ false
    → count_if p js ≤ count_if (others id p) js
unfolding any count_if
count_absent p id [] h = omega arith
count_absent p id (j ∷ js) h = ground (arith, count_absent p id js)

count_others-le :
    (p : Job → Bool) (id : Text) (js : List Job) → count_if (others id p) js ≤ count_if p js
unfolding count_if
count_others-le p id [] = omega arith
count_others-le p id (j ∷ js) = ground (arith, count_others-le p id js)

-- After a row's update, a count is at most that of the other rows and of the new one.
count_replace-le :
    (f : Job → Job) (p : Job → Bool) (id : Text) (js : List Job) (old : Job)
    → UniqueIds js
    → find_if (has_id id) js ≡ some old
    → count_if p (replace f id js) ≤ count_if (others id p) js + (if p (f old) then 1 else 0)
unfolding find_if count_if replace
count_replace-le f p id [] old u h = absurd (cc)
count_replace-le f p id (j ∷ js) old u h = elim (Bool-cases (has_id id j)) [
  | inl e ↦
      let absent : any (has_id id) js ≡ false = rw (same-eq j.id id e) at u.0 in
      rw (replace_absent f id js absent) (ground (arith, count_absent p id js absent))
  | inr e ↦ ground (arith, count_replace-le f p id js old u.1)
]

-- A test for the tenant and service of an active row is the test for that row's own.
active_for-own :
    (row : Job) (tenant service : Text)
    → active_for tenant service row ≡ true
    → (is_active row ≡ true) × (row.tenant_id ≡ tenant) × (row.service ≡ service)
active_for-own row tenant service h =
    let (front, same_service) =
      &&_split (is_active row && same row.tenant_id tenant) (same row.service service) h in
    let (act, same_tenant) = &&_split (is_active row) (same row.tenant_id tenant) front in
    (act, same-eq row.tenant_id tenant same_tenant, same-eq row.service service same_service)

pub create_job-ok :
    (jobs : List Job) (j : Job) (uuid : Text) (now : Time) (row : Job) (jobs' : List Job)
    → create_job jobs j uuid now ≡ ok (row, jobs')
    → (jobs' ≡ jobs ++ row ∷ [])
      × (any (has_id row.id) jobs ≡ false)
      × ((is_active row && any (active_for row.tenant_id row.service) jobs) ≡ false)
      × (row.status ≡ j.status)
      × (row.tenant_id ≡ j.tenant_id)
      × (row.service ≡ j.service)
      × (row.job_type ≡ j.job_type)
unfolding create_job
create_job-ok jobs j uuid now row jobs' h = ground arith

count_added :
    (jobs : List Job) (row : Job) (tenant service : Text)
    → IsTable jobs
    → (is_active row && any (active_for row.tenant_id row.service) jobs) ≡ false
    → count_if (active_for tenant service) (jobs ++ row ∷ []) ≤ 1
unfolding count_if
count_added jobs row tenant service t free = elim (Bool-cases (active_for tenant service row)) [
  | inl e ↦
      let (act, same_tenant, same_service) = active_for-own row tenant service e in
      let none_active : any (active_for tenant service) jobs ≡ false =
        rw (← same_tenant, ← same_service) (ground arith) in
      ground (
        arith,
        count_if-append (active_for tenant service) jobs (row ∷ []),
        count_if-zero (active_for tenant service) jobs none_active,
      )
  | inr e ↦ ground (
    arith,
    count_if-append (active_for tenant service) jobs (row ∷ []),
    t.one_active tenant service,
  )
]

-- An INSERT that is admitted keeps the IDs unique and leaves at most one active job for each
-- tenant and service.
pub create_job-IsTable :
    (jobs : List Job) (j : Job) (uuid : Text) (now : Time) (row : Job) (jobs' : List Job)
    → IsTable jobs
    → create_job jobs j uuid now ≡ ok (row, jobs')
    → IsTable jobs'
create_job-IsTable jobs j uuid now row jobs' t h =
    let c = create_job-ok jobs j uuid now row jobs' h in
    rw c.0 (record {
      ids = UniqueIds-append jobs row t.ids c.1;
      one_active = λ tenant service. count_added jobs row tenant service t c.2;
    })

update_row-id : (j row : Job) → (update_row j row).id ≡ row.id
unfolding update_row
update_row-id j row = refl

count_updated :
    (jobs : List Job) (j old : Job) (tenant service : Text)
    → IsTable jobs
    → find_if (has_id j.id) jobs ≡ some old
    → (is_active (update_row j old) && any (conflicts (update_row j old)) jobs) ≡ false
    → count_if (active_for tenant service) (replace (update_row j) j.id jobs) ≤ 1
count_updated jobs j old tenant service t found free =
    let row = update_row j old in
    let bound =
      count_replace-le (update_row j) (active_for tenant service) j.id jobs old t.ids found in
    elim (Bool-cases (active_for tenant service row)) [
      | inl e ↦
          let (act, same_tenant, same_service) = active_for-own row tenant service e in
          let own : row.id ≡ j.id =
            update_row-id j old
            ∙ same-eq old.id j.id (find_if_holds (has_id j.id) jobs old found) in
          let none_active : any (others j.id (active_for tenant service)) jobs ≡ false =
            rw (← same_tenant, ← same_service, ← own) (ground arith) in
          ground
            (arith, bound, count_if-zero (others j.id (active_for tenant service)) jobs none_active)
      | inr e ↦ ground (
        arith,
        bound,
        count_others-le (active_for tenant service) j.id jobs,
        t.one_active tenant service,
      )
    ]

abbrev is_free : List Job → Job → Bool
is_free jobs row = not (is_active row && any (conflicts row) jobs)

-- What an UPDATE does: nothing, or a new version of the one row that has the ID.
pub update_or_ignore-cases :
    (jobs : List Job) (j : Job)
    → (update_or_ignore jobs j ≡ jobs)
      ⊎ ((old : Job) × (find_if (has_id j.id) jobs ≡ some old)
          × (is_free jobs (update_row j old) ≡ true)
          × (update_or_ignore jobs j ≡ replace (update_row j) j.id jobs))
unfolding update_or_ignore update_job
update_or_ignore-cases jobs j = elim (Option-cases (find_if (has_id j.id) jobs)) [
  | inl e ↦ inl (ground arith)
  | inr (old, e) ↦ elim (Bool-cases (is_free jobs (update_row j old))) [
    | inl free ↦ inr (old, e, free, ground arith)
    | inr busy ↦ inl (ground arith)
  ]
]

-- UpdateJob with any row, admitted or refused by the database, keeps the IDs unique and leaves at
-- most one active job for each tenant and service.
pub update_or_ignore-IsTable :
    (jobs : List Job) (j : Job) → IsTable jobs → IsTable (update_or_ignore jobs j)
update_or_ignore-IsTable jobs j t = elim (update_or_ignore-cases jobs j) [
  | inl same_table ↦ rw same_table t
  | inr (old, found, free, updated) ↦ rw updated (record {
    ids = UniqueIds-replace (update_row j) j.id jobs (update_row-id j) t.ids;
    one_active = λ tenant service. count_updated jobs j old tenant service t found (ground arith);
  })
]

-- An update that leaves ID, tenant, service and status of every row.
abbrev KeepsKeys : (Job → Job) → Type 0
KeepsKeys f =
    (j : Job)
    → ((f j).id ≡ j.id)
      × ((tenant service : Text) → active_for tenant service (f j) ≡ active_for tenant service j)

count-replace :
    (f : Job → Job) (id tenant service : Text) (js : List Job)
    → KeepsKeys f
    → count_if (active_for tenant service) (replace f id js)
      ≡ count_if (active_for tenant service) js
unfolding count_if replace
count-replace f id tenant service [] k = refl
count-replace f id tenant service (j ∷ js) k = elim (Bool-cases (has_id id j)) [
  | inl e ↦ rw (e, (k j).1 tenant service, count-replace f id tenant service js k)
  | inr e ↦ rw (e, count-replace f id tenant service js k)
]

-- UpdateJobProgress and UpdateJobProgressMessage keep the two indexes.
pub update_job_progress-IsTable :
    (jobs : List Job) (j : Job) → IsTable jobs → IsTable (update_job_progress jobs j)
unfolding update_job_progress progress_row
update_job_progress-IsTable jobs j t = record {
  ids = UniqueIds-replace (progress_row j) j.id jobs (λ r. refl) t.ids;
  one_active = λ tenant service.
      rw (count-replace (progress_row j) j.id tenant service jobs (λ r. (refl, λ a b. refl)))
        (t.one_active tenant service);
}

no_active-map :
    (reason : Text) (now : Time) (js : List Job)
    → any is_active (map (fail_row reason now) js) ≡ false
unfolding any fail_row is_active_status
no_active-map reason now [] = refl
no_active-map reason now (j ∷ js) = ground (arith, no_active-map reason now js)

active_for-none :
    (tenant service : Text) (js : List Job)
    → any is_active js ≡ false
    → any (active_for tenant service) js ≡ false
unfolding any
active_for-none tenant service [] h = refl
active_for-none tenant service (j ∷ js) h = ground (arith, active_for-none tenant service js)

-- After FailOrphanedJobs, at the start of the program, no job is queued or running.
pub fail_orphaned_jobs-none_active :
    (jobs : List Job) (reason : Text) (now : Time)
    → any is_active (fail_orphaned_jobs jobs reason now).0 ≡ false
unfolding fail_orphaned_jobs
fail_orphaned_jobs-none_active jobs reason now = no_active-map reason now jobs

-- FailOrphanedJobs keeps the IDs unique and the active jobs of a tenant and service at most one.
pub fail_orphaned_jobs-IsTable :
    (jobs : List Job) (reason : Text) (now : Time)
    → IsTable jobs
    → IsTable (fail_orphaned_jobs jobs reason now).0
unfolding fail_orphaned_jobs
fail_orphaned_jobs-IsTable jobs reason now t =
    let closed = map (fail_row reason now) jobs in
    record {
      ids = UniqueIds-map (fail_row reason now) jobs (fail_row-id reason now) t.ids;
      one_active = λ tenant service. omega (
        arith,
        count_if-zero (active_for tenant service) closed
            (active_for-none tenant service closed (no_active-map reason now jobs)),
      );
    }
