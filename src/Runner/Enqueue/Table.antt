-- ===== src/Runner/Enqueue/Table.antt =====
-- internal/backup/job.go: the jobs table under EnqueueParams.
use m365_backup.Base.{
  ◌≡◌, refl, ◌⊎◌, inl, inr, Bool, true, false, List, [], ◌∷◌, Text, arith, same, ltb, Bool-cases,
  Option-cases,
}
use m365_backup.Jobs.{
  Job, DbResult, ok, err, no_rows, unique_violation, create_job, count_active_jobs,
  count_active_full_jobs, full,
}
use m365_backup.Jobs.Active.{IsTable, create_job-IsTable}
use m365_backup.Tokens.{DeltaToken, delete_delta_tokens}
use m365_backup.Runner.{World}
use m365_backup.Runner.Enqueue.{
  Env, Request, Enqueued, done, refused, job_of, insert_job, admit, promote, with_extras,
  enqueue_locked, full_request, fan_out, finish_enqueue, enqueue_params,
}
use m365_backup.Runner.Enqueue.Outcome.{Enqueued-cases}

pub insert_job-IsTable :
    (e : Env) (w : World) (j : Job) → IsTable w.jobs → IsTable (insert_job e w j).0.jobs
unfolding insert_job
insert_job-IsTable e w j t = by_result (create_job w.jobs j (e.uuid w.jobs) e.now) refl
  where
    by_result :
        (r : DbResult (Job × List Job))
        → create_job w.jobs j (e.uuid w.jobs) e.now ≡ r
        → IsTable (insert_job e w j).0.jobs
    by_result (err unique_violation) h = rw (h, insert_job) t
    by_result (err no_rows) h = rw (h, insert_job) t
    by_result (ok (row, jobs)) h =
        rw (h, insert_job) (create_job-IsTable w.jobs j (e.uuid w.jobs) e.now row jobs t h)

admit-state :
    (e : Env) (w : World) (q : Request) (job_type : Text)
    → ((admit e w q job_type).0 ≡ w)
      ⊎ ((tokens : List DeltaToken) × ((admit e w q job_type).0
            ≡ (insert_job e (record w { tokens = tokens }) (job_of q job_type)).0))
unfolding admit
admit-state e w q job_type =
    elim (Bool-cases (ltb 0 (count_active_jobs w.jobs q.tenant_id q.service))) [
      | inl busy ↦ inl (ground arith)
      | inr free ↦ elim (Bool-cases (same job_type full)) [
        | inl is_full ↦ elim (Option-cases (delete_delta_tokens w.tokens q.tenant_id q.service)) [
          | inl n ↦ inl (ground arith)
          | inr (tokens, s) ↦ inr (tokens, ground arith)
        ]
        | inr not_full ↦ elim (Bool-cases (ltb 0 (count_active_full_jobs w.jobs q.tenant_id))) [
          | inl syncing ↦ inl (ground arith)
          | inr calm ↦ inr (w.tokens, ground arith)
        ]
      ]
    ]

admit-IsTable :
    (e : Env) (w : World) (q : Request) (job_type : Text)
    → IsTable w.jobs
    → IsTable (admit e w q job_type).0.jobs
admit-IsTable e w q job_type t = elim (admit-state e w q job_type) [
  | inl s ↦ rw s t
  | inr (tokens, s) ↦
      rw s (insert_job-IsTable e (record w { tokens = tokens }) (job_of q job_type) t)
]

with_extras-state : (extras : List Text) (r : World × Enqueued Job) → (with_extras extras r).0 ≡ r.0
unfolding with_extras
with_extras-state extras (w, done job) = refl
with_extras-state extras (w, refused x) = refl

enqueue_locked-state :
    (e : Env) (w : World) (q : Request) (b : Bool)
    → ((enqueue_locked e w q b).0 ≡ w)
      ⊎ ((job_type : Text) × ((enqueue_locked e w q b).0 ≡ (admit e w q job_type).0))
unfolding enqueue_locked
enqueue_locked-state e w q b = elim (Enqueued-cases (promote e q b)) [
  | inl (x, p) ↦ inl (ground arith)
  | inr ((job_type, extras), p) ↦
      inr (job_type, ground (arith, with_extras-state extras (admit e w q job_type)))
]

enqueue_locked-IsTable :
    (e : Env) (w : World) (q : Request) (b : Bool)
    → IsTable w.jobs
    → IsTable (enqueue_locked e w q b).0.jobs
enqueue_locked-IsTable e w q b t = elim (enqueue_locked-state e w q b) [
  | inl s ↦ rw s t
  | inr (job_type, s) ↦ rw s (admit-IsTable e w q job_type t)
]

fan_out-IsTable :
    (e : Env) (w : World) (tenant : Text) (svcs : List Text)
    → IsTable w.jobs
    → IsTable (fan_out e w tenant svcs).jobs
unfolding fan_out
fan_out-IsTable e w tenant [] t = t
fan_out-IsTable e w tenant (svc ∷ svcs) t =
    fan_out-IsTable e (enqueue_locked e w (full_request tenant svc) false).0 tenant svcs
      (enqueue_locked-IsTable e w (full_request tenant svc) false t)

finish_enqueue-IsTable :
    (e : Env) (tenant : Text) (r : World × Enqueued (Job × List Text))
    → IsTable r.0.jobs
    → IsTable (finish_enqueue e tenant r).0.jobs
unfolding finish_enqueue
finish_enqueue-IsTable e tenant (w, done (job, extras)) t = fan_out-IsTable e w tenant extras t
finish_enqueue-IsTable e tenant (w, refused x) t = t

-- Enqueue, with its fan-out, whatever it answers, keeps the IDs of the jobs unique and leaves at
-- most one active job for each tenant and service.
pub enqueue_params-IsTable :
    (e : Env) (w : World) (q : Request) → IsTable w.jobs → IsTable (enqueue_params e w q).0.jobs
unfolding enqueue_params
enqueue_params-IsTable e w q t =
    finish_enqueue-IsTable e q.tenant_id (enqueue_locked e w q true)
      (enqueue_locked-IsTable e w q true t)
