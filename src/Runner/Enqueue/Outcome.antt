-- ===== src/Runner/Enqueue/Outcome.antt =====
-- internal/backup/job.go: what a call of EnqueueParams answers and does.
use m365_backup.Base.{◌≡◌, refl, ◌⊎◌, inl, inr, Bool, true, List, Text, arith}
use m365_backup.Jobs.{Job}
use m365_backup.Runner.{World}
use m365_backup.Runner.Enqueue.{
  Env, Request, EnqueueError, Enqueued, done, refused, admit, promote, enqueue_locked, fan_out,
  enqueue_params,
}
use m365_backup.Runner.Enqueue.Admission.{IsFresh, Granted, admit-cases, admit-Granted}

pub Enqueued-cases :
    {A : Type 0} (r : Enqueued A)
    → ((x : EnqueueError) × (r ≡ refused x)) ⊎ ((a : A) × (r ≡ done a))
Enqueued-cases (refused x) = inl (x, refl)
Enqueued-cases (done a) = inr (a, refl)

-- enqueueLocked refuses and leaves the state, or grants one row.
pub enqueue_locked-cases :
    (e : Env) (w : World) (q : Request) (b : Bool)
    → IsFresh e w
    → ((x : EnqueueError) × (enqueue_locked e w q b ≡ (w, refused x)))
      ⊎ ((w' : World) × (row : Job) × (extras : List Text) × (enqueue_locked e w q b
            ≡ (w', done (row, extras)))
          × Granted w q w' row
          × (promote e q b ≡ done (row.job_type, extras)))
unfolding enqueue_locked
enqueue_locked-cases e w q b fresh = elim (Enqueued-cases (promote e q b)) [
  | inl (x, p) ↦ inl (x, ground arith)
  | inr ((job_type, extras), p) ↦ elim (Enqueued-cases (admit e w q job_type).1) [
    | inl (x, r) ↦ elim (admit-cases e w q job_type fresh) [
      | inl (y, s) ↦ inl (y, ground arith)
      | inr (tokens, passed, left, s) ↦ absurd (cc)
    ]
    | inr (row, r) ↦
        let w' = (admit e w q job_type).0 in
        let (granted, same_type) = admit-Granted e w q job_type w' row fresh (ground arith) in
        inr (w', row, extras, ground arith, granted, ground arith)
  ]
]

-- A call that returns a job found no active job of the tenant and service, and no active full
-- sync of the tenant unless the job is a full sync itself. It queued exactly that job, and
-- dropped the delta tokens of the tenant and service exactly if the job is a full sync; then
-- only the full syncs of the extra services follow. The new UUID is taken not to be in use.
pub enqueue_params-Granted :
    (e : Env) (w : World) (q : Request) (row : Job)
    → IsFresh e w
    → (enqueue_params e w q).1 ≡ done row
    → (w' : World) × (extras : List Text) × Granted w q w' row
      × (promote e q true ≡ done (row.job_type, extras))
      × ((enqueue_params e w q).0 ≡ fan_out e w' q.tenant_id extras)
unfolding enqueue_params
enqueue_params-Granted e w q row fresh h = elim (enqueue_locked-cases e w q true fresh) [
  | inl (y, r) ↦ absurd (ground arith)
  | inr (w', row', extras, r, granted, p) ↦
      let made : row' ≡ row = ground arith in rw (← made) (w', extras, granted, p, ground arith)
]
