-- ===== src/Runner/Enqueue/Admission.antt =====
-- internal/backup/job.go: the checks of enqueueLocked.
use m365_backup.Base.{
  ◌≡◌, refl, ◌⊎◌, inl, inr, Bool, true, false, not, ◌&&◌, ◌||◌, Option, none, some, List, [], ◌∷◌,
  ◌++◌, Text, arith, same, any, count_if-any, is_empty, ltb, if◌then◌else◌, Bool-cases,
  Option-cases, &&_split,
}
use m365_backup.Jobs.{
  Job, queued, has_id, is_active, is_active_status, active_for, create_job, count_active_jobs,
  count_active_full_jobs, full,
}
use m365_backup.Tokens.{DeltaToken, get_delta_token, delete_delta_tokens}
use m365_backup.Tokens.Laws.{get-delete}
use m365_backup.Runner.{World}
use m365_backup.Runner.Enqueue.{
  Env, Request, EnqueueError, done, refused, tenant_busy, db_error, job_of, insert_job, admit,
}

-- The UUID is not the ID of a job in the table.
abbrev pub IsFresh : Env → World → Type 0
IsFresh e w = any (has_id (e.uuid w.jobs)) w.jobs ≡ false

-- The row that a request becomes.
abbrev pub row_of : Env → World → Request → Text → Job
row_of e w q job_type = record (job_of q job_type) { id = e.uuid w.jobs; created_at = e.now }

any_service :
    (tenant service : Text) (jobs : List Job)
    → any (λ j. same j.tenant_id tenant && is_active j) jobs ≡ false
    → any (active_for tenant service) jobs ≡ false
unfolding any
any_service tenant service [] h = refl
any_service tenant service (j ∷ js) h = ground (arith, any_service tenant service js)

-- CountActiveJobs is zero only if the unique index has no row for the tenant and service.
pub idle :
    (jobs : List Job) (tenant service : Text)
    → ltb 0 (count_active_jobs jobs tenant service) ≡ false
    → any (active_for tenant service) jobs ≡ false
unfolding count_active_jobs
idle jobs tenant service h = elim (Bool-cases (is_empty service)) [
  | inl e ↦
      any_service tenant service jobs
        (count_if-any (λ j. same j.tenant_id tenant && is_active j) jobs (ground arith))
  | inr e ↦ count_if-any (active_for tenant service) jobs (ground arith)
]

pub insert_job-fresh :
    (e : Env) (w : World) (q : Request) (job_type : Text)
    → IsFresh e w
    → any (active_for q.tenant_id q.service) w.jobs ≡ false
    → insert_job e w (job_of q job_type) ≡ (
      record w {
        jobs = w.jobs ++ row_of e w q job_type ∷ [];
        spawned = w.spawned ++ e.uuid w.jobs ∷ [];
      },
      done (row_of e w q job_type),
    )
unfolding insert_job create_job job_of is_active_status
insert_job-fresh e w q job_type fresh free = ground arith

-- Whether the checks let a request pass.
unfoldable pub is_admitted : World → Request → Text → Bool
is_admitted w q job_type =
    not (ltb 0 (count_active_jobs w.jobs q.tenant_id q.service))
    && (same job_type full || not (ltb 0 (count_active_full_jobs w.jobs q.tenant_id)))

-- The tokens after a request that the checks let pass.
unfoldable pub tokens_after : World → Request → Text → Option (List DeltaToken)
tokens_after w q job_type =
    if same job_type full then delete_delta_tokens w.tokens q.tenant_id q.service else some w.tokens

-- A call of the second part refuses and leaves the state, or queues the row.
pub admit-cases :
    (e : Env) (w : World) (q : Request) (job_type : Text)
    → IsFresh e w
    → ((x : EnqueueError) × (admit e w q job_type ≡ (w, refused x)))
      ⊎ ((tokens : List DeltaToken) × (is_admitted w q job_type ≡ true)
          × (tokens_after w q job_type ≡ some tokens)
          × (admit e w q job_type ≡ (
            record w {
              jobs = w.jobs ++ row_of e w q job_type ∷ [];
              tokens = tokens;
              spawned = w.spawned ++ e.uuid w.jobs ∷ [];
            },
            done (row_of e w q job_type),
          )))
unfolding admit is_admitted tokens_after
admit-cases e w q job_type fresh =
    elim (Bool-cases (ltb 0 (count_active_jobs w.jobs q.tenant_id q.service))) [
      | inl busy ↦ inl (tenant_busy, ground arith)
      | inr free ↦
          let no_row = idle w.jobs q.tenant_id q.service free in
          elim (Bool-cases (same job_type full)) [
            | inl is_full ↦
                elim (Option-cases (delete_delta_tokens w.tokens q.tenant_id q.service)) [
                  | inl n ↦ inl (db_error, ground arith)
                  | inr (tokens, s) ↦ inr (
                    tokens,
                    ground arith,
                    ground arith,
                    ground (
                      arith,
                      insert_job-fresh e (record w { tokens = tokens }) q job_type fresh no_row,
                    ),
                  )
                ]
            | inr not_full ↦ elim (Bool-cases (ltb 0 (count_active_full_jobs w.jobs q.tenant_id))) [
              | inl syncing ↦ inl (tenant_busy, ground arith)
              | inr calm ↦ inr (
                w.tokens,
                ground arith,
                ground arith,
                ground (arith, insert_job-fresh e w q job_type fresh no_row),
              )
            ]
          ]
    ]

-- What the checks promise of the jobs in the table.
is_admitted-idle :
    (w : World) (q : Request) (job_type : Text)
    → is_admitted w q job_type ≡ true
    → (any (active_for q.tenant_id q.service) w.jobs ≡ false)
      × ((same job_type full ≡ true) ⊎ (count_active_full_jobs w.jobs q.tenant_id ≡ 0))
unfolding is_admitted
is_admitted-idle w q job_type h =
    let (free, calm) =
      &&_split (not (ltb 0 (count_active_jobs w.jobs q.tenant_id q.service)))
        (same job_type full || not (ltb 0 (count_active_full_jobs w.jobs q.tenant_id))) h in
    (idle w.jobs q.tenant_id q.service (ground arith), ground arith)

-- A request that was granted: the state before and after, and the row.
pub record Granted (w : World) (q : Request) (w' : World) (row : Job) : Type 0 where
  pub no_active : any (active_for q.tenant_id q.service) w.jobs ≡ false
  pub no_full : (same row.job_type full ≡ true) ⊎ (count_active_full_jobs w.jobs q.tenant_id ≡ 0)
  pub is_queued : row.status ≡ queued
  pub tenant : row.tenant_id ≡ q.tenant_id
  pub service : row.service ≡ q.service
  pub added : w'.jobs ≡ w.jobs ++ row ∷ []
  pub started : w'.spawned ≡ w.spawned ++ row.id ∷ []
  pub tokens :
      (t s user : Text)
      → get_delta_token w'.tokens t s user ≡ (
          if same row.job_type full && (same t q.tenant_id && same s q.service)
          then none
          else get_delta_token w.tokens t s user)

tokens_after-get :
    (w : World) (q : Request) (job_type : Text) (tokens : List DeltaToken) (t s user : Text)
    → tokens_after w q job_type ≡ some tokens
    → get_delta_token tokens t s user ≡ (
        if same job_type full && (same t q.tenant_id && same s q.service)
        then none
        else get_delta_token w.tokens t s user)
unfolding tokens_after
tokens_after-get w q job_type tokens t s user h = elim (Bool-cases (same job_type full)) [
  | inl e ↦ rw e (get-delete w.tokens tokens q.tenant_id q.service t s user (ground arith))
  | inr e ↦ ground arith
]

pub admit-Granted :
    (e : Env) (w : World) (q : Request) (job_type : Text) (w' : World) (row : Job)
    → IsFresh e w
    → admit e w q job_type ≡ (w', done row)
    → Granted w q w' row × (row.job_type ≡ job_type)
unfolding job_of
admit-Granted e w q job_type w' row fresh h = elim (admit-cases e w q job_type fresh) [
  | inl (x, r) ↦ absurd (cc)
  | inr (tokens, passed, left, granted) ↦
      let (no_active, no_full) = is_admitted-idle w q job_type passed in
      let state : (record w {
        jobs = w.jobs ++ row_of e w q job_type ∷ [];
        tokens = tokens;
        spawned = w.spawned ++ e.uuid w.jobs ∷ [];
      })
          ≡ w' =
        cc in
      let made : row_of e w q job_type ≡ row = cc in
      rw (← state, ← made)
        (
          record {
            no_active = no_active;
            no_full = no_full;
            is_queued = refl;
            tenant = refl;
            service = refl;
            added = refl;
            started = refl;
            tokens = λ t s user. tokens_after-get w q job_type tokens t s user left;
          },
          refl,
        )
]
