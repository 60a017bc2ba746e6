-- ===== src/Runner/Enqueue/FanOut.antt =====
-- internal/backup/job.go: the full syncs that the first job of an empty tenant brings with it.
use m365_backup.Base.{
  ◌≡◌, refl, inl, inr, Bool, true, false, not, some, List, [], ◌∷◌, ◌++◌, map, Text, arith, same,
  same-eq, same_refl, any, any-append, count_if-zero, is_empty, contains, keep_if, ltb, Bool-cases,
  Option-cases,
}
use m365_backup.Jobs.{Job, has_id, is_active_status, active_for, count_active_jobs, full}
use m365_backup.Tokens.{DeltaToken, of_service, delete_delta_tokens}
use m365_backup.Runner.{World}
use m365_backup.Runner.Enqueue.{
  Env, Request, Schedule, done, job_of, admit, promote, enqueue_locked, full_request, fan_out,
  enqueue_params, enabled_graph_services, is_extra, service_of, is_graph_backup_service,
}
use m365_backup.Runner.Enqueue.Admission.{insert_job-fresh, idle, row_of}
use m365_backup.Runner.Enqueue.Outcome.{enqueue_locked-cases, enqueue_params-Granted}

-- Every UUID is new in the table that it is drawn for.
abbrev pub Supply : Env → Type 0
Supply e = (jobs : List Job) → any (has_id (e.uuid jobs)) jobs ≡ false

enqueue_locked-grows :
    (e : Env) (w : World) (q : Request) (b : Bool) (p : Job → Bool)
    → Supply e
    → any p w.jobs ≡ true
    → any p (enqueue_locked e w q b).0.jobs ≡ true
enqueue_locked-grows e w q b p s h = elim (enqueue_locked-cases e w q b (s w.jobs)) [
  | inl (x, r) ↦ rw r h
  | inr (w', row, extras, r, granted, made) ↦
      rw (r, granted.added) (ground (arith, any-append p w.jobs (row ∷ [])))
]

fan_out-grows :
    (e : Env) (w : World) (tenant : Text) (svcs : List Text) (p : Job → Bool)
    → Supply e
    → any p w.jobs ≡ true
    → any p (fan_out e w tenant svcs).jobs ≡ true
unfolding fan_out
fan_out-grows e w tenant [] p s h = h
fan_out-grows e w tenant (svc ∷ svcs) p s h =
    fan_out-grows e (enqueue_locked e w (full_request tenant svc) false).0 tenant svcs p s
      (enqueue_locked-grows e w (full_request tenant svc) false p s h)

delete-some :
    (rows : List DeltaToken) (tenant service : Text)
    → is_empty tenant ≡ false
    → is_empty service ≡ false
    → (rest : List DeltaToken) × (delete_delta_tokens rows tenant service ≡ some rest)
unfolding delete_delta_tokens
delete-some rows tenant service h k =
    (keep_if (λ r. not (of_service tenant service r)) rows, ground arith)

busy-active :
    (jobs : List Job) (tenant service : Text)
    → is_empty service ≡ false
    → ltb 0 (count_active_jobs jobs tenant service) ≡ true
    → any (active_for tenant service) jobs ≡ true
unfolding count_active_jobs
busy-active jobs tenant service n h = elim (Bool-cases (any (active_for tenant service) jobs)) [
  | inl yes_active ↦ yes_active
  | inr idle_now ↦ absurd (ground (arith, count_if-zero (active_for tenant service) jobs idle_now))
]

-- The row of a granted full request is active for its service.
row_active :
    (e : Env) (w : World) (tenant svc : Text)
    → active_for tenant svc (row_of e w (full_request tenant svc) full) ≡ true
unfolding job_of is_active_status
row_active e w tenant svc = ground (arith, same_refl tenant, same_refl svc)

free_step :
    (e : Env) (w : World) (tenant svc : Text) (tokens : List DeltaToken)
    → Supply e
    → ltb 0 (count_active_jobs w.jobs tenant svc) ≡ false
    → delete_delta_tokens w.tokens tenant svc ≡ some tokens
    → (enqueue_locked e w (full_request tenant svc) false).0.jobs
      ≡ w.jobs ++ row_of e w (full_request tenant svc) full ∷ []
unfolding enqueue_locked promote admit
free_step e w tenant svc tokens s free left = ground (
  arith,
  same_refl full,
  insert_job-fresh e (record w { tokens = tokens }) (full_request tenant svc) full (s w.jobs)
      (idle w.jobs tenant svc free),
)

busy_step :
    (e : Env) (w : World) (tenant svc : Text)
    → ltb 0 (count_active_jobs w.jobs tenant svc) ≡ true
    → (enqueue_locked e w (full_request tenant svc) false).0 ≡ w
unfolding enqueue_locked promote admit
busy_step e w tenant svc busy = ground arith

-- The call for one extra service leaves an active job of that service, old or new.
step_active :
    (e : Env) (w : World) (tenant svc : Text)
    → Supply e
    → is_empty tenant ≡ false
    → is_empty svc ≡ false
    → any (active_for tenant svc) (enqueue_locked e w (full_request tenant svc) false).0.jobs ≡ true
unfolding any
step_active e w tenant svc s t n = elim (Bool-cases (ltb 0 (count_active_jobs w.jobs tenant svc))) [
  | inl busy ↦ rw (busy_step e w tenant svc busy) (busy-active w.jobs tenant svc n busy)
  | inr free ↦
      let (tokens, left) = delete-some w.tokens tenant svc t n in
      rw (free_step e w tenant svc tokens s free left) (
        ground (
          arith,
          any-append (active_for tenant svc) w.jobs
              (row_of e w (full_request tenant svc) full ∷ []),
          row_active e w tenant svc,
        ))
]

fan_out-active :
    (e : Env) (w : World) (tenant svc : Text) (svcs : List Text)
    → Supply e
    → is_empty tenant ≡ false
    → is_empty svc ≡ false
    → contains svcs svc ≡ true
    → any (active_for tenant svc) (fan_out e w tenant svcs).jobs ≡ true
unfolding fan_out contains
fan_out-active e w tenant svc [] s t n h = absurd (cc)
fan_out-active e w tenant svc (x ∷ xs) s t n h = elim (Bool-cases (same x svc)) [
  | inl e1 ↦ rw (same-eq x svc e1) (
      fan_out-grows e (enqueue_locked e w (full_request tenant svc) false).0 tenant xs
        (active_for tenant svc) s (step_active e w tenant svc s t n))
  | inr e1 ↦
      fan_out-active e (enqueue_locked e w (full_request tenant x) false).0 tenant svc xs s t n
        (ground arith)
]

graph_service-named : (svc : Text) → is_graph_backup_service svc ≡ true → is_empty svc ≡ false
unfolding is_graph_backup_service contains same
graph_service-named [] h = absurd (cc)
graph_service-named (c ∷ s) h = refl

extra-graph :
    (except svc : Text) (list : List Schedule)
    → contains (map service_of (keep_if (is_extra except) list)) svc ≡ true
    → is_graph_backup_service svc ≡ true
unfolding contains keep_if
extra-graph except svc [] h = absurd (cc)
extra-graph except svc (x ∷ xs) h = elim (Bool-cases (is_extra except x)) [
  | inl extra ↦ elim (Bool-cases (same x.service svc)) [
    | inl e ↦ rw (← same-eq x.service svc e) (ground arith)
    | inr e ↦ extra-graph except svc xs (ground arith)
  ]
  | inr extra ↦ extra-graph except svc xs (ground arith)
]

promote-extras :
    (e : Env) (q : Request) (job_type svc : Text) (extras : List Text)
    → promote e q true ≡ done (job_type, extras)
    → contains extras svc ≡ true
    → (list : List Schedule) × (extras ≡ map service_of (keep_if (is_extra q.service) list))
unfolding promote enabled_graph_services contains
promote-extras e q job_type svc extras p h = elim (Option-cases (e.schedules q.tenant_id)) [
  | inl n ↦ absurd (ground arith)
  | inr (list, l) ↦ (list, ground arith)
]

-- When a call queues a job, each extra service that the survey of the stores names has an active
-- job of the tenant afterwards, provided that new UUIDs are never in use and the tenant's ID is
-- not empty.
pub enqueue_params-fan_out :
    (e : Env) (w : World) (q : Request) (row : Job) (job_type svc : Text) (extras : List Text)
    → Supply e
    → is_empty q.tenant_id ≡ false
    → (enqueue_params e w q).1 ≡ done row
    → promote e q true ≡ done (job_type, extras)
    → contains extras svc ≡ true
    → any (active_for q.tenant_id svc) (enqueue_params e w q).0.jobs ≡ true
enqueue_params-fan_out e w q row job_type svc extras s t h p c =
    let g = enqueue_params-Granted e w q row (s w.jobs) h in
    let same_extras : g.1 ≡ extras = cc (g.3, p) in
    let (list, l) = promote-extras e q job_type svc extras p c in
    let named = graph_service-named svc (extra-graph q.service svc list (rw l at c)) in
    rw (g.4, same_extras) (fan_out-active e g.0 q.tenant_id svc extras s t named c)
