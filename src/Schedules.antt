-- ===== src/Schedules.antt =====
-- internal/db/job.go (the table of schedules), internal/tenant/manager.go (EnsureDefaultSchedules),
-- internal/api/router.go (applyScheduleForm) and internal/backup/scheduler.go (Reload and the
-- function that cron calls). When cron calls it is left out.
pub mod Defaults
use m365_backup.Base.{
  Bool, true, false, not, ◌&&◌, ◌||◌, Option, none, some, List, [], ◌∷◌, ◌++◌, map, Text, codes,
  is_empty, same, lower, trim_space, contains, any, find_if, keep_if, if◌then◌else◌,
}
use m365_backup.Clock.{Time}
use m365_backup.Runner.{World}
use m365_backup.Runner.Enqueue.{
  Schedule, Env, Request, EnqueueError, tenant_busy, store_error, db_error, Enqueued, done, refused,
  export_type, enqueue_params,
}
use m365_backup.Jobs.{Job}

abbrev pub schedule_id_is : Text → Schedule → Bool
schedule_id_is id s = same s.id id

-- CreateSchedule, with the UUID of a schedule that has no ID; `none` is an ID that is taken.
unfoldable pub create_schedule : List Schedule → Schedule → Text → Time → Option (List Schedule)
unfolding any same
create_schedule rows s uuid now =
    let id = if is_empty s.id then uuid else s.id in
    if any (schedule_id_is id) rows
    then none
    else some (rows ++ record s { id = id; created_at = now } ∷ [])

abbrev pub of_tenant : Text → Schedule → Bool
of_tenant tenant s = same s.tenant_id tenant

-- ListSchedules, in the order of the table.
unfoldable pub list_schedules : List Schedule → Text → List Schedule
unfolding same
list_schedules rows tenant = keep_if (of_tenant tenant) rows

abbrev is_enabled : Schedule → Bool
is_enabled s = s.enabled

-- ListAllSchedules.
unfoldable pub list_all_schedules : List Schedule → List Schedule
list_all_schedules rows = keep_if is_enabled rows

-- GetSchedule.
unfoldable pub get_schedule : List Schedule → Text → Option Schedule
unfolding same
get_schedule rows id = find_if (schedule_id_is id) rows

-- UpdateSchedule.
unfoldable pub update_schedule : List Schedule → Schedule → List Schedule
update_schedule [] s = []
update_schedule (r ∷ rs) s =
    (if schedule_id_is s.id r
      then record r {
        cron_expr = s.cron_expr;
        enabled = s.enabled;
        last_run = s.last_run;
        next_run = s.next_run;
      }
      else r)
    ∷ update_schedule rs s

pub record DefaultSchedule : Type 0 where
  pub service : Text
  pub cron_expr : Text
  pub enabled : Bool

abbrev pub default_schedules : List DefaultSchedule
default_schedules =
    record { service = codes "exchange"; cron_expr = codes "0 * * * *"; enabled = true }
    ∷ record { service = codes "onedrive"; cron_expr = codes "30 2 * * *"; enabled = true }
    ∷ record { service = codes "teams"; cron_expr = codes "0 3 * * *"; enabled = true }
    ∷ record { service = codes "sharepoint"; cron_expr = codes "30 3 * * 0"; enabled = true }
    ∷ record { service = codes "pst"; cron_expr = codes "0 5 * * 0"; enabled = false }
    ∷ []

-- DefaultCronFor.
unfoldable pub default_cron_for : Text → Option Text
unfolding same
default_cron_for service =
    elim (find_if (λ (d : DefaultSchedule). same d.service service) default_schedules) [
      | none ↦ none
      | some d ↦ some d.cron_expr
    ]

abbrev pub lower_service : Schedule → Text
lower_service s = lower s.service

abbrev pub schedule_of : Text → DefaultSchedule → Schedule
schedule_of tenant d = record {
  id = [];
  tenant_id = tenant;
  service = d.service;
  cron_expr = d.cron_expr;
  enabled = d.enabled;
  last_run = 0;
  next_run = 0;
  created_at = 0;
}

-- The loop of EnsureDefaultSchedules, with the services that the tenant has a row for, and the UUID
-- that each service's row gets; it ends at the first error, and the rows before it stay.
unfoldable pub create_missing :
    List Text
    → Text
    → (Text → Text)
    → Time
    → List DefaultSchedule
    → List Schedule
    → List Schedule × Bool
unfolding create_schedule contains
create_missing existing tenant uuid now [] rows = (rows, true)
create_missing existing tenant uuid now (d ∷ ds) rows =
    let skipped = create_missing existing tenant uuid now ds rows in
    if contains existing d.service
    then skipped
    else elim (create_schedule rows (schedule_of tenant d) (uuid d.service) now) [
      | none ↦ (rows, false)
      | some rows' ↦ create_missing existing tenant uuid now ds rows'
    ]

-- EnsureDefaultSchedules: the rows, and whether there was no error.
unfoldable pub ensure_default_schedules :
    List Schedule → Text → (Text → Text) → Time → List Schedule × Bool
unfolding create_missing list_schedules
ensure_default_schedules rows tenant uuid now =
    create_missing (map lower_service (list_schedules rows tenant)) tenant uuid now
      default_schedules rows

abbrev is_on : Text → Bool
is_on enabled = same enabled (codes "on") || same enabled (codes "true") || same enabled (codes "1")

-- applyScheduleForm; `none` is an error.
unfoldable pub apply_schedule_form :
    List Schedule → Text → Text → Text → Text → Option (List Schedule)
unfolding get_schedule default_cron_for update_schedule same
apply_schedule_form rows tenant sid cron enabled = elim (get_schedule rows sid) [
  | none ↦ none
  | some s ↦
      if not (same s.tenant_id tenant)
      then none
      else let expr = trim_space cron in
        if not (is_empty expr)
        then some (update_schedule rows (record s { cron_expr = expr; enabled = is_on enabled }))
        else elim (default_cron_for s.service) [
          | none ↦ none
          | some def ↦
              some (update_schedule rows (record s { cron_expr = def; enabled = is_on enabled }))
        ]
]

-- The schedules that cron calls after Reload, over the parser of cron expressions.
unfoldable pub reload : (Text → Bool) → List Schedule → List Schedule
unfolding list_all_schedules
reload parses rows = keep_if (λ s. parses s.cron_expr) (list_all_schedules rows)

abbrev pub scheduled_request : Schedule → Request
scheduled_request s = record {
  tenant_id = s.tenant_id;
  service = s.service;
  schedule_id = s.id;
  job_type = if same s.service (codes "pst") then export_type else codes "delta";
  params = [];
}

-- What follows Enqueue in the function that cron calls, with its own copy of the schedule.
unfoldable pub end_fire :
    Schedule → Time → List Schedule → World × Enqueued Job → World × List Schedule
unfolding update_schedule
end_fire s now rows (w, done j) = (w, update_schedule rows (record s { last_run = now }))
end_fire s now rows (w, refused tenant_busy) =
    (w, update_schedule rows (record s { last_run = now }))
end_fire s now rows (w, refused store_error) = (w, rows)
end_fire s now rows (w, refused db_error) = (w, rows)

-- The function that cron calls, with the tenant's status if it can be loaded.
unfoldable pub fire :
    Env → Schedule → Option Text → Time → World → List Schedule → World × List Schedule
unfolding enqueue_params end_fire same
fire e s none now w rows = (w, rows)
fire e s (some status) now w rows =
    if not (same status (codes "active"))
    then (w, rows)
    else end_fire s now rows (enqueue_params e w (scheduled_request s))
