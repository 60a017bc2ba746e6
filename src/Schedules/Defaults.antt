-- ===== src/Schedules/Defaults.antt =====
-- internal/tenant/manager.go: the rows that EnsureDefaultSchedules leaves.
use m365_backup.Base.{
  ◌≡◌, ◌∙◌, refl, sym, Bool, true, false, not, ◌&&◌, ◌||◌, Option, none, some, List, [], ◌∷◌, ◌++◌,
  map, Text, codes, arith, is_empty, same, same-eq, same_refl, contains, lower, any, all,
  false≢true_lem, any-append, append_assoc, append-nil, keep_if, if◌then◌else◌, Bool-cases,
  Option-cases, inl, inr,
}
use m365_backup.Clock.{Time}
use m365_backup.Runner.Enqueue.{Schedule}
use m365_backup.Schedules.{
  DefaultSchedule, default_schedules, lower_service, schedule_of, create_schedule, list_schedules,
  create_missing, ensure_default_schedules,
}

-- A row of the tenant for a service, in any case of letters.
abbrev pub is_for_service : Text → Text → Schedule → Bool
is_for_service tenant service s = same s.tenant_id tenant && same (lower s.service) service

-- The old rows stand at the front, as they were.
pub record Extends (rows rows' : List Schedule) : Type 0 where
  pub added : List Schedule
  pub whole : rows' ≡ rows ++ added

-- The row that is added.
create_schedule-row :
    (rows rows' : List Schedule) (tenant uuid : Text) (d : DefaultSchedule) (now : Time)
    → create_schedule rows (schedule_of tenant d) uuid now ≡ some rows'
    → rows' ≡ rows ++ record (schedule_of tenant d) { id = uuid; created_at = now } ∷ []
unfolding create_schedule
create_schedule-row rows rows' tenant uuid d now h = ground arith

-- Whether a default schedule had a row before, or has one now.
abbrev is_covered : List Text → Text → List Schedule → DefaultSchedule → Bool
is_covered existing tenant rows d =
    contains existing d.service || any (is_for_service tenant d.service) rows

abbrev is_lower : DefaultSchedule → Bool
is_lower d = same (lower d.service) d.service

module _ (existing : List Text) (tenant : Text) (uuid : Text → Text) (now : Time) where
  row_of : DefaultSchedule → Schedule
  row_of d = record (schedule_of tenant d) { id = uuid d.service; created_at = now }

  -- The three ways of one round.
  data Round (d : DefaultSchedule) (ds : List DefaultSchedule) (rows : List Schedule) : Type 0 where
    had :
        contains existing d.service ≡ true
        → create_missing existing tenant uuid now (d ∷ ds) rows
          ≡ create_missing existing tenant uuid now ds rows
        → Round d ds rows
    failed : create_missing existing tenant uuid now (d ∷ ds) rows ≡ (rows, false) → Round d ds rows
    made :
        create_missing existing tenant uuid now (d ∷ ds) rows
          ≡ create_missing existing tenant uuid now ds (rows ++ row_of d ∷ [])
        → Round d ds rows

  round : (d : DefaultSchedule) (ds : List DefaultSchedule) (rows : List Schedule) → Round d ds rows
  unfolding create_missing row_of
  round d ds rows = elim (Bool-cases (contains existing d.service)) [
    | inl e ↦ had e (rw e refl)
    | inr e ↦
        elim (Option-cases (create_schedule rows (schedule_of tenant d) (uuid d.service) now)) [
          | inl n ↦ failed (rw (e, n) refl)
          | inr (rows', n) ↦
              made (rw (e, n, create_schedule-row rows rows' tenant (uuid d.service) d now n) refl)
        ]
  ]

  create_missing-Extends :
      (ds : List DefaultSchedule) (rows : List Schedule)
      → Extends rows (create_missing existing tenant uuid now ds rows).0
  unfolding create_missing
  create_missing-Extends [] rows = record { added = []; whole = ground (arith, append-nil rows) }
  create_missing-Extends (d ∷ ds) rows = elim (round d ds rows) [
    | had e h ↦ extended h (create_missing-Extends ds rows)
    | failed h ↦ extended h (record { added = []; whole = ground (arith, append-nil rows) })
    | made h ↦
        let later = create_missing-Extends ds (rows ++ row_of d ∷ []) in
        extended h (record {
          added = (row_of d ∷ []) ++ later.added;
          whole = later.whole ∙ append_assoc rows (row_of d ∷ []) later.added;
        })
  ]
    where
      extended :
          {a b : List Schedule × Bool} {r : List Schedule} → a ≡ b → Extends r b.0 → Extends r a.0
      extended h x = rw h x

  row_found :
      (d : DefaultSchedule) (ds : List DefaultSchedule) (rows : List Schedule)
      → is_lower d ≡ true
      → any
          (is_for_service tenant d.service)
          (create_missing existing tenant uuid now ds (rows ++ row_of d ∷ [])).0
        ≡ true
  unfolding any row_of
  row_found d ds rows low =
      let x = create_missing-Extends ds (rows ++ row_of d ∷ []) in
      let p = is_for_service tenant d.service in
      rw x.whole (
        ground (
          arith,
          any-append p (rows ++ row_of d ∷ []) x.added,
          any-append p rows (row_of d ∷ []),
          same_refl tenant,
        ))

  create_missing-covers :
      (ds : List DefaultSchedule) (rows : List Schedule) (r : List Schedule × Bool)
      → create_missing existing tenant uuid now ds rows ≡ r
      → all is_lower ds ≡ true
      → r.1 ≡ true
      → all (is_covered existing tenant r.0) ds ≡ true
  unfolding all
  create_missing-covers [] rows r e low h = refl
  create_missing-covers (d ∷ ds) rows r e low h = elim (round d ds rows) [
    | had x k ↦ ground (arith, create_missing-covers ds rows r (sym k ∙ e))
    | failed k ↦ absurd (false≢true_lem h (rw (← e, k) refl))
    | made k ↦
        let found = rw (sym k ∙ e) at (row_found d ds rows (ground arith)) in
        ground (arith, found, create_missing-covers ds (rows ++ row_of d ∷ []) r (sym k ∙ e))
  ]

  create_missing-idle :
      (ds : List DefaultSchedule) (rows : List Schedule)
      → all (λ d. contains existing d.service) ds ≡ true
      → create_missing existing tenant uuid now ds rows ≡ (rows, true)
  unfolding create_missing all
  create_missing-idle [] rows h = refl
  create_missing-idle (d ∷ ds) rows h = ground (arith, create_missing-idle ds rows)

services_of :
    (tenant service : Text) (rows : List Schedule)
    → contains (map lower_service (list_schedules rows tenant)) service
      ≡ any (is_for_service tenant service) rows
unfolding contains list_schedules keep_if any
services_of tenant service [] = refl
services_of tenant service (r ∷ rs) = ground (arith, services_of tenant service rs)

all_present :
    (tenant : Text) (rows rows' : List Schedule) (ds : List DefaultSchedule)
    → Extends rows rows'
    → all (is_covered (map lower_service (list_schedules rows tenant)) tenant rows') ds ≡ true
    → all (λ d. any (is_for_service tenant d.service) rows') ds ≡ true
unfolding all
all_present tenant rows rows' [] x h = refl
all_present tenant rows rows' (d ∷ ds) x h =
    let p = is_for_service tenant d.service in
    ground (arith, all_present tenant rows rows' ds x, services_of tenant d.service rows, kept p x)
  where
    kept : (p : Schedule → Bool) → Extends rows rows' → any p rows ≡ true → any p rows' ≡ true
    kept p y a = rw y.whole (ground (arith, any-append p rows y.added))

as_existing :
    (tenant : Text) (rows : List Schedule) (ds : List DefaultSchedule)
    → all (λ d. any (is_for_service tenant d.service) rows) ds ≡ true
    → all (λ d. contains (map lower_service (list_schedules rows tenant)) d.service) ds ≡ true
unfolding all
as_existing tenant rows [] h = refl
as_existing tenant rows (d ∷ ds) h =
    ground (arith, as_existing tenant rows ds, services_of tenant d.service rows)

-- When EnsureDefaultSchedules gives no error, the rows that were there stand unchanged before those
-- that are new, the tenant has a row for each of the five default services, and a second call, at
-- any time, changes nothing.
pub ensure_default_schedules-Extends :
    (rows rows' : List Schedule) (tenant : Text) (uuid uuid' : Text → Text) (now later : Time)
    → ensure_default_schedules rows tenant uuid now ≡ (rows', true)
    → Extends rows rows'
      × (all (λ d. any (is_for_service tenant d.service) rows') default_schedules ≡ true)
      × (ensure_default_schedules rows' tenant uuid' later ≡ (rows', true))
unfolding ensure_default_schedules all m365_backup.Base.to_lower
ensure_default_schedules-Extends rows rows' tenant uuid uuid' now later h =
    let existing = map lower_service (list_schedules rows tenant) in
    let x : Extends rows rows' =
      extended (create_missing-Extends existing tenant uuid now default_schedules rows) in
    let there = all_present tenant rows rows' default_schedules x (
      create_missing-covers existing tenant uuid now default_schedules rows (rows', true) h refl
        refl) in
    (
      x,
      there,
      create_missing-idle (map lower_service (list_schedules rows' tenant)) tenant uuid' later
          default_schedules rows' (as_existing tenant rows' default_schedules there),
    )
  where
    extended : Extends rows (ensure_default_schedules rows tenant uuid now).0 → Extends rows rows'
    extended y = rw h at y
