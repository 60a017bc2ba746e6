-- ===== src/Tests/Times.antt =====
-- The schedules of a tenant and the end of its secret at concrete inputs.
use m365_backup.Base.{
  ℕ, ◌+◌, ◌*◌, ◌≡◌, refl, Bool, true, false, Option, none, some, List, [], ◌∷◌, ◌++◌, Text, codes,
  all, any, contains, same, map, lower, keep_if, leb, ltb, if◌then◌else◌,
}
use m365_backup.Clock.{day_ns}
use m365_backup.Runner.Enqueue.{Schedule}
use m365_backup.Schedules.{default_schedules, ensure_default_schedules}
use m365_backup.Schedules.Defaults.{is_for_service, Extends, ensure_default_schedules-Extends}
use m365_backup.Notify.Expiry.{
  key_expired, key_expiry_7d, key_expiry_30d, notice_of, notice_of-exact,
}

abbrev tenant : Text
tenant = codes "t1"

abbrev new_id : Text → Text
new_id service = codes "n-" ++ service

abbrev old_id : Text → Text
old_id service = codes "o-" ++ service

abbrev teams_row : Schedule
teams_row = record {
  id = codes "s1";
  tenant_id = tenant;
  service = codes "Teams";
  cron_expr = codes "5 5 * * *";
  enabled = false;
  last_run = 0;
  next_run = 0;
  created_at = 1;
}

abbrev filled_rows : List Schedule
filled_rows = (ensure_default_schedules (teams_row ∷ []) tenant new_id 3).0

ensure_default_schedules-Extends_example :
    Extends (teams_row ∷ []) filled_rows
    × (all (λ d. any (is_for_service tenant d.service) filled_rows) default_schedules ≡ true)
    × (ensure_default_schedules filled_rows tenant old_id 9 ≡ (filled_rows, true))
unfolding ensure_default_schedules keep_if m365_backup.Base.to_lower
ensure_default_schedules-Extends_example =
    ensure_default_schedules-Extends (teams_row ∷ []) filled_rows tenant new_id old_id 3 9 refl

-- Five hours after the end.
notice_of-exact_example : notice_of (9 * day_ns) (9 * day_ns + 18000000000000) ≡ (
    if leb (9 * day_ns + day_ns) (9 * day_ns + 18000000000000)
    then some key_expired
    else if ltb (9 * day_ns) (9 * day_ns + 18000000000000 + 8 * day_ns)
    then some key_expiry_7d
    else if ltb (9 * day_ns) (9 * day_ns + 18000000000000 + 31 * day_ns)
    then some key_expiry_30d
    else none)
notice_of-exact_example = notice_of-exact (9 * day_ns) (9 * day_ns + 18000000000000)
