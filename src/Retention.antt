-- ===== src/Retention.antt =====
-- internal/storage/retention.go: the Smart Recycle policy and the choice of the snapshots to keep.
-- The keys of the seen-maps are lists of the numbers that the source prints into its key strings
-- ("2006-01-02" and so on), a printing that is injective. The snapshots come newest first.
pub mod Rules
pub mod Slots
pub mod Loop
pub mod Exact
pub mod Coverage
use m365_backup.Base.{
  ℕ, ◌+◌, ◌-◌, ◌*◌, ◌%◌, min, Bool, true, false, ◌&&◌, not, List, [], ◌∷◌, ◌++◌, map, Text,
  is_empty, contains, take, ltb, leb, if◌then◌else◌,
}
use m365_backup.Base.Int.{ℤ, pos, negsuc, pos_part, sub_ℕ, neg_ℕ, ltb_ℤ, div_ℤ}
use m365_backup.Clock.{Time, hour_ns, int64_mod, day_of, Date, date, iso_week}

-- engine.go, without `BytesHuman`, a rounded text of `bytes` for display.
pub record SnapshotInfo : Type 0 where
  pub id : Text
  pub created_at : Time
  pub source : Text
  pub service : Text
  pub bytes : ℕ
  pub files : ℕ

pub record RetentionPolicy : Type 0 where
  pub enabled : Bool
  pub keep_hours : ℤ
  pub keep_daily : ℤ
  pub keep_weekly : ℤ
  pub keep_monthly : ℤ
  pub keep_yearly : ℤ
  pub keep_min : ℤ
  pub pst_keep_runs : ℤ

unfoldable pub default_retention : RetentionPolicy
default_retention = record {
  enabled = true;
  keep_hours = pos 24;
  keep_daily = pos 7;
  keep_weekly = pos 4;
  keep_monthly = pos 6;
  keep_yearly = pos 2;
  keep_min = pos 3;
  pst_keep_runs = pos 5;
}

-- `if v < lo { v = lo }`
abbrev pub at_least : ℕ → ℤ → ℤ
at_least lo v = if ltb_ℤ v (pos lo) then pos lo else v

unfoldable pub normalize : RetentionPolicy → RetentionPolicy
normalize p = record p {
  keep_hours = at_least 0 p.keep_hours;
  keep_daily = at_least 0 p.keep_daily;
  keep_weekly = at_least 0 p.keep_weekly;
  keep_monthly = at_least 0 p.keep_monthly;
  keep_yearly = at_least 0 p.keep_yearly;
  keep_min = at_least 1 p.keep_min;
  pst_keep_runs = at_least 1 p.pst_keep_runs;
}

-- `json.Unmarshal` is a parameter: it gives some fields of the policy new values, or none.
unfoldable pub parse_retention_json :
    (Text → RetentionPolicy → RetentionPolicy) → Text → RetentionPolicy
unfolding normalize default_retention
parse_retention_json unmarshal s =
    if is_empty s then default_retention else normalize (unmarshal s default_retention)

-- The difference of two times is a duration, which stops at 2^63 ns: 106751 whole days.
unfoldable pub days_between : Time → Time → ℤ
days_between past now =
    let p = day_of past in
    let n = day_of now in if leb p n then pos (min (n - p) 106751) else neg_ℕ (min (p - n) 106751)

unfoldable pub weeks_between : Time → Time → ℤ
unfolding days_between
weeks_between past now = div_ℤ (days_between past now) 7

unfoldable pub months_between : Time → Time → ℤ
months_between past now =
    let p = date past in let n = date now in sub_ℕ (n.year * 12 + n.month) (p.year * 12 + p.month)

unfoldable pub years_between : Time → Time → ℤ
years_between past now = sub_ℕ (date now).year (date past).year

-- `!t.Before(now.Add(-time.Duration(hours) * time.Hour))`: the product wraps around at 2^64, and
-- from 2^63 on the duration is negative, so that the cutoff lies after `now`.
unfoldable pub in_hours : ℕ → Time → Time → Bool
in_hours hours now t =
    let m = hours * hour_ns % int64_mod in
    if leb m 9223372036854775808 then not (ltb (t + m) now) else not (ltb t (now + (int64_mod - m)))

abbrev pub Key : Type 0
Key = Text

unfoldable pub day_key : Time → Key
day_key t = let d = date t in d.year ∷ d.month ∷ d.day ∷ []

unfoldable pub week_key : Time → Key
week_key t = let (y, w) = iso_week t in y ∷ w ∷ []

unfoldable pub month_key : Time → Key
month_key t = let d = date t in d.year ∷ d.month ∷ []

unfoldable pub year_key : Time → Key
year_key t = (date t).year ∷ []

-- `limit > 0 && age < limit`
unfoldable pub within : ℤ → ℤ → Bool
within age limit = ltb_ℤ (pos 0) limit && ltb_ℤ age limit

-- The maps of the main loop.
pub record Seen : Type 0 where
  pub days : List Key
  pub weeks : List Key
  pub months : List Key
  pub years : List Key
  pub keep : List Text

-- One of the four `if` statements of the loop, over its seen-map and the keep set.
unfoldable pub visit_slot : Bool → Key → Text → List Key → List Text → List Key × List Text
visit_slot due key id seen keep =
    if due && not (contains seen key) then (key ∷ seen, id ∷ keep) else (seen, keep)

-- The loop's body.
unfoldable pub visit : RetentionPolicy → Time → Seen → SnapshotInfo → Seen
visit p now s sn =
    let t = sn.created_at in
    let (days, keep1) =
      visit_slot (within (days_between t now) p.keep_daily) (day_key t) sn.id s.days s.keep in
    let (weeks, keep2) =
      visit_slot (within (weeks_between t now) p.keep_weekly) (week_key t) sn.id s.weeks keep1 in
    let (months, keep3) =
      visit_slot (within (months_between t now) p.keep_monthly) (month_key t) sn.id s.months
        keep2 in
    let (years, keep4) =
      visit_slot (within (years_between t now) p.keep_yearly) (year_key t) sn.id s.years keep3 in
    record { days = days; weeks = weeks; months = months; years = years; keep = keep4 }

unfoldable pub visit_all : RetentionPolicy → Time → Seen → List SnapshotInfo → Seen
visit_all p now s [] = s
visit_all p now s (sn ∷ sns) = visit_all p now (visit p now s sn) sns

-- The loop over the hours window.
unfoldable pub keep_window : RetentionPolicy → Time → List SnapshotInfo → List Text → List Text
keep_window p now [] keep = keep
keep_window p now (sn ∷ sns) keep =
    keep_window p now sns
      (if in_hours (pos_part p.keep_hours) now sn.created_at then sn.id ∷ keep else keep)

abbrev pub id_of : SnapshotInfo → Text
id_of sn = sn.id

-- The loop over the newest `KeepMin`.
unfoldable pub keep_newest : ℕ → List SnapshotInfo → List Text
keep_newest n snaps = map id_of (take n snaps)

-- SelectSmartKeepIDs: the set of the IDs to retain.
unfoldable pub select_smart_keep_ids : List SnapshotInfo → RetentionPolicy → Time → List Text
unfolding normalize
select_smart_keep_ids [] policy now = []
select_smart_keep_ids (sn ∷ sns) policy now =
    let p = normalize policy in
    let snaps = sn ∷ sns in
    let newest = keep_newest (pos_part p.keep_min) snaps in
    if not p.enabled
    then newest
    else (visit_all p now
        (record {
          days = [];
          weeks = [];
          months = [];
          years = [];
          keep = keep_window p now snaps newest;
        })
        snaps).keep
