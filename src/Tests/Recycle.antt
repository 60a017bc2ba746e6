-- ===== src/Tests/Recycle.antt =====
-- internal/storage/retention.go and internal/backup/watchdog.go at concrete inputs.
use m365_backup.Base.{
  ℕ, ◌+◌, ◌*◌, ◌≡◌, refl, ◌↔◌, true, false, all, List, [], ◌∷◌, ◌++◌, Text, codes, arith, contains,
  none, some, same,
}
use m365_backup.Base.Int.{pos, negsuc}
use m365_backup.Clock.{Time, hour_ns, day_ns}
use m365_backup.Jobs.{Job, running}
use m365_backup.Retention.{
  SnapshotInfo, RetentionPolicy, default_retention, normalize, in_hours, within, days_between,
  select_smart_keep_ids,
}
use m365_backup.Retention.Rules.{in_hours_overflow}
use m365_backup.Retention.Slots.{daily, due, slot_key}
use m365_backup.Retention.Exact.{Reason, select_smart_keep_ids-exact}
use m365_backup.Retention.Coverage.{slot_kept}
use m365_backup.Watchdog.{Tracks, evaluate, track_of}
use m365_backup.Watchdog.Stall.{Look, looks, stall_exact}

abbrev snapshot_at : Text → Time → SnapshotInfo
snapshot_at id t = record {
  id = id;
  created_at = t;
  source = codes "exchange";
  service = codes "exchange";
  bytes = 100;
  files = 3;
}

abbrev start : Time
start = 738000 * day_ns

abbrev late : SnapshotInfo
late = snapshot_at (codes "c") (start + 20 * hour_ns)

abbrev early : SnapshotInfo
early = snapshot_at (codes "b") (start + 2 * hour_ns)

abbrev old : SnapshotInfo
old = snapshot_at (codes "a") (700000 * day_ns)

abbrev now : Time
now = start + 21 * hour_ns

-- The window of one hour takes the first, its day covers the second, and the third is too old.
abbrev one_hour : RetentionPolicy
one_hour = record default_retention { keep_hours = pos 1; keep_min = pos 0 }

select_smart_keep_ids-exact_example :
    (contains (select_smart_keep_ids (late ∷ early ∷ old ∷ []) one_hour now) (codes "b") ≡ true)
    ↔ Reason (normalize one_hour) now (late ∷ early ∷ old ∷ []) (codes "b")
select_smart_keep_ids-exact_example =
    select_smart_keep_ids-exact (late ∷ early ∷ old ∷ []) one_hour now (codes "b")

slot_kept_example :
    (newer : List SnapshotInfo) × (kept : SnapshotInfo) × (older : List SnapshotInfo) × (late
        ∷ early ∷ []
      ≡ newer ++ kept ∷ older)
    × (slot_key daily kept ≡ slot_key daily early)
    × (contains (select_smart_keep_ids (late ∷ early ∷ old ∷ []) one_hour now) kept.id ≡ true)
unfolding due normalize default_retention within days_between
slot_kept_example = slot_kept daily one_hour now (late ∷ []) early (old ∷ []) refl refl

in_hours_overflow_example : in_hours 3000000 now start ≡ false
in_hours_overflow_example =
    in_hours_overflow 3000000 now start (omega arith) (omega arith) (omega arith)

-- A decoder that reads every text as a policy with negative numbers.
abbrev negative : Text → RetentionPolicy → RetentionPolicy
negative s p = record p { keep_hours = negsuc 4; keep_min = negsuc 0 }

abbrev job_with : ℕ → Job
job_with pct = record {
  id = codes "j1";
  tenant_id = codes "t";
  schedule_id = [];
  service = codes "exchange";
  job_type = codes "delta";
  status = running;
  started_at = 1;
  finished_at = 0;
  items_new = 0;
  items_total = 0;
  bytes_transferred = 0;
  error_message = [];
  snapshot_id = [];
  progress_pct = pct;
  progress_message = [];
  params = [];
  created_at = 1;
}

abbrev look : ℕ → Time → Look
look pct t = record { job = job_with pct; log_at = none; now = t }

abbrev one_track : Tracks
one_track id = some (track_of (job_with 10) 100)

stall_exact_example :
    ((evaluate 60 one_track (job_with 20) none 200).1 ≡ false)
    × ((evaluate 60 (looks 60 one_track (look 20 200 ∷ look 20 230 ∷ [])) (job_with 20) none 260).1
        ≡ true)
unfolding all same
stall_exact_example =
    stall_exact 60 one_track (track_of (job_with 10) 100) (look 20 200) (look 20 260)
      (look 20 230 ∷ []) (omega arith) refl refl refl refl
