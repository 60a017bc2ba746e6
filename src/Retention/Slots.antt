-- ===== src/Retention/Slots.antt =====
-- internal/storage/retention.go: what the seen-maps of the main loop record.
use m365_backup.Base.{
  ◌≡◌, Bool, not, ◌&&◌, ◌||◌, List, [], ◌∷◌, ◌++◌, Text, arith, same, same-eq, contains, any,
  any-append,
}
use m365_backup.Clock.{Time}
use m365_backup.Retention.{
  SnapshotInfo, RetentionPolicy, Seen, Key, visit, visit_slot, within, days_between, weeks_between,
  months_between, years_between, day_key, week_key, month_key, year_key,
}

pub data Slot : Type 0 where
  daily weekly monthly yearly : Slot

-- Whether a snapshot lies in the range of days, weeks, months or years that the policy covers.
unfoldable pub due : Slot → RetentionPolicy → Time → SnapshotInfo → Bool
due daily p now sn = within (days_between sn.created_at now) p.keep_daily
due weekly p now sn = within (weeks_between sn.created_at now) p.keep_weekly
due monthly p now sn = within (months_between sn.created_at now) p.keep_monthly
due yearly p now sn = within (years_between sn.created_at now) p.keep_yearly

unfoldable pub slot_key : Slot → SnapshotInfo → Key
slot_key daily sn = day_key sn.created_at
slot_key weekly sn = week_key sn.created_at
slot_key monthly sn = month_key sn.created_at
slot_key yearly sn = year_key sn.created_at

unfoldable pub seen_of : Slot → Seen → List Key
seen_of daily s = s.days
seen_of weekly s = s.weeks
seen_of monthly s = s.months
seen_of yearly s = s.years

-- Some snapshot of the list that is due has the key.
unfoldable pub covered : Slot → RetentionPolicy → Time → List SnapshotInfo → Key → Bool
covered slot p now done k = any (λ sn. due slot p now sn && same (slot_key slot sn) k) done

-- The seen-maps hold the keys of the due snapshots that the loop has passed.
abbrev pub Tracks : RetentionPolicy → Time → List SnapshotInfo → Seen → Type 0
Tracks p now done s =
    (slot : Slot) (k : Key) → contains (seen_of slot s) k ≡ covered slot p now done k

-- One more snapshot behind the passed ones.
pub covered-append :
    (slot : Slot) (p : RetentionPolicy) (now : Time) (done : List SnapshotInfo) (sn : SnapshotInfo)
    (k : Key)
    → covered slot p now (done ++ sn ∷ []) k
      ≡ (covered slot p now done k || (due slot p now sn && same (slot_key slot sn) k))
unfolding covered any
covered-append slot p now done sn k =
    ground (arith, any-append (λ x. due slot p now x && same (slot_key slot x) k) done (sn ∷ []))

visit_slot-contains :
    (due : Bool) (key : Key) (id : Text) (seen : List Key) (keep : List Text) (k : Key)
    → contains (visit_slot due key id seen keep).0 k ≡ (contains seen k || (due && same key k))
unfolding visit_slot contains
visit_slot-contains due key id seen keep k = ground (arith, same-eq key k)

visit-seen :
    (slot : Slot) (p : RetentionPolicy) (now : Time) (s : Seen) (sn : SnapshotInfo) (k : Key)
    → contains (seen_of slot (visit p now s sn)) k
      ≡ (contains (seen_of slot s) k || (due slot p now sn && same (slot_key slot sn) k))
unfolding visit seen_of due slot_key
visit-seen daily p now s sn k = visit_slot-contains _ _ _ _ _ k
visit-seen weekly p now s sn k = visit_slot-contains _ _ _ _ _ k
visit-seen monthly p now s sn k = visit_slot-contains _ _ _ _ _ k
visit-seen yearly p now s sn k = visit_slot-contains _ _ _ _ _ k

pub visit-Tracks :
    (p : RetentionPolicy) (now : Time) (done : List SnapshotInfo) (s : Seen) (sn : SnapshotInfo)
    → Tracks p now done s
    → Tracks p now (done ++ sn ∷ []) (visit p now s sn)
visit-Tracks p now done s sn h slot k =
    ground (arith, visit-seen slot p now s sn k, covered-append slot p now done sn k, h slot k)

visit_slot-keep :
    (due : Bool) (key : Key) (id : Text) (seen : List Key) (keep : List Text) (x : Text)
    → contains (visit_slot due key id seen keep).1 x
      ≡ (contains keep x || (due && not (contains seen key) && same id x))
unfolding visit_slot contains
visit_slot-keep due key id seen keep x = ground arith

-- The snapshot is due in the slot, and its key was not seen.
unfoldable pub fresh : Slot → RetentionPolicy → Time → Seen → SnapshotInfo → Bool
fresh slot p now s sn = due slot p now sn && not (contains (seen_of slot s) (slot_key slot sn))

unfoldable pub any_fresh : RetentionPolicy → Time → Seen → SnapshotInfo → Bool
any_fresh p now s sn =
    fresh daily p now s sn
    || fresh weekly p now s sn
    || fresh monthly p now s sn
    || fresh yearly p now s sn

-- The loop's body puts a snapshot's ID into the keep set exactly when it is due in a slot whose
-- key was not seen, and takes no ID out.
pub visit-keep :
    (p : RetentionPolicy) (now : Time) (s : Seen) (sn : SnapshotInfo) (x : Text)
    → contains (visit p now s sn).keep x
      ≡ (contains s.keep x || (any_fresh p now s sn && same sn.id x))
unfolding visit any_fresh fresh due slot_key seen_of
visit-keep p now s sn x = simp visit_slot-keep (ground arith)

-- After the passed snapshots, a snapshot that is fresh in a slot is the first of its key there.
pub fresh-covered :
    (slot : Slot) (p : RetentionPolicy) (now : Time) (done : List SnapshotInfo) (s : Seen)
    (sn : SnapshotInfo)
    → Tracks p now done s
    → fresh slot p now s sn
      ≡ (due slot p now sn && not (covered slot p now done (slot_key slot sn)))
unfolding fresh
fresh-covered slot p now done s sn h = rw (h slot (slot_key slot sn))
