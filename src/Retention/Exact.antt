-- ===== src/Retention/Exact.antt =====
-- internal/storage/retention.go: SelectSmartKeepIDs against a description without maps or loops.
use m365_backup.Base.{
  ℕ, zero, suc, ◌<◌, ◌≡◌, refl, ap, ◌↔◌, &&_split, inl, inr, Bool, true, false, not, ◌&&◌, ◌||◌,
  List, [], ◌∷◌, ◌++◌, Text, arith, same, same-eq, contains, any, length, Bool-cases, if◌then◌else◌,
}
use m365_backup.Base.Int.{pos_part}
use m365_backup.Clock.{Time}
use m365_backup.Retention.{
  SnapshotInfo, RetentionPolicy, normalize, in_hours, visit_all, keep_newest, select_smart_keep_ids,
}
use m365_backup.Retention.Slots.{Slot, due, slot_key, covered}
use m365_backup.Retention.Loop.{
  in_window, nil-ne-split, keep_newest_complete, keep_window-contains, keep_window_complete,
  visit_all_mono, visit_all_sound, visit_all_complete, start, start-Tracks,
}

-- Why a snapshot that stands behind `before` in the newest-first list is kept, under a normalized
-- policy: it is one of the newest, it is recent, or no newer one that is due has its slot's key.
pub data IsKept (p : RetentionPolicy) (now : Time) (before : List SnapshotInfo) (sn : SnapshotInfo)
    : Type 0 where
  minimum : length before < pos_part p.keep_min → IsKept p now before sn
  recent :
      p.enabled ≡ true
      → in_hours (pos_part p.keep_hours) now sn.created_at ≡ true
      → IsKept p now before sn
  newest :
      p.enabled ≡ true
      → (slot : Slot) → due slot p now sn ≡ true
      → covered slot p now before (slot_key slot sn) ≡ false
      → IsKept p now before sn

-- Some place of the list where the ID stands, with a reason to keep it.
pub record Reason (p : RetentionPolicy) (now : Time) (snaps : List SnapshotInfo) (id : Text)
    : Type 0 where
  pub before : List SnapshotInfo
  pub sn : SnapshotInfo
  pub after : List SnapshotInfo
  pub place : snaps ≡ before ++ sn ∷ after
  pub named : sn.id ≡ id
  pub kept : IsKept p now before sn

-- The keep set under a normalized policy, for a list that is not empty.
chosen : RetentionPolicy → Time → List SnapshotInfo → List Text
chosen p now snaps =
    if not p.enabled
    then keep_newest (pos_part p.keep_min) snaps
    else (visit_all p now (start p now snaps) snaps).keep

select-chosen :
    (sn : SnapshotInfo) (sns : List SnapshotInfo) (policy : RetentionPolicy) (now : Time)
    → select_smart_keep_ids (sn ∷ sns) policy now ≡ chosen (normalize policy) now (sn ∷ sns)
unfolding select_smart_keep_ids chosen start
select-chosen sn sns policy now = refl

start-keep :
    (p : RetentionPolicy) (now : Time) (snaps : List SnapshotInfo) (x : Text)
    → contains (start p now snaps).keep x ≡ (
        contains (keep_newest (pos_part p.keep_min) snaps) x
        || any (λ sn. in_window p now sn && same sn.id x) snaps)
unfolding start
start-keep p now snaps x = keep_window-contains p now snaps _ x

chosen_on :
    (p : RetentionPolicy) (now : Time) (snaps : List SnapshotInfo)
    → p.enabled ≡ true
    → chosen p now snaps ≡ (visit_all p now (start p now snaps) snaps).keep
unfolding chosen
chosen_on p now snaps e = simp e

chosen_off :
    (p : RetentionPolicy) (now : Time) (snaps : List SnapshotInfo)
    → p.enabled ≡ false
    → chosen p now snaps ≡ keep_newest (pos_part p.keep_min) snaps
unfolding chosen
chosen_off p now snaps e = simp e

chosen-start :
    (p : RetentionPolicy) (now : Time) (snaps : List SnapshotInfo) (x : Text)
    → p.enabled ≡ true
    → contains (start p now snaps).keep x ≡ true
    → contains (chosen p now snaps) x ≡ true
chosen-start p now snaps x e h =
    rw (chosen_on p now snaps e) (visit_all_mono p now (start p now snaps) snaps x h)

chosen_complete :
    (p : RetentionPolicy) (now : Time) (before : List SnapshotInfo) (sn : SnapshotInfo)
    (after : List SnapshotInfo)
    → IsKept p now before sn
    → contains (chosen p now (before ++ sn ∷ after)) sn.id ≡ true
chosen_complete p now before sn after (minimum h) =
    let n = keep_newest_complete (pos_part p.keep_min) before sn after h in
    let snaps = before ++ sn ∷ after in
    elim (Bool-cases p.enabled) [
      | inl e ↦ chosen-start p now snaps sn.id e (ground (arith, start-keep p now snaps sn.id, n))
      | inr e ↦ rw (chosen_off p now snaps e) n
    ]
chosen_complete p now before sn after (recent e h) =
    chosen-start p now (before ++ sn ∷ after) sn.id e (
      ground (
        arith,
        start-keep p now (before ++ sn ∷ after) sn.id,
        keep_window_complete p now before sn after (unfold in_window in h),
      ))
chosen_complete p now before sn after (newest e slot d c) =
    rw (chosen_on p now (before ++ sn ∷ after) e) (
      visit_all_complete p now slot [] (start p now (before ++ sn ∷ after)) before sn after
        (start-Tracks p now (before ++ sn ∷ after)) d c)

keep_newest_sound :
    (p : RetentionPolicy) (now : Time) (n : ℕ) (snaps : List SnapshotInfo) (x : Text)
    → contains (keep_newest n snaps) x ≡ true
    → (before : List SnapshotInfo) × (sn : SnapshotInfo) × (after : List SnapshotInfo) × (snaps
        ≡ before ++ sn ∷ after)
      × (sn.id ≡ x)
      × (length before < n)
unfolding keep_newest contains
keep_newest_sound p now zero snaps x h = absurd (cc)
keep_newest_sound p now (suc n) [] x h = absurd (cc)
keep_newest_sound p now (suc n) (b ∷ bs) x h = elim (Bool-cases (same b.id x)) [
  | inl e ↦ ([], b, bs, refl, same-eq b.id x e, omega arith)
  | inr e ↦
      let (before, sn, after, place, named, few) = keep_newest_sound p now n bs x (ground arith) in
      (b ∷ before, sn, after, ap (λ (l : List SnapshotInfo). b ∷ l) place, named, omega arith)
]

pub any-split :
    (q : SnapshotInfo → Bool) (snaps : List SnapshotInfo)
    → any q snaps ≡ true
    → (before : List SnapshotInfo) × (sn : SnapshotInfo) × (after : List SnapshotInfo) × (snaps
        ≡ before ++ sn ∷ after)
      × (q sn ≡ true)
      × (any q before ≡ false)
unfolding any
any-split q [] h = absurd (cc)
any-split q (b ∷ bs) h = elim (Bool-cases (q b)) [
  | inl e ↦ ([], b, bs, refl, e, refl)
  | inr e ↦
      let (before, sn, after, place, holds, first) = any-split q bs (ground arith) in
      (b ∷ before, sn, after, ap (λ (l : List SnapshotInfo). b ∷ l) place, holds, ground arith)
]

newest-Reason :
    (p : RetentionPolicy) (now : Time) (snaps : List SnapshotInfo) (x : Text)
    → contains (keep_newest (pos_part p.keep_min) snaps) x ≡ true
    → Reason p now snaps x
newest-Reason p now snaps x h =
    let (before, sn, after, place, named, few) =
      keep_newest_sound p now (pos_part p.keep_min) snaps x h in
    record {
      before = before;
      sn = sn;
      after = after;
      place = place;
      named = named;
      kept = minimum few;
    }

start-Reason :
    (p : RetentionPolicy) (now : Time) (snaps : List SnapshotInfo) (x : Text)
    → p.enabled ≡ true
    → contains (start p now snaps).keep x ≡ true
    → Reason p now snaps x
unfolding in_window
start-Reason p now snaps x e h =
    elim (Bool-cases (contains (keep_newest (pos_part p.keep_min) snaps) x)) [
      | inl k ↦ newest-Reason p now snaps x k
      | inr k ↦
          let (before, sn, after, place, holds, first) =
            any-split (λ sn. in_window p now sn && same sn.id x) snaps
              (ground (arith, start-keep p now snaps x)) in
          record {
            before = before;
            sn = sn;
            after = after;
            place = place;
            named = same-eq sn.id x (&&_split _ _ holds).1;
            kept = recent e (&&_split _ _ holds).0;
          }
    ]

chosen_sound :
    (p : RetentionPolicy) (now : Time) (snaps : List SnapshotInfo) (x : Text)
    → contains (chosen p now snaps) x ≡ true
    → Reason p now snaps x
chosen_sound p now snaps x h = elim (Bool-cases p.enabled) [
  | inr e ↦ newest-Reason p now snaps x (rw (chosen_off p now snaps e) at h)
  | inl e ↦
      elim (visit_all_sound p now [] (start p now snaps) snaps x (start-Tracks p now snaps)
        (rw (chosen_on p now snaps e) at h)) [
          | inl old ↦ start-Reason p now snaps x e old
          | inr a ↦ record {
            before = a.before;
            sn = a.sn;
            after = a.after;
            place = a.place;
            named = a.named;
            kept = newest e a.slot a.is_due a.first;
          }
        ]
]

select_complete :
    (snaps : List SnapshotInfo) (policy : RetentionPolicy) (now : Time) (id : Text)
    → Reason (normalize policy) now snaps id
    → contains (select_smart_keep_ids snaps policy now) id ≡ true
select_complete [] policy now id r = absurd (nil-ne-split r.before r.sn r.after r.place)
select_complete (s ∷ ss) policy now id r =
    rw (select-chosen s ss policy now, r.place, ← r.named)
      (chosen_complete (normalize policy) now r.before r.sn r.after r.kept)

select_sound :
    (snaps : List SnapshotInfo) (policy : RetentionPolicy) (now : Time) (id : Text)
    → contains (select_smart_keep_ids snaps policy now) id ≡ true
    → Reason (normalize policy) now snaps id
unfolding select_smart_keep_ids contains
select_sound [] policy now id h = absurd (cc)
select_sound (s ∷ ss) policy now id h =
    chosen_sound (normalize policy) now (s ∷ ss) id (rw (select-chosen s ss policy now) at h)

-- SelectSmartKeepIDs keeps an ID exactly when it stands somewhere in the list with a reason: at
-- one of the first KeepMin places, or, if the policy is enabled, inside the hours window, or as
-- the first of its day, week, month or year among the snapshots that this range covers.
pub select_smart_keep_ids-exact :
    (snaps : List SnapshotInfo) (policy : RetentionPolicy) (now : Time) (id : Text)
    → (contains (select_smart_keep_ids snaps policy now) id ≡ true)
      ↔ Reason (normalize policy) now snaps id
select_smart_keep_ids-exact snaps policy now id =
    (select_sound snaps policy now id, select_complete snaps policy now id)
