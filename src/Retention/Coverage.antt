-- ===== src/Retention/Coverage.antt =====
-- internal/storage/retention.go: the snapshots that are left for each slot.
use m365_backup.Base.{
  ◌≡◌, refl, sym, ap, ◌∙◌, true, ◌&&◌, &&_split, List, [], ◌∷◌, ◌++◌, append_assoc, arith, same,
  same-eq, same_refl, contains, any, any-append,
}
use m365_backup.Clock.{Time}
use m365_backup.Retention.{SnapshotInfo, RetentionPolicy, normalize, select_smart_keep_ids}
use m365_backup.Retention.Rules.{normalize-IsNormal}
use m365_backup.Retention.Slots.{Slot, due, slot_key, covered}
use m365_backup.Retention.Exact.{minimum, newest, select_smart_keep_ids-exact, any-split}

-- Whatever the policy says, also if it is switched off or has a minimum below one, the newest
-- snapshot of the list is kept.
pub newest_kept :
    (sn : SnapshotInfo) (sns : List SnapshotInfo) (policy : RetentionPolicy) (now : Time)
    → contains (select_smart_keep_ids (sn ∷ sns) policy now) sn.id ≡ true
newest_kept sn sns policy now =
    (select_smart_keep_ids-exact (sn ∷ sns) policy now sn.id).1 (record {
      before = [];
      sn = sn;
      after = sns;
      place = refl;
      named = refl;
      kept = minimum (normalize-IsNormal policy).newest;
    })

enabled-normalize : (policy : RetentionPolicy) → (normalize policy).enabled ≡ policy.enabled
unfolding normalize
enabled-normalize policy = refl

-- Under an enabled policy, a snapshot that is due in a slot has itself or a newer snapshot of the
-- same day, week, month or year kept.
pub slot_kept :
    (slot : Slot) (policy : RetentionPolicy) (now : Time) (before : List SnapshotInfo)
    (sn : SnapshotInfo) (after : List SnapshotInfo)
    → policy.enabled ≡ true
    → due slot (normalize policy) now sn ≡ true
    → (newer : List SnapshotInfo) × (kept : SnapshotInfo) × (older : List SnapshotInfo) × (before
          ++ sn ∷ []
        ≡ newer ++ kept ∷ older)
      × (slot_key slot kept ≡ slot_key slot sn)
      × (contains (select_smart_keep_ids (before ++ sn ∷ after) policy now) kept.id ≡ true)
unfolding any covered
slot_kept slot policy now before sn after on d =
    let p = normalize policy in
    let q = λ (x : SnapshotInfo). due slot p now x && same (slot_key slot x) (slot_key slot sn) in
    let (newer, kept, older, place, holds, first) =
      any-split q (before ++ sn ∷ [])
        (ground (arith, any-append q before (sn ∷ []), same_refl (slot_key slot sn))) in
    let (is_due, same_key) =
      &&_split (due slot p now kept) (same (slot_key slot kept) (slot_key slot sn)) holds in
    let key = same-eq (slot_key slot kept) (slot_key slot sn) same_key in
    (
      newer,
      kept,
      older,
      place,
      key,
      (select_smart_keep_ids-exact (before ++ sn ∷ after) policy now kept.id).1 (record {
        before = newer;
        sn = kept;
        after = older ++ after;
        place =
            sym (append_assoc before (sn ∷ []) after)
            ∙ ap (λ (l : List SnapshotInfo). l ++ after) place
            ∙ append_assoc newer (kept ∷ older) after;
        named = refl;
        kept = newest (enabled-normalize policy ∙ on) slot is_due (rw key first);
      }),
    )
