-- ===== src/Retention/Loop.antt =====
-- internal/storage/retention.go: what each loop of SelectSmartKeepIDs adds to the keep set.
use m365_backup.Base.{
  ℕ, zero, suc, ◌<◌, ◌≡◌, refl, ap, ◌⊎◌, inl, inr, Bool, true, false, ◌&&◌, ◌||◌, List, [], ◌∷◌,
  ◌++◌, append_assoc, append-nil, Text, arith, same, same-eq, same_refl, contains, any, length,
  Bool-cases, if◌then◌else◌,
}
use m365_backup.Base.Int.{pos_part}
use m365_backup.Clock.{Time}
use m365_backup.Retention.{
  SnapshotInfo, RetentionPolicy, Seen, in_hours, visit, visit_all, keep_window, keep_newest,
}
use m365_backup.Retention.Slots.{
  Slot, daily, weekly, monthly, yearly, due, slot_key, covered, Tracks, visit-Tracks, visit-keep,
  fresh, any_fresh, fresh-covered, seen_of,
}

pub nil-ne-split :
    (before : List SnapshotInfo) (sn : SnapshotInfo) (after : List SnapshotInfo)
    → [] ≡ before ++ sn ∷ after
    → ⊥
nil-ne-split [] sn after e = cc
nil-ne-split (b ∷ bs) sn after e = cc

pub keep_newest_complete :
    (n : ℕ) (before : List SnapshotInfo) (sn : SnapshotInfo) (after : List SnapshotInfo)
    → length before < n
    → contains (keep_newest n (before ++ sn ∷ after)) sn.id ≡ true
unfolding keep_newest contains
keep_newest_complete zero before sn after h = elim h [ ]
keep_newest_complete (suc n) [] sn after h = ground (arith, same_refl sn.id)
keep_newest_complete (suc n) (b ∷ bs) sn after h =
    ground (arith, keep_newest_complete n bs sn after)

module _ (p : RetentionPolicy) (now : Time) where
  unfoldable pub in_window : SnapshotInfo → Bool
  in_window sn = in_hours (pos_part p.keep_hours) now sn.created_at

  pub keep_window-contains :
      (snaps : List SnapshotInfo) (keep : List Text) (x : Text)
      → contains (keep_window p now snaps keep) x
        ≡ (contains keep x || any (λ sn. in_window sn && same sn.id x) snaps)
  unfolding keep_window any contains in_window
  keep_window-contains [] keep x = ground arith
  keep_window-contains (sn ∷ sns) keep x = ground (
    arith,
    keep_window-contains sns
        (if in_hours (pos_part p.keep_hours) now sn.created_at then sn.id ∷ keep else keep) x,
  )

  pub keep_window_complete :
      (before : List SnapshotInfo) (sn : SnapshotInfo) (after : List SnapshotInfo)
      → in_window sn ≡ true
      → any (λ y. in_window y && same y.id sn.id) (before ++ sn ∷ after) ≡ true
  unfolding any
  keep_window_complete [] sn after h = ground (arith, same_refl sn.id)
  keep_window_complete (b ∷ bs) sn after h = ground (arith, keep_window_complete bs sn after h)

  pub visit_all_mono :
      (s : Seen) (sns : List SnapshotInfo) (x : Text)
      → contains s.keep x ≡ true
      → contains (visit_all p now s sns).keep x ≡ true
  unfolding visit_all
  visit_all_mono s [] x h = h
  visit_all_mono s (sn ∷ sns) x h =
      visit_all_mono (visit p now s sn) sns x (ground (arith, visit-keep p now s sn x))

  fresh→any_fresh :
      (slot : Slot) (s : Seen) (sn : SnapshotInfo)
      → fresh slot p now s sn ≡ true
      → any_fresh p now s sn ≡ true
  unfolding any_fresh
  fresh→any_fresh daily s sn h = ground arith
  fresh→any_fresh weekly s sn h = ground arith
  fresh→any_fresh monthly s sn h = ground arith
  fresh→any_fresh yearly s sn h = ground arith

  any_fresh-slot :
      (s : Seen) (sn : SnapshotInfo)
      → any_fresh p now s sn ≡ true
      → (slot : Slot) × (fresh slot p now s sn ≡ true)
  unfolding any_fresh
  any_fresh-slot s sn h = elim (Bool-cases (fresh daily p now s sn)) [
    | inl d ↦ (daily, d)
    | inr not_day ↦ elim (Bool-cases (fresh weekly p now s sn)) [
      | inl w ↦ (weekly, w)
      | inr not_week ↦ elim (Bool-cases (fresh monthly p now s sn)) [
        | inl m ↦ (monthly, m)
        | inr not_month ↦ (yearly, ground arith)
      ]
    ]
  ]

  pub visit_all_complete :
      (slot : Slot) (done : List SnapshotInfo) (s : Seen) (before : List SnapshotInfo)
      (sn : SnapshotInfo) (after : List SnapshotInfo)
      → Tracks p now done s
      → due slot p now sn ≡ true
      → covered slot p now (done ++ before) (slot_key slot sn) ≡ false
      → contains (visit_all p now s (before ++ sn ∷ after)).keep sn.id ≡ true
  unfolding visit_all
  visit_all_complete slot done s [] sn after t d c =
      let is_fresh : fresh slot p now s sn ≡ true = ground (
        arith,
        fresh-covered slot p now done s sn t,
        ap (λ (l : List SnapshotInfo). covered slot p now l (slot_key slot sn)) (append-nil done),
      ) in
      visit_all_mono (visit p now s sn) after sn.id (
        ground
          (arith, visit-keep p now s sn sn.id, fresh→any_fresh slot s sn is_fresh, same_refl sn.id))
  visit_all_complete slot done s (b ∷ bs) sn after t d c =
      visit_all_complete slot (done ++ b ∷ []) (visit p now s b) bs sn after
        (visit-Tracks p now done s b t) d (rw append_assoc c)

  -- What the loop adds to the keep set, with the place and the slot.
  pub record Added (done sns : List SnapshotInfo) (x : Text) : Type 0 where
    pub before : List SnapshotInfo
    pub sn : SnapshotInfo
    pub after : List SnapshotInfo
    pub slot : Slot
    pub place : sns ≡ before ++ sn ∷ after
    pub named : sn.id ≡ x
    pub is_due : due slot p now sn ≡ true
    pub first : covered slot p now (done ++ before) (slot_key slot sn) ≡ false

  Added-visit :
      (done : List SnapshotInfo) (s : Seen) (sn : SnapshotInfo) (sns : List SnapshotInfo) (x : Text)
      → Tracks p now done s
      → contains (visit p now s sn).keep x ≡ true
      → (contains s.keep x ≡ true) ⊎ Added done (sn ∷ sns) x
  Added-visit done s sn sns x t h = elim (Bool-cases (contains s.keep x)) [
    | inl old ↦ inl old
    | inr new ↦
        let (slot, f) = any_fresh-slot s sn (ground (arith, visit-keep p now s sn x)) in
        inr (record {
          before = [];
          sn = sn;
          after = sns;
          slot = slot;
          place = refl;
          named = same-eq sn.id x (ground (arith, visit-keep p now s sn x));
          is_due = ground (arith, fresh-covered slot p now done s sn t);
          first = ground (
            arith,
            fresh-covered slot p now done s sn t,
            ap (λ (l : List SnapshotInfo). covered slot p now l (slot_key slot sn))
                (append-nil done),
          );
        })
  ]

  pub visit_all_sound :
      (done : List SnapshotInfo) (s : Seen) (sns : List SnapshotInfo) (x : Text)
      → Tracks p now done s
      → contains (visit_all p now s sns).keep x ≡ true
      → (contains s.keep x ≡ true) ⊎ Added done sns x
  unfolding visit_all
  visit_all_sound done s [] x t h = inl h
  visit_all_sound done s (sn ∷ sns) x t h =
      elim (visit_all_sound (done ++ sn ∷ []) (visit p now s sn) sns x
        (visit-Tracks p now done s sn t) h) [
          | inl old ↦ Added-visit done s sn sns x t old
          | inr a ↦ inr (record {
            before = sn ∷ a.before;
            sn = a.sn;
            after = a.after;
            slot = a.slot;
            place = ap (λ (l : List SnapshotInfo). sn ∷ l) a.place;
            named = a.named;
            is_due = a.is_due;
            first = rw append_assoc at a.first;
          })
        ]

  unfoldable pub start : List SnapshotInfo → Seen
  start snaps = record {
    days = [];
    weeks = [];
    months = [];
    years = [];
    keep = keep_window p now snaps (keep_newest (pos_part p.keep_min) snaps);
  }

  pub start-Tracks : (snaps : List SnapshotInfo) → Tracks p now [] (start snaps)
  unfolding start contains covered any seen_of
  start-Tracks snaps daily k = refl
  start-Tracks snaps weekly k = refl
  start-Tracks snaps monthly k = refl
  start-Tracks snaps yearly k = refl
