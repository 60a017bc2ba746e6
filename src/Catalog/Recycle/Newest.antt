-- ===== src/Catalog/Recycle/Newest.antt =====
-- internal/catalog/retention.go: ApplySmartRetention and the newest snapshots.
use m365_backup.Base.{
  ◌≡◌, refl, ap, sym, ◌∙◌, Bool, true, false, not, ◌&&◌, ◌||◌, List, [], ◌∷◌, map, Text, arith,
  same, same-eq, same_refl, contains, any, any-append, any-keep_if, any_mono, keep_if, Bool-cases,
  inl, inr,
}
use m365_backup.Clock.{Time}
use m365_backup.Retention.{RetentionPolicy, select_smart_keep_ids}
use m365_backup.Retention.Coverage.{newest_kept}
use m365_backup.Catalog.Item.{Snapshot}
use m365_backup.Catalog.Commit.{snapshot_of}
use m365_backup.Catalog.Store.{Store}
use m365_backup.Catalog.Recycle.{
  info, delete_snapshot, services, insert_newest, newest_first, given_up, to_delete,
  delete_snapshots, gc_blobs, apply_smart_retention,
}

abbrev pub id_is : Text → Snapshot → Bool
id_is id sn = same sn.id id

-- The primary key of catalog_snapshots.
abbrev pub UniqueIds : List Snapshot → Type 0
UniqueIds [] = Unit {0}
UniqueIds (sn ∷ sns) = (any (id_is sn.id) sns ≡ false) × UniqueIds sns

any-insert_newest :
    (p : Snapshot → Bool) (sn : Snapshot) (xs : List Snapshot)
    → any p (insert_newest sn xs) ≡ (p sn || any p xs)
unfolding any insert_newest
any-insert_newest p sn [] = refl
any-insert_newest p sn (x ∷ xs) = ground (arith, any-insert_newest p sn xs)

any-newest_first : (p : Snapshot → Bool) (xs : List Snapshot) → any p (newest_first xs) ≡ any p xs
unfolding any newest_first
any-newest_first p [] = refl
any-newest_first p (x ∷ xs) =
    ground (arith, any-newest_first p xs, any-insert_newest p x (newest_first xs))

no_other :
    (p : Snapshot → Bool) (id : Text) (xs : List Snapshot)
    → any (id_is id) xs ≡ false
    → any (λ x. p x && id_is id x) xs ≡ false
unfolding any
no_other p id [] h = refl
no_other p id (x ∷ xs) h = ground (arith, no_other p id xs)

-- Two tests that both find a row of the ID find one row.
same_row :
    (p q : Snapshot → Bool) (id : Text) (xs : List Snapshot)
    → UniqueIds xs
    → any (λ x. p x && id_is id x) xs ≡ true
    → any (λ x. q x && id_is id x) xs ≡ true
    → any (λ x. p x && q x) xs ≡ true
unfolding any
same_row p q id [] u h k = h
same_row p q id (x ∷ xs) u h k = elim (Bool-cases (same x.id id)) [
  | inl e ↦
      let none_else : any (id_is id) xs ≡ false =
        ap (λ (i : Text). any (id_is i) xs) (sym (same-eq x.id id e)) ∙ u.0 in
      ground (arith, no_other p id xs none_else, no_other q id xs none_else)
  | inr e ↦ ground (arith, same_row p q id xs u.1)
]

not_both :
    (a b : Text) (xs : List Snapshot)
    → same a b ≡ false
    → any (λ x. snapshot_of a x && snapshot_of b x) xs ≡ false
unfolding any
not_both a b [] h = refl
not_both a b (x ∷ xs) h =
    ground (arith, not_both a b xs, same-eq x.service a, same-eq x.service b, same_refl b)

kept_not_given_up :
    (kept : List Text) (id : Text) (xs : List Snapshot)
    → contains kept id ≡ true
    → any (λ (x : Snapshot). not (contains kept x.id) && id_is id x) xs ≡ false
unfolding any
kept_not_given_up kept id [] h = refl
kept_not_given_up kept id (x ∷ xs) h = ground (arith, kept_not_given_up kept id xs, same-eq x.id id)

delete_snapshots-keep :
    (s : Store) (gone : List Snapshot) (id : Text)
    → any (id_is id) gone ≡ false
    → any (id_is id) s.snapshots ≡ true
    → any (id_is id) (delete_snapshots s gone).snapshots ≡ true
unfolding any delete_snapshots delete_snapshot
delete_snapshots-keep s [] id h k = k
delete_snapshots-keep s (d ∷ ds) id h k =
    delete_snapshots-keep (delete_snapshot s d) ds id (ground arith) (
      any-keep_if (id_is id) (λ (x : Snapshot). not (same x.id d.id)) s.snapshots
      ∙ any_mono (id_is id) (λ (x : Snapshot). not (same x.id d.id) && id_is id x) s.snapshots
          (λ x e. ground (arith, same-eq x.id id e, same-eq x.id d.id, same_refl d.id)) k)

-- The group of a service has the first of it, under its ID.
in_group :
    (sns : List Snapshot) (service : Text) (sn : Snapshot) (rest : List Snapshot)
    → newest_first (keep_if (snapshot_of service) sns) ≡ sn ∷ rest
    → any (λ x. snapshot_of service x && id_is sn.id x) sns ≡ true
unfolding any
in_group sns service sn rest first =
    sym (any-keep_if (id_is sn.id) (snapshot_of service) sns)
    ∙ sym (any-newest_first (id_is sn.id) (keep_if (snapshot_of service) sns))
    ∙ ap (any (id_is sn.id)) first
    ∙ ground (arith, same_refl sn.id)

-- No other service gives it up, since its snapshots have other IDs.
elsewhere :
    (sns : List Snapshot) (policy : RetentionPolicy) (now : Time) (service x : Text) (sn : Snapshot)
    (rest : List Snapshot)
    → UniqueIds sns
    → newest_first (keep_if (snapshot_of service) sns) ≡ sn ∷ rest
    → same x service ≡ false
    → any (id_is sn.id) (given_up sns policy now x) ≡ false
unfolding given_up
elsewhere sns policy now service x sn rest u first other =
    let group = newest_first (keep_if (snapshot_of x) sns) in
    let kept = select_smart_keep_ids (map info group) policy now in
    elim (Bool-cases (any (λ y. snapshot_of x y && id_is sn.id y) sns)) [
      | inl e ↦ absurd (
          ground (
            arith,
            same_row (snapshot_of x) (snapshot_of service) sn.id sns u e
                (in_group sns service sn rest first),
            not_both x service sns other,
          ))
      | inr e ↦
          elim (Bool-cases
            (any (id_is sn.id) (keep_if (λ (y : Snapshot). not (contains kept y.id)) group))) [
              | inr free ↦ free
              | inl found ↦ absurd (
                  ground (
                    arith,
                    any_mono (λ (y : Snapshot). not (contains kept y.id) && id_is sn.id y)
                        (id_is sn.id) group (λ y h. ground arith)
                        (sym (
                            any-keep_if (id_is sn.id) (λ (y : Snapshot). not (contains kept y.id))
                              group)
                          ∙ found),
                    any-newest_first (id_is sn.id) (keep_if (snapshot_of x) sns),
                    any-keep_if (id_is sn.id) (snapshot_of x) sns,
                  ))
            ]
    ]

newest_of :
    (sn : Snapshot) (rest : List Snapshot) (policy : RetentionPolicy) (now : Time)
    → contains (select_smart_keep_ids (map info (sn ∷ rest)) policy now) sn.id ≡ true
unfolding info
newest_of sn rest policy now = newest_kept (info sn) (map info rest) policy now

-- The newest snapshot of its service is in no list of the snapshots to give up.
not_given_up :
    (sns : List Snapshot) (policy : RetentionPolicy) (now : Time) (service x : Text) (sn : Snapshot)
    (rest : List Snapshot)
    → UniqueIds sns
    → newest_first (keep_if (snapshot_of service) sns) ≡ sn ∷ rest
    → any (id_is sn.id) (given_up sns policy now x) ≡ false
unfolding given_up
not_given_up sns policy now service x sn rest u first = elim (Bool-cases (same x service)) [
  | inl e ↦
      let own : newest_first (keep_if (snapshot_of x) sns) ≡ sn ∷ rest =
        ap (λ (t : Text). newest_first (keep_if (snapshot_of t) sns)) (same-eq x service e)
        ∙ first in
      ap
        (λ (g : List Snapshot). any (id_is sn.id) (
          keep_if
            (λ (y : Snapshot). not (contains (select_smart_keep_ids (map info g) policy now) y.id))
            g))
        own
      ∙ any-keep_if (id_is sn.id)
          (λ (y : Snapshot).
            not (contains (select_smart_keep_ids (map info (sn ∷ rest)) policy now) y.id))
          (sn ∷ rest)
      ∙ kept_not_given_up (select_smart_keep_ids (map info (sn ∷ rest)) policy now) sn.id
          (sn ∷ rest) (newest_of sn rest policy now)
  | inr e ↦ elsewhere sns policy now service x sn rest u first e
]

not_to_delete :
    (sns : List Snapshot) (policy : RetentionPolicy) (now : Time) (service : Text) (xs : List Text)
    (sn : Snapshot) (rest : List Snapshot)
    → UniqueIds sns
    → newest_first (keep_if (snapshot_of service) sns) ≡ sn ∷ rest
    → any (id_is sn.id) (to_delete sns policy now xs) ≡ false
unfolding any to_delete
not_to_delete sns policy now service [] sn rest u first = refl
not_to_delete sns policy now service (x ∷ xs) sn rest u first = ground (
  arith,
  any-append (id_is sn.id) (given_up sns policy now x) (to_delete sns policy now xs),
  not_given_up sns policy now service x sn rest u first,
  not_to_delete sns policy now service xs sn rest u first,
)

-- Whatever the policy says, also if it is switched off, the newest snapshot of each service is
-- still there after Smart Recycle, provided that no two snapshots have one ID.
pub apply_smart_retention-newest :
    (s : Store) (policy : RetentionPolicy) (now : Time) (service : Text) (sn : Snapshot)
    (rest : List Snapshot)
    → UniqueIds s.snapshots
    → newest_first (keep_if (snapshot_of service) s.snapshots) ≡ sn ∷ rest
    → any (id_is sn.id) (apply_smart_retention s policy now).0.snapshots ≡ true
unfolding apply_smart_retention gc_blobs
apply_smart_retention-newest s policy now service sn rest u first =
    delete_snapshots-keep s (to_delete s.snapshots policy now (services s.snapshots)) sn.id
      (not_to_delete s.snapshots policy now service (services s.snapshots) sn rest u first)
      (any_mono (λ x. snapshot_of service x && id_is sn.id x) (id_is sn.id) s.snapshots
        (λ x h. ground arith) (in_group s.snapshots service sn rest first))
