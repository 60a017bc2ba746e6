-- ===== src/Catalog/Store/FullPull.antt =====
-- internal/backup/sharepoint.go and teams.go: a pull that puts every item and then reconciles.
use m365_backup.Base.{
  ◌≡◌, refl, ap, ◌∙◌, false, Option, none, some, List, [], ◌∷◌, Text, arith, same_refl, is_empty,
  contains, ℕ,
}
use m365_backup.Clock.{Time}
use m365_backup.Blobs.{Crypto}
use m365_backup.Catalog.Item.{Item, Op, upsert}
use m365_backup.Catalog.Rows.{get_item}
use m365_backup.Catalog.Store.{
  Store, note_pending, put, start_reconcile, set_seen, finish_reconcile,
}
use m365_backup.Catalog.Store.Frame.{put-state}
use m365_backup.Catalog.Store.Reconcile.{IsGone, IsNamed, finish_reconcile_lem}

-- What a pull has of one object: its item, its data, and the nonce and time of its Put.
pub record Upload : Type 0 where
  pub item : Item
  pub plain : Text
  pub nonce : Text
  pub now : Time

-- `if err := cat.Put(…); err != nil { res.Warn(…) }`
unfoldable pub put_or_warn : Crypto → Store → Upload → Store
put_or_warn c s u = elim (put c s u.item u.nonce u.plain u.now) [ none ↦ s | some s' ↦ s' ]

-- The Puts of a pull, one after the other.
unfoldable pub put_each : Crypto → Store → List Upload → Store
put_each c s [] = s
put_each c s (u ∷ us) = put_each c (put_or_warn c s u) us

-- A pull of one service: StartReconcile, the Puts, FinishReconcile.
unfoldable pub pull : Crypto → Store → Text → List Upload → Option (Store × ℕ)
pull c s service us = finish_reconcile c (put_each c (start_reconcile s service) us) service

note_pending-untracked :
    (s : Store) (op : Op) (it : Item) → s.track_changes ≡ false → note_pending s op it ≡ s
unfolding note_pending
note_pending-untracked s op it h = ground arith

put_or_warn-untracked :
    (c : Crypto) (s : Store) (u : Upload)
    → s.track_changes ≡ false
    → ((put_or_warn c s u).seen ≡ s.seen) × ((put_or_warn c s u).track_changes ≡ false)
unfolding put_or_warn
put_or_warn-untracked c s u h = by_result (put c s u.item u.nonce u.plain u.now) refl
  where
    by_result :
        (o : Option Store)
        → put c s u.item u.nonce u.plain u.now ≡ o
        → ((put_or_warn c s u).seen ≡ s.seen) × ((put_or_warn c s u).track_changes ≡ false)
    by_result none e = rw (e, put_or_warn) (refl, h)
    by_result (some s') e =
        let (blobs, rows, it, state, own, here) = put-state c s s' u.item u.nonce u.plain u.now e in
        rw
          (
            e,
            put_or_warn,
            state,
            note_pending-untracked (record s { blobs = blobs; items = rows }) upsert it h,
          )
          (refl, h)

put_each-untracked :
    (c : Crypto) (s : Store) (us : List Upload)
    → s.track_changes ≡ false
    → (put_each c s us).seen ≡ s.seen
unfolding put_each
put_each-untracked c s [] h = refl
put_each-untracked c s (u ∷ us) h =
    let (seen, track) = put_or_warn-untracked c s u h in
    put_each-untracked c (put_or_warn c s u) us track ∙ seen

-- In a full job, which sets TrackChanges to false, Put does not note what it has seen. The
-- reconcile at the end of a SharePoint or Teams pull then marks every item of the service as
-- deleted, those that the pull has just put included. The service has a name, and no row has an
-- empty ID.
pub full_pull_deletes_all :
    (c : Crypto) (s : Store) (service : Text) (us : List Upload)
    → s.track_changes ≡ false
    → is_empty service ≡ false
    → IsNamed (put_each c (start_reconcile s service) us).items
    → (s' : Store) × (n : ℕ) × (pull c s service us ≡ some (s', n))
      × ((id : Text) → IsGone (get_item s'.items service id))
unfolding pull start_reconcile set_seen contains
full_pull_deletes_all c s service us h n named =
    let s1 = put_each c (start_reconcile s service) us in
    let seen : s1.seen service ≡ some [] =
      ap (λ (f : Text → Option (List Text)). f service)
        (put_each-untracked c (start_reconcile s service) us h)
      ∙ ground (arith, same_refl service) in
    let (s', k, run, kept, gone, rest) = finish_reconcile_lem c s1 service [] n named seen in
    (s', k, run, λ id. gone id refl)
