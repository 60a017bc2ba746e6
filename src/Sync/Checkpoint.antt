-- ===== src/Sync/Checkpoint.antt =====
-- internal/backup/onedrive.go, exchange.go and delta.go: the tokens that the loop over the pages
-- leaves.
use m365_backup.Base.{
  ◌≡◌, refl, ◌∙◌, Bool, true, false, not, ◌&&◌, Option, none, some, List, [], ◌∷◌, Text, is_empty,
  same, if◌then◌else◌, Bool-cases, Option-cases, inl, inr,
}
use m365_backup.Tokens.{DeltaToken, get_delta_token, odata_resume_url, not_empty, persist_delta_url}
use m365_backup.Tokens.Laws.{get-upsert, get-persist}
use m365_backup.Sync.Pages.{Progress, Turn, over, entry, Page, Query, run_turns, persist, run_pages}

-- Whether the context is over before the page is done.
unfoldable pub interrupted {ℓ} : {E : Type ℓ} → List (Turn E) → Bool
interrupted [] = false
interrupted (over ∷ ts) = true
interrupted (entry e ∷ ts) = interrupted ts

abbrev pub is_last : Option Text → Bool
is_last none = true
is_last (some url) = false

-- The pages that are done to their end: up to the first one that is interrupted, or has no next.
unfoldable pub done_pages {ℓ} : {E : Type ℓ} → Page E → List (Page E) → List (Page E)
unfolding interrupted
done_pages page [] = if interrupted page.turns then [] else page ∷ []
done_pages page (page' ∷ rest) =
    let later = done_pages page' rest in
    if interrupted page.turns
    then []
    else if is_last (not_empty page.next_link)
    then page ∷ []
    else page ∷ later

-- The last URL to resume at among the pages, or else the old token.
unfoldable pub checkpoint {ℓ} : {E : Type ℓ} → List (Page E) → Option Text → Option Text
checkpoint [] old = old
checkpoint (page ∷ ps) old =
    let url = odata_resume_url page.next_link page.delta_link in
    checkpoint ps (if is_empty url then old else some url)

abbrev pub is_key : Query → Text → Text → Text → Bool
is_key q tenant service user =
    same q.tenant tenant && same q.service service && same q.token_key user

module _ {ℓ} {E : Type ℓ} (step : E → Progress → Progress) (q : Query) where
  pub run_turns-interrupted :
      (ts : List (Turn E)) (p : Progress) → (run_turns step ts p).1 ≡ not (interrupted ts)
  unfolding run_turns interrupted
  run_turns-interrupted [] p = refl
  run_turns-interrupted (over ∷ ts) p = refl
  run_turns-interrupted (entry e ∷ ts) p = run_turns-interrupted ts (step e p)

  pub persist-key :
      (page : Page E) (rows : List DeltaToken)
      → get_delta_token (persist q page rows) q.tenant q.service q.token_key ≡ (
          let url = odata_resume_url page.next_link page.delta_link in
          if is_empty url then get_delta_token rows q.tenant q.service q.token_key else some url)
  unfolding persist
  persist-key page rows =
      get-persist rows q.tenant q.service q.token_key
        (odata_resume_url page.next_link page.delta_link) page.now

  persist-other :
      (page : Page E) (rows : List DeltaToken) (tenant service user : Text)
      → is_key q tenant service user ≡ false
      → get_delta_token (persist q page rows) tenant service user
        ≡ get_delta_token rows tenant service user
  unfolding persist persist_delta_url
  persist-other page rows tenant service user h =
      elim (Bool-cases (is_empty (odata_resume_url page.next_link page.delta_link))) [
        | inl e ↦ rw e
        | inr e ↦ rw (e, get-upsert, h)
      ]

  -- After the loop over the pages, the token of the query is the last URL to resume at among the
  -- pages that were done to their end, or the old one if there is none: the page at which the loop
  -- was interrupted is not passed over. The tokens of all other keys are as before.
  pub run_pages-checkpoint :
      (page : Page E) (rest : List (Page E)) (rows : List DeltaToken) (p : Progress)
      → (get_delta_token (run_pages step q page rest rows p).0 q.tenant q.service q.token_key
          ≡ checkpoint (done_pages page rest) (get_delta_token rows q.tenant q.service q.token_key))
        × ((tenant service user : Text)
            → is_key q tenant service user ≡ false
            → get_delta_token (run_pages step q page rest rows p).0 tenant service user
              ≡ get_delta_token rows tenant service user)
  unfolding run_pages done_pages checkpoint
  run_pages-checkpoint page [] rows p = elim (Bool-cases (interrupted page.turns)) [
    | inl e ↦ rw (run_turns-interrupted page.turns p, e) (refl, λ t s u h. refl)
    | inr e ↦
        rw (run_turns-interrupted page.turns p, e)
          (elim (Option-cases (not_empty page.next_link)) [
            | inl n ↦ rw n (persist-key page rows, persist-other page rows)
            | inr (url, n) ↦ rw n (persist-key page rows, persist-other page rows)
          ])
  ]
  run_pages-checkpoint page (page' ∷ rest) rows p = elim (Bool-cases (interrupted page.turns)) [
    | inl e ↦ rw (run_turns-interrupted page.turns p, e) (refl, λ t s u h. refl)
    | inr e ↦
        rw (run_turns-interrupted page.turns p, e)
          (elim (Option-cases (not_empty page.next_link)) [
            | inl n ↦ rw n (persist-key page rows, persist-other page rows)
            | inr (url, n) ↦
                let later =
                  run_pages-checkpoint page' rest (persist q page rows)
                    (run_turns step page.turns p).0 in
                rw (n, ← persist-key page rows)
                  (later.0, λ t s u h. later.1 t s u h ∙ persist-other page rows t s u h)
          ])
  ]
