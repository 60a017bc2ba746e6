-- ===== src/Sync/Resume.antt =====
-- internal/backup/onedrive.go and exchange.go: a sync that stops between two pages and is resumed
-- by the next run.
use m365_backup.Base.{
  ◌≡◌, refl, ◌∙◌, Bool, false, Option, none, some, List, [], ◌∷◌, ◌++◌, Text, arith, is_empty,
  starts_with, if◌then◌else◌, Bool-cases, Option-cases, inl, inr,
}
use m365_backup.Tokens.{DeltaToken, get_delta_token, not_empty, odata_resume_url}
use m365_backup.Sync.Fetch.{FetchError}
use m365_backup.Sync.Pages.{
  Progress, Turn, over, entry, Page, Query, Answer, pages, warn, run_turns, persist, run_pages,
  saved_token, first_answer, sync_delta,
}
use m365_backup.Sync.Checkpoint.{interrupted, run_turns-interrupted, persist-key}

-- A page that is done to its end, and has a next one at a URL.
pub record Leads {ℓ} {E : Type ℓ} (page : Page E) (url : Text) : Type ℓ where
  pub whole : interrupted page.turns ≡ false
  pub link : not_empty page.next_link ≡ some url

-- Pages that are all done to their end and followed by a next one, the last one's at a URL.
pub data Chain {ℓ} {E : Type ℓ} : Page E → List (Page E) → Text → Type ℓ where
  stop : (page : Page E) (url : Text) → Leads page url → Chain page [] url
  more :
      (page page' : Page E) (rest : List (Page E)) (here url : Text)
      → Leads page here
      → Chain page' rest url
      → Chain page (page' ∷ rest) url

link-nonempty : (next : Option Text) (url : Text) → not_empty next ≡ some url → is_empty url ≡ false
link-nonempty none url h = ground arith
link-nonempty (some []) url h = ground arith
link-nonempty (some (c ∷ s)) url h = ground arith

resume-link :
    (next delta : Option Text) (url : Text) {B : Type 0} (old : B) (of_url : Text → B)
    → not_empty next ≡ some url
    → (if is_empty (odata_resume_url next delta) then old else of_url (odata_resume_url next delta))
      ≡ of_url url
unfolding odata_resume_url
resume-link none delta url old of_url h = absurd (ground arith)
resume-link (some []) delta url old of_url h = absurd (ground arith)
resume-link (some (c ∷ s)) delta url old of_url h = ground arith

module _ {ℓ} {E : Type ℓ} (step : E → Progress → Progress) (q : Query) where
  module _ (free : (e : E) (p : Progress) → step e (warn p) ≡ warn (step e p)) where
    run_turns-warn :
        (ts : List (Turn E)) (p : Progress)
        → run_turns step ts (warn p) ≡ (warn (run_turns step ts p).0, (run_turns step ts p).1)
    unfolding run_turns
    run_turns-warn [] p = refl
    run_turns-warn (over ∷ ts) p = refl
    run_turns-warn (entry e ∷ ts) p = rw (free e p) (run_turns-warn ts (step e p))

    -- A warning before the loop is a warning after it.
    run_pages-warn :
        (page : Page E) (rest : List (Page E)) (rows : List DeltaToken) (p : Progress)
        → run_pages step q page rest rows (warn p)
          ≡ ((run_pages step q page rest rows p).0, warn (run_pages step q page rest rows p).1)
    unfolding run_pages
    run_pages-warn page [] rows p =
        rw (run_turns-warn page.turns p) (elim (Bool-cases (run_turns step page.turns p).1) [
          | inl e ↦ rw e (elim (Option-cases (not_empty page.next_link)) [
            | inl n ↦ rw (n, run_turns-warn page.turns p) refl
            | inr (url, n) ↦ rw (n, run_turns-warn page.turns p) refl
          ])
          | inr e ↦ rw e refl
        ])
    run_pages-warn page (page' ∷ rest) rows p =
        rw (run_turns-warn page.turns p) (elim (Bool-cases (run_turns step page.turns p).1) [
          | inl e ↦ rw e (elim (Option-cases (not_empty page.next_link)) [
            | inl n ↦ rw (n, run_turns-warn page.turns p) refl
            | inr (url, n) ↦
                rw (n, run_turns-warn page.turns p)
                  (run_pages-warn page' rest (persist q page rows) (run_turns step page.turns p).0)
          ])
          | inr e ↦ rw e refl
        ])

    -- The loop over a chain and the pages after it, in two runs.
    run_pages-append :
        (page : Page E) (ps : List (Page E)) (url : Text) (later : Page E) (rest : List (Page E))
        (rows : List DeltaToken) (p : Progress)
        → Chain page ps url
        → run_pages step q later rest
            (run_pages step q page ps rows p).0
            (run_pages step q page ps rows p).1
          ≡ (
            (run_pages step q page (ps ++ later ∷ rest) rows p).0,
            warn (run_pages step q page (ps ++ later ∷ rest) rows p).1,
          )
    unfolding run_pages
    run_pages-append page [] url later rest rows p (stop _ _ l) =
        rw (run_turns-interrupted step q page.turns p, l.whole, l.link)
          (run_pages-warn later rest (persist q page rows) (run_turns step page.turns p).0)
    run_pages-append page (page' ∷ ps) url later rest rows p (more _ _ _ here _ l chain) =
        rw (run_turns-interrupted step q page.turns p, l.whole, l.link)
          (run_pages-append page' ps url later rest (persist q page rows)
            (run_turns step page.turns p).0 chain)

  Chain-token :
      (page : Page E) (ps : List (Page E)) (url : Text) (rows : List DeltaToken) (p : Progress)
      → Chain page ps url
      → (get_delta_token (run_pages step q page ps rows p).0 q.tenant q.service q.token_key
          ≡ some url)
        × (is_empty url ≡ false)
  unfolding run_pages
  Chain-token page [] url rows p (stop _ _ l) =
      rw (run_turns-interrupted step q page.turns p, l.whole, l.link)
        (
          persist-key step q page rows
              ∙ resume-link page.next_link page.delta_link url
                  (get_delta_token rows q.tenant q.service q.token_key) some l.link,
          link-nonempty page.next_link url l.link,
        )
  Chain-token page (page' ∷ ps) url rows p (more _ _ _ here _ l chain) =
      rw (run_turns-interrupted step q page.turns p, l.whole, l.link)
        (Chain-token page' ps url (persist q page rows) (run_turns step page.turns p).0 chain)

  sync_delta-pages :
      (is_unavailable : FetchError → Bool) (ask : Option Text → Answer E) (rows : List DeltaToken)
      (p : Progress) (page : Page E) (rest : List (Page E))
      → first_answer ask (saved_token q rows) ≡ pages page rest
      → sync_delta step q is_unavailable ask rows p ≡ run_pages step q page rest rows p
  unfolding sync_delta
  sync_delta-pages is_unavailable ask rows p page rest h = rw (sync_delta, h) refl

  -- A token that is stored, and no placeholder, is where the first request begins.
  first_answer-token :
      (ask : Option Text → Answer E) (rows : List DeltaToken) (url : Text) (page : Page E)
      (rest : List (Page E))
      → get_delta_token rows q.tenant q.service q.token_key ≡ some url
      → is_empty url ≡ false
      → starts_with url q.placeholder ≡ false
      → ask (some url) ≡ pages page rest
      → first_answer ask (saved_token q rows) ≡ pages page rest
  unfolding first_answer saved_token
  first_answer-token ask rows url page rest token full own h =
      rw (first_answer, saved_token, token, own, full, h) refl

  module _ (free : (e : E) (p : Progress) → step e (warn p) ≡ warn (step e p)) where
    pub sync_delta-resume :
        (is_unavailable : FetchError → Bool) (ask ask_again ask_all : Option Text → Answer E)
        (rows : List DeltaToken) (p : Progress) (page later : Page E) (ps rest : List (Page E))
        (url : Text)
        → first_answer ask (saved_token q rows) ≡ pages page ps
        → Chain page ps url
        → starts_with url q.placeholder ≡ false
        → ask_again (some url) ≡ pages later rest
        → first_answer ask_all (saved_token q rows) ≡ pages page (ps ++ later ∷ rest)
        → (let first = sync_delta step q is_unavailable ask rows p in
            sync_delta step q is_unavailable ask_again first.0 first.1)
          ≡ (
            (sync_delta step q is_unavailable ask_all rows p).0,
            warn (sync_delta step q is_unavailable ask_all rows p).1,
          )
    sync_delta-resume is_unavailable ask ask_again ask_all rows p page later ps rest url first chain
          own again all =
        let (token, full) = Chain-token page ps url rows p chain in
        let second =
          first_answer-token ask_again (run_pages step q page ps rows p).0 url later rest token full
            own again in
        rw
          (
            sync_delta-pages is_unavailable ask rows p page ps first,
            sync_delta-pages is_unavailable ask_all rows p page (ps ++ later ∷ rest) all,
            sync_delta-pages is_unavailable ask_again (run_pages step q page ps rows p).0
                (run_pages step q page ps rows p).1 later rest second,
          )
          (run_pages-append free page ps url later rest rows p chain)
