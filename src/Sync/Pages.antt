-- ===== src/Sync/Pages.antt =====
-- internal/backup/onedrive.go and exchange.go: the loop over the pages of a delta query, which
-- syncDriveDelta and backupFolderDelta share.

use m365_backup.Base.{
  ℕ, ◌+◌, Bool, true, false, not, ◌&&◌, ◌||◌, Option, none, some, List, [], ◌∷◌, Text, codes,
  is_empty, lower, starts_with, contains_text, if◌then◌else◌,
}
use m365_backup.Clock.{Time}
use m365_backup.Catalog.Store.{Store}
use m365_backup.Tokens.{DeltaToken, get_delta_token, odata_resume_url, not_empty, persist_delta_url}
use m365_backup.Sync.Fetch.{FetchError}

-- What a sync changes: the catalog, its own count, what it reports to the job's result, and the
-- number of warnings.
pub record Progress : Type 0 where
  pub cat : Store
  pub n : ℕ
  pub skipped : ℕ
  pub added : ℕ
  pub bytes : ℕ
  pub warnings : ℕ

-- What the loop over a page meets: the context is over, or an item.
pub data Turn {ℓ} (E : Type ℓ) : Type ℓ where
  over : Turn E
  entry : E → Turn E

pub record Page {ℓ} (E : Type ℓ) : Type ℓ where
  pub turns : List (Turn E)
  pub next_link : Option Text
  pub delta_link : Option Text
  pub now : Time

-- The answer to the first request: an error, or the first page, and the pages that the requests
-- after it get; the request after the last of these fails.
pub data Answer {ℓ} (E : Type ℓ) : Type ℓ where
  refused : FetchError → Answer E
  pages : Page E → List (Page E) → Answer E

-- What a delta query is about: where its token is kept, and the placeholder of old builds.
pub record Query : Type 0 where
  pub tenant : Text
  pub service : Text
  pub token_key : Text
  pub placeholder : Text

abbrev pub warn : Progress → Progress
warn p = record p { warnings = p.warnings + 1 }

-- The items of a page, one after the other; `false` when the context is over.
unfoldable pub run_turns {ℓ} :
    {E : Type ℓ} → (E → Progress → Progress) → List (Turn E) → Progress → Progress × Bool
run_turns step [] p = (p, true)
run_turns step (over ∷ ts) p = (warn p, false)
run_turns step (entry e ∷ ts) p = run_turns step ts (step e p)

-- persistDeltaURL, after a page. The context is taken to last from the look at it before the last
-- item to this write, whose error the code drops.
unfoldable pub persist {ℓ} : {E : Type ℓ} → Query → Page E → List DeltaToken → List DeltaToken
unfolding persist_delta_url
persist q page rows =
    persist_delta_url rows q.tenant q.service q.token_key
      (odata_resume_url page.next_link page.delta_link) page.now

-- The loop over the pages, from the page at hand.
unfoldable pub run_pages {ℓ} :
    {E : Type ℓ}
    → (E → Progress → Progress)
    → Query
    → Page E
    → List (Page E)
    → List DeltaToken
    → Progress
    → List DeltaToken × Progress
unfolding run_turns persist
run_pages step q page [] rows p =
    let (p', finished) = run_turns step page.turns p in
    if not finished then (rows, p') else elim (not_empty page.next_link) [
      | none ↦ (persist q page rows, p')
      | some url ↦ (persist q page rows, warn p')
    ]
run_pages step q page (page' ∷ rest) rows p =
    let (p', finished) = run_turns step page.turns p in
    let later = run_pages step q page' rest (persist q page rows) p' in
    if not finished
    then (rows, p')
    else elim (not_empty page.next_link) [ none ↦ (persist q page rows, p') | some url ↦ later ]

-- isDeltaGone.
unfoldable pub is_delta_gone : FetchError → Bool
is_delta_gone e =
    let s = lower e.text in
    contains_text s (codes "resyncrequired")
    || contains_text s (codes "syncstate")
    || (contains_text s (codes "410") && contains_text s (codes "gone"))
    || contains_text s (codes "deltatoken")

-- The saved token, or "" if there is none or only the placeholder of an old build.
unfoldable pub saved_token : Query → List DeltaToken → Text
unfolding get_delta_token starts_with
saved_token q rows = elim (get_delta_token rows q.tenant q.service q.token_key) [
  | none ↦ []
  | some saved ↦ if starts_with saved q.placeholder then [] else saved
]

-- The first request: with the saved token, and without one if there is none or it has expired.
unfoldable pub first_answer {ℓ} : {E : Type ℓ} → (Option Text → Answer E) → Text → Answer E
unfolding is_delta_gone
first_answer ask saved = if is_empty saved then ask none else elim (ask (some saved)) [
  | refused e ↦ if is_delta_gone e then ask none else refused e
  | pages page rest ↦ pages page rest
]

-- The whole sync of a delta query, with the errors that mean that there is nothing to back up.
unfoldable pub sync_delta {ℓ} :
    {E : Type ℓ}
    → (E → Progress → Progress)
    → Query
    → (FetchError → Bool)
    → (Option Text → Answer E)
    → List DeltaToken
    → Progress
    → List DeltaToken × Progress
unfolding run_pages first_answer saved_token
sync_delta step q is_unavailable ask rows p = elim (first_answer ask (saved_token q rows)) [
  | refused e ↦ (rows, if is_unavailable e then p else warn p)
  | pages page rest ↦ run_pages step q page rest rows p
]
