-- ===== src/Sync/Users.antt =====
-- internal/backup/onedrive.go: backupOneDrive, the sync of one user's drive.
use m365_backup.Base.{
  ℕ, ◌+◌, not, ◌&&◌, Option, List, Text, codes, is_empty, contains_text, ◌==◌, if◌then◌else◌,
}
use m365_backup.Blobs.{Crypto}
use m365_backup.Tokens.{DeltaToken}
use m365_backup.Sync.Fetch.{FetchError}
use m365_backup.Sync.Names.{sanitize}
use m365_backup.Sync.Pages.{Progress, Answer, warn}
use m365_backup.Sync.Drive.{DriveEntry, is_drive_unavailable, sync_drive}

-- What a user's sync changes: the tokens, the progress, and the counters of the run: users that were
-- skipped, users in all, drives with a change, drives that are done.
pub record Drives : Type 0 where
  pub tokens : List DeltaToken
  pub progress : Progress
  pub skipped : ℕ
  pub total : ℕ
  pub with_change : ℕ
  pub finished : ℕ

pub record DriveUser : Type 0 where
  pub uid : Text
  pub upn : Text
  pub mail : Text

-- The answer to the request for the user's drive: its ID, or an error.
pub data DriveAnswer : Type 0 where
  no_drive : FetchError → DriveAnswer
  drive : Text → DriveAnswer

abbrev skip : Drives → Drives
skip d = record d { skipped = d.skipped + 1 }

abbrev finish : Drives → Drives
finish d = record d { finished = d.finished + 1 }

-- The end of backupOneDrive: a drive without a change is skipped.
unfoldable pub after_sync : Drives → List DeltaToken × Progress → Drives
after_sync d (rows, p) =
    let d' = record d { tokens = rows; progress = p } in
    finish (if p.n == 0 then skip d' else record d' { with_change = d'.with_change + 1 })

-- backupOneDrive.
unfoldable pub backup_one_drive :
    Crypto → Text → DriveUser → DriveAnswer → (Option Text → Answer DriveEntry) → Drives → Drives
unfolding sync_drive sanitize after_sync is_drive_unavailable contains_text
backup_one_drive c tenant u answer ask d =
    let counted = record d { total = d.total + 1 } in
    let start = record d.progress { n = 0; skipped = 0 } in
    if is_empty u.uid
    then d
    else if not (contains_text u.upn (codes "@")) && is_empty u.mail
    then skip d
    else elim answer [
      | no_drive e ↦
          if is_drive_unavailable e
          then finish (skip counted)
          else finish (record counted { progress = warn d.progress })
      | drive id ↦
          if is_empty id
          then finish (skip counted)
          else after_sync counted (sync_drive c tenant u.uid (sanitize u.upn) ask d.tokens start)
    ]
