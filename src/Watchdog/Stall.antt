-- ===== src/Watchdog/Stall.antt =====
-- internal/backup/watchdog.go: when a job is killed over a sequence of checks.
use m365_backup.Base.{
  ℕ, ◌+◌, ◌<◌, ◌≡◌, refl, ap, Bool, true, false, ◌&&◌, Option, some, List, [], ◌∷◌, Text, arith,
  same, same_refl, same-eq, &&_split, leb, all,
}
use m365_backup.Clock.{Time}
use m365_backup.Jobs.{Job}
use m365_backup.Watchdog.{Track, Tracks, same_progress, track_of, moved_at, evaluate}

-- One look of the watchdog at a job: its row, its last log time, and the time of the check.
pub record Look : Type 0 where
  pub job : Job
  pub log_at : Option Time
  pub now : Time

abbrev same_job : Text → Job → Bool
same_job id j = same j.id id

-- Checks of one job, one after the other.
unfoldable pub looks : ℕ → Tracks → List Look → Tracks
looks stall tracks [] = tracks
looks stall tracks (l ∷ ls) = looks stall (evaluate stall tracks l.job l.log_at l.now).0 ls

-- The looks that show the job of the ID with the progress of a track.
abbrev pub is_quiet : Text → Track → Look → Bool
is_quiet id t l = same l.job.id id && same_progress t l.job

track-eq : (t : Track) (j : Job) → same_progress t j ≡ true → track_of j t.last_move ≡ t
track-eq t j h = ground (arith, same-eq t.message j.progress_message)

quiet_look :
    (stall : ℕ) (tracks : Tracks) (id : Text) (t : Track) (l : Look)
    → tracks id ≡ some t
    → is_quiet id t l ≡ true
    → ((evaluate stall tracks l.job l.log_at l.now).0 id ≡ some t)
      × ((evaluate stall tracks l.job l.log_at l.now).1 ≡ leb (t.last_move + stall) l.now)
unfolding evaluate moved_at
quiet_look stall tracks id t l h q =
    let (own, quiet) = &&_split (same l.job.id id) (same_progress t l.job) q in
    let name : l.job.id ≡ id = same-eq l.job.id id own in
    rw (name, h, moved_at, quiet, same_refl id) (ap some (track-eq t l.job quiet), refl)

quiet_looks :
    (stall : ℕ) (tracks : Tracks) (id : Text) (t : Track) (ls : List Look)
    → tracks id ≡ some t
    → all (is_quiet id t) ls ≡ true
    → looks stall tracks ls id ≡ some t
unfolding looks all
quiet_looks stall tracks id t [] h q = h
quiet_looks stall tracks id t (l ∷ ls) h q =
    let (one, more) = &&_split (is_quiet id t l) (all (is_quiet id t) ls) q in
    quiet_looks stall (evaluate stall tracks l.job l.log_at l.now).0 id t ls
      (quiet_look stall tracks id t l h one).0 more

moved_look :
    (stall : ℕ) (tracks : Tracks) (t : Track) (l : Look)
    → 0 < stall
    → tracks l.job.id ≡ some t
    → same_progress t l.job ≡ false
    → ((evaluate stall tracks l.job l.log_at l.now).1 ≡ false)
      × ((evaluate stall tracks l.job l.log_at l.now).0 l.job.id ≡ some (track_of l.job l.now))
unfolding evaluate moved_at
moved_look stall tracks t l pos h m = rw (h, moved_at, m, same_refl l.job.id) (ground arith, refl)

-- A check that sees a tracked job with progress of any kind does not kill it. Of the checks after it,
-- as long as they see the same bytes, items, percentage and message, each kills the job if the
-- stall time has passed since that check, and only then, however many checks stand between.
pub stall_exact :
    (stall : ℕ) (tracks : Tracks) (t : Track) (first last : Look) (between : List Look)
    → 0 < stall
    → tracks first.job.id ≡ some t
    → same_progress t first.job ≡ false
    → all (is_quiet first.job.id (track_of first.job first.now)) between ≡ true
    → is_quiet first.job.id (track_of first.job first.now) last ≡ true
    → ((evaluate stall tracks first.job first.log_at first.now).1 ≡ false)
      × ((evaluate stall (looks stall tracks (first ∷ between)) last.job last.log_at last.now).1
          ≡ leb (first.now + stall) last.now)
unfolding looks
stall_exact stall tracks t first last between pos known progress quiet still =
    let seen = track_of first.job first.now in
    let after = (evaluate stall tracks first.job first.log_at first.now).0 in
    let (kill, track) = moved_look stall tracks t first pos known progress in
    (
      kill,
      (quiet_look stall (looks stall after between) first.job.id seen last
          (quiet_looks stall after first.job.id seen between track quiet) still).1,
    )
