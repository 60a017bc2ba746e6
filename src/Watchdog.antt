-- ===== src/Watchdog.antt =====
-- internal/backup/watchdog.go: the watchdog, which kills running jobs that show no progress. The
-- stall time is positive, as NewWatchdog sees to; the ticker and the logger are left out.
pub mod Stall
use m365_backup.Base.{
  ℕ, ◌+◌, Bool, true, false, not, ◌&&◌, ◌||◌, Option, none, some, List, [], ◌∷◌, Text, same,
  contains, leb, ltb, ◌==◌, if◌then◌else◌,
}
use m365_backup.Clock.{Time, is_zero}
use m365_backup.Jobs.{Job, list_running_jobs}
use m365_backup.Runner.{World}
use m365_backup.Runner.Life.{kill_stale}

-- stallTrack.
pub record Track : Type 0 where
  pub bytes : ℕ
  pub items : ℕ
  pub pct : ℕ
  pub message : Text
  pub last_move : Time

-- `w.track`.
abbrev pub Tracks : Type 0
Tracks = Text → Option Track

unfoldable pub set_track : Tracks → Text → Track → Tracks
set_track tracks id t x = if same id x then some t else tracks x

-- initialActivity; `log_at` is the result of LastJobLogTime, `none` its error.
unfoldable pub initial_activity : Job → Option Time → Time → Time
initial_activity j log_at now =
    if ltb 0 j.bytes_transferred || ltb 0 j.items_new || ltb 0 j.progress_pct
    then elim log_at [ none ↦ now | some t ↦ if is_zero t then now else t ]
    else let start = if is_zero j.started_at then now else j.started_at in
      elim log_at [ none ↦ start | some t ↦ if not (is_zero t) && ltb start t then t else start ]

abbrev pub same_progress : Track → Job → Bool
same_progress t j =
    t.bytes == j.bytes_transferred
    && t.items == j.items_new
    && t.pct == j.progress_pct
    && same t.message j.progress_message

abbrev pub track_of : Job → Time → Track
track_of j moved = record {
  bytes = j.bytes_transferred;
  items = j.items_new;
  pct = j.progress_pct;
  message = j.progress_message;
  last_move = moved;
}

-- The last move that evaluate writes down.
unfoldable pub moved_at : Option Track → Job → Option Time → Time → Time
unfolding initial_activity
moved_at none j log_at now = initial_activity j log_at now
moved_at (some prev) j log_at now = if same_progress prev j then prev.last_move else now

-- evaluate: the new tracks, and whether to kill the job.
unfoldable pub evaluate : ℕ → Tracks → Job → Option Time → Time → Tracks × Bool
unfolding moved_at set_track
evaluate stall tracks j log_at now =
    let moved = moved_at (tracks j.id) j log_at now in
    (set_track tracks j.id (track_of j moved), leb (moved + stall) now)

-- prune.
unfoldable pub prune : Tracks → List Text → Tracks
prune tracks seen id = if contains seen id then tracks id else none

-- The loop of check over the jobs, with the reason and the detail of a kill, and the time of
-- each job's last log entry.
unfoldable pub check_each :
    ℕ → (Text → Option Time) → Text → Text → World → Tracks → List Job → Time → World × Tracks
unfolding evaluate
check_each stall log_time reason detail w tracks [] now = (w, tracks)
check_each stall log_time reason detail w tracks (j ∷ js) now =
    let (tracks', kill) = evaluate stall tracks j (log_time j.id) now in
    let w' = if kill then kill_stale w j.id reason detail now else w in
    check_each stall log_time reason detail w' tracks' js now

abbrev pub ids : List Job → List Text
ids [] = []
ids (j ∷ js) = j.id ∷ ids js

-- check.
unfoldable pub check :
    ℕ → (Text → Option Time) → Text → Text → World → Tracks → Time → World × Tracks
unfolding check_each prune
check stall log_time reason detail w tracks now =
    let jobs = list_running_jobs w.jobs in
    let (w', tracks') = check_each stall log_time reason detail w tracks jobs now in
    (w', prune tracks' (ids jobs))
