-- ===== src/Runner/Life/Errors.antt =====
-- internal/backup/job.go: isCancelErr.
use m365_backup.Base.{Bool, ◌||◌, map, Text, codes, to_lower, contains_text}

-- A Go error: its text, and whether `errors.Is` finds context.Canceled or DeadlineExceeded in it.
pub record Error : Type 0 where
  pub text : Text
  pub is_context : Bool

-- isCancelErr.
unfoldable pub is_cancel_err : Error → Bool
unfolding contains_text to_lower
is_cancel_err e = e.is_context || contains_text (map to_lower e.text) (codes "context canceled")
