-- ===== src/Retention/Rules.antt =====
-- internal/storage/retention.go: the policy's bounds and the arithmetic of its windows.
use m365_backup.Base.{
  ℕ, ◌+◌, ◌*◌, ◌≤◌, ◌<◌, ◌≡◌, refl, inl, inr, false, Text, arith, leb, is_empty, Bool-cases,
}
use m365_backup.Base.Int.{ℤ, pos_part, neg_part}
use m365_backup.Clock.{Time, hour_ns}
use m365_backup.Retention.{
  RetentionPolicy, normalize, parse_retention_json, in_hours, default_retention, at_least,
}

-- What `normalize` promises: no negative window, and at least one snapshot and one export run.
pub record IsNormal (p : RetentionPolicy) : Type 0 where
  pub hours : neg_part p.keep_hours ≡ 0
  pub daily : neg_part p.keep_daily ≡ 0
  pub weekly : neg_part p.keep_weekly ≡ 0
  pub monthly : neg_part p.keep_monthly ≡ 0
  pub yearly : neg_part p.keep_yearly ≡ 0
  pub newest : 1 ≤ pos_part p.keep_min
  pub runs : 1 ≤ pos_part p.pst_keep_runs

pub at_least_bounds :
    (lo : ℕ) (v : ℤ) → (lo ≤ pos_part (at_least lo v)) × (neg_part (at_least lo v) ≡ 0)
at_least_bounds lo v = ground arith

pub normalize-IsNormal : (p : RetentionPolicy) → IsNormal (normalize p)
unfolding normalize
normalize-IsNormal p = record {
  hours = (at_least_bounds 0 p.keep_hours).1;
  daily = (at_least_bounds 0 p.keep_daily).1;
  weekly = (at_least_bounds 0 p.keep_weekly).1;
  monthly = (at_least_bounds 0 p.keep_monthly).1;
  yearly = (at_least_bounds 0 p.keep_yearly).1;
  newest = (at_least_bounds 1 p.keep_min).0;
  runs = (at_least_bounds 1 p.pst_keep_runs).0;
}

pub at_least_idem : (lo : ℕ) (v : ℤ) → at_least lo (at_least lo v) ≡ at_least lo v
at_least_idem lo v = ground arith

default_retention-IsNormal : IsNormal default_retention
unfolding default_retention
default_retention-IsNormal = omega arith

normalize_idem : (p : RetentionPolicy) → normalize (normalize p) ≡ normalize p
unfolding normalize
normalize_idem p = simp at_least_idem

-- Whatever the stored JSON is, and however much of it can be decoded, the policy in use has no
-- negative window and keeps at least one snapshot and one export run, and normalizing it once
-- more changes nothing.
pub parse_retention_json-IsNormal :
    (unmarshal : Text → RetentionPolicy → RetentionPolicy) (s : Text)
    → IsNormal (parse_retention_json unmarshal s)
      × (normalize (parse_retention_json unmarshal s) ≡ parse_retention_json unmarshal s)
unfolding parse_retention_json
parse_retention_json-IsNormal unmarshal s = elim (Bool-cases (is_empty s)) [
  | inl e ↦ rw e (default_retention-IsNormal, unfold normalize default_retention in refl)
  | inr e ↦ rw e (
    normalize-IsNormal (unmarshal s default_retention),
    normalize_idem (unmarshal s default_retention),
  )
]

-- Up to 2562047 hours (292 years) the hours window is what it means to be: a snapshot is inside
-- exactly when its age is at most that many hours.
pub in_hours_exact :
    (hours : ℕ) (now t : Time)
    → hours ≤ 2562047
    → in_hours hours now t ≡ leb now (t + hours * hour_ns)
unfolding in_hours
in_hours_exact hours now t h = ground arith

-- From 2562048 hours to 5124095 the duration wraps around: the cutoff lies in the future, and no
-- snapshot taken up to now is inside the hours window.
pub in_hours_overflow :
    (hours : ℕ) (now t : Time)
    → 2562047 < hours
    → hours ≤ 5124095
    → t ≤ now
    → in_hours hours now t ≡ false
unfolding in_hours
in_hours_overflow hours now t h k e = ground arith
