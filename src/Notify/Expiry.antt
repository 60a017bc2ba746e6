-- ===== src/Notify/Expiry.antt =====
-- internal/tenant/keycheck.go: CheckSecretExpiry. The float64 of Duration.Hours is taken as exact.
use m365_backup.Base.{
  ◌+◌, ◌*◌, ◌≡◌, not, Option, none, some, List, [], ◌∷◌, Text, arith, leb, ltb, if◌then◌else◌,
}
use m365_backup.Base.Int.{ℤ, pos, sub_ℕ, ltb_ℤ, div_ℤ}
use m365_backup.Clock.{Time, day_ns, is_zero}

pub record Tenant : Type 0 where
  pub id : Text
  pub name : Text
  pub secret_expires : Time

pub data Notice : Type 0 where
  key_expired key_expiry_7d key_expiry_30d : Notice

-- int(time.Until(t).Hours() / 24), which rounds towards zero.
unfoldable pub days_left : Time → Time → ℤ
days_left expires now = div_ℤ (sub_ℕ expires now) day_ns

-- The `switch` of CheckSecretExpiry.
unfoldable pub notice_of : Time → Time → Option Notice
unfolding days_left
notice_of expires now =
    let d = days_left expires now in
    if ltb_ℤ d (pos 0)
    then some key_expired
    else if not (ltb_ℤ (pos 7) d)
    then some key_expiry_7d
    else if not (ltb_ℤ (pos 30) d)
    then some key_expiry_30d
    else none

-- CheckSecretExpiry: what is sent, and to whom.
unfoldable pub check_secret_expiry : List Tenant → Time → List (Text × Notice)
unfolding notice_of
check_secret_expiry [] now = []
check_secret_expiry (t ∷ ts) now =
    let rest = check_secret_expiry ts now in
    if is_zero t.secret_expires
    then rest
    else elim (notice_of t.secret_expires now) [ none ↦ rest | some n ↦ (t.id, n) ∷ rest ]

-- A secret is reported as expired only from a day after its end on: in the day before, and up to
-- eight days before its end, it is reported as one that ends within seven days, and from then on up
-- to 31 days before its end as one that ends within 30 days.
pub notice_of-exact :
    (expires now : Time)
    → notice_of expires now ≡ (
        if leb (expires + day_ns) now
        then some key_expired
        else if ltb expires (now + 8 * day_ns)
        then some key_expiry_7d
        else if ltb expires (now + 31 * day_ns)
        then some key_expiry_30d
        else none)
unfolding notice_of days_left
notice_of-exact expires now = ground arith
