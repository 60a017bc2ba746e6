-- ===== src/Notify/Webhook.antt =====
-- internal/notification/ssrf.go: where a webhook may go.
use m365_backup.Base.{
  ℕ, ◌≡◌, refl, Bool, true, false, not, ◌&&◌, ◌||◌, Option, none, some, List, [], ◌∷◌, ◌++◌, Text,
  codes, arith, is_empty, same, any, any-append, find_if, contains, length, lower, trim_space, take,
  drop, nth, ◌%◌, ◌==◌, leb, if◌then◌else◌, Bool-cases, inl, inr,
}

-- An IP address: 4 or 16 bytes.
abbrev pub Ip : Type 0
Ip = List ℕ

abbrev mapped_prefix : List ℕ
mapped_prefix = 0 ∷ 0 ∷ 0 ∷ 0 ∷ 0 ∷ 0 ∷ 0 ∷ 0 ∷ 0 ∷ 0 ∷ 255 ∷ 255 ∷ []

-- net.IP.To4.
unfoldable pub to4 : Ip → Option Ip
unfolding same
to4 ip =
    if length ip == 4
    then some ip
    else if length ip == 16 && same (take 12 ip) mapped_prefix
    then some (drop 12 ip)
    else none

abbrev pub byte_at : Ip → ℕ → ℕ
byte_at ip i = elim (nth ip i) [ none ↦ 0 | some b ↦ b ]

-- fd00:ec2::254.
abbrev aws_imds : Ip
aws_imds = 253 ∷ 0 ∷ 14 ∷ 194 ∷ 0 ∷ 0 ∷ 0 ∷ 0 ∷ 0 ∷ 0 ∷ 0 ∷ 0 ∷ 0 ∷ 0 ∷ 2 ∷ 84 ∷ []

-- net.IP.IsLinkLocalUnicast and IsLinkLocalMulticast, of an address of 16 bytes.
abbrev is_link_local : Ip → Bool
is_link_local ip =
    (length ip == 16)
    && ((byte_at ip 0 == 254 && leb 128 (byte_at ip 1) && leb (byte_at ip 1) 191)
        || (byte_at ip 0 == 255 && byte_at ip 1 % 16 == 2))

-- isBlockedWebhookIP; an empty address is nil.
unfoldable pub is_blocked_webhook_ip : Ip → Bool
unfolding to4 same
is_blocked_webhook_ip ip = if length ip == 0 then true else elim (to4 ip) [
  | some ip4 ↦ (byte_at ip4 0 == 169 && byte_at ip4 1 == 254) || byte_at ip4 0 == 0
  | none ↦ is_link_local ip || same ip aws_imds
]

-- What url.Parse gives.
pub record Url : Type 0 where
  pub scheme : Text
  pub hostname : Text
  pub has_user : Bool

abbrev blocked_webhook_hosts : List Text
blocked_webhook_hosts =
    codes "metadata.google.internal"
    ∷ codes "metadata.goog"
    ∷ codes "kubernetes.default"
    ∷ codes "kubernetes.default.svc"
    ∷ []

-- ValidateWebhookURL, over url.Parse and net.ParseIP: whether there is no error.
unfoldable pub validate_webhook_url : (Text → Option Url) → (Text → Option Ip) → Text → Bool
unfolding is_blocked_webhook_ip contains same
validate_webhook_url parse_url parse_ip raw =
    let t = trim_space raw in
    if is_empty t then false else elim (parse_url t) [
      | none ↦ false
      | some u ↦
          let scheme = lower u.scheme in
          if not (same scheme (codes "http")) && not (same scheme (codes "https"))
          then false
          else if is_empty u.hostname || u.has_user
          then false
          else if contains blocked_webhook_hosts (lower u.hostname)
          then false
          else elim (parse_ip u.hostname) [ none ↦ true | some ip ↦ not (is_blocked_webhook_ip ip) ]
    ]

-- The loop of the dial over the addresses of the host, with what a connection attempt gives, and
-- the addresses tried so far.
unfoldable pub dial : (Ip → Bool) → List Ip → List Ip → Option Ip × List Ip
unfolding is_blocked_webhook_ip
dial connects [] tried = (none, tried)
dial connects (ip ∷ ips) tried =
    let blocked = dial connects ips tried in
    let failed = dial connects ips (tried ++ ip ∷ []) in
    if is_blocked_webhook_ip ip
    then blocked
    else if connects ip
    then (some ip, tried ++ ip ∷ [])
    else failed

abbrev pub refused : (Ip → Bool) → Ip → Bool
refused connects ip = is_blocked_webhook_ip ip || not (connects ip)

tried-clean :
    (tried : List Ip) (ip : Ip)
    → any is_blocked_webhook_ip tried ≡ false
    → is_blocked_webhook_ip ip ≡ false
    → any is_blocked_webhook_ip (tried ++ ip ∷ []) ≡ false
unfolding any
tried-clean tried ip h e = ground (arith, any-append is_blocked_webhook_ip tried (ip ∷ []))

-- A dial tries none of the blocked addresses of the host, even if its name has some, and of the
-- others gets the first one that can be connected to, and none only if there is no such address.
pub dial-safe :
    (connects : Ip → Bool) (ips tried : List Ip)
    → any is_blocked_webhook_ip tried ≡ false
    → (any is_blocked_webhook_ip (dial connects ips tried).1 ≡ false)
      × ((dial connects ips tried).0 ≡ find_if (λ ip. not (refused connects ip)) ips)
unfolding dial find_if
dial-safe connects [] tried h = (h, refl)
dial-safe connects (ip ∷ ips) tried h = elim (Bool-cases (is_blocked_webhook_ip ip)) [
  | inl e ↦ rw e (dial-safe connects ips tried h)
  | inr e ↦
      let clean : any is_blocked_webhook_ip (tried ++ ip ∷ []) ≡ false = tried-clean tried ip h e in
      elim (Bool-cases (connects ip)) [
        | inl k ↦ rw (e, k) (clean, refl)
        | inr k ↦ rw (e, k) (dial-safe connects ips (tried ++ ip ∷ []) clean)
      ]
]
