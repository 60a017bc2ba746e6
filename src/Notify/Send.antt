-- ===== src/Notify/Send.antt =====
-- internal/notification/service.go: Send. A row of the log is without its ID, its time and the text of
-- the error.
use m365_backup.Base.{
  ◌≡◌, refl, Bool, true, false, not, ◌&&◌, ◌||◌, Option, none, some, List, [], ◌∷◌, ◌++◌, Text,
  codes, arith, is_empty, same, any, contains, map, keep_if, starts_with, append_assoc, append-nil,
  ◌∙◌, ◌⊎◌, ◌↔◌, is_empty_iff, same-eq, same_text, same_sym, contains-cons, if◌then◌else◌,
  Bool-cases, inl, inr,
}
use m365_backup.Notify.Message.{Event}

-- A row of notification_settings, its list of events decoded.
pub record Setting : Type 0 where
  pub tenant_id : Text
  pub channel : Text
  pub config : Text
  pub enabled : Bool
  pub notify_on : List Text

pub record Log : Type 0 where
  pub tenant_id : Text
  pub channel : Text
  pub event_type : Text
  pub subject : Text
  pub success : Bool

abbrev pub webhooks : List Text
webhooks = codes "webhook" ∷ codes "slack" ∷ codes "teams" ∷ []

-- What the channels make of a configuration and an event: whether there is no error.
pub record Channels : Type 0 where
  pub smtp : Text → Event → Bool
  pub webhook : Text → Text → Event → Bool
  pub pushover : Text → Event → Bool

-- The `switch` on the channel.
unfoldable pub send_to : Channels → Setting → Event → Bool
unfolding contains same
send_to ch st ev =
    if same st.channel (codes "smtp")
    then ch.smtp st.config ev
    else if contains webhooks st.channel
    then ch.webhook st.channel st.config ev
    else if same st.channel (codes "pushover")
    then ch.pushover st.config ev
    else false

-- The guards of the loop.
unfoldable pub is_for : Event → Setting → Bool
unfolding contains same
is_for ev st =
    st.enabled
    && (is_empty st.tenant_id || same st.tenant_id ev.tenant_id)
    && contains st.notify_on ev.kind

abbrev pub log_of : Channels → Event → Setting → Log
log_of ch ev st = record {
  tenant_id = ev.tenant_id;
  channel = st.channel;
  event_type = ev.kind;
  subject = ev.subject;
  success = send_to ch st ev;
}

-- The loop of Send: whether a setting matched, and the log.
unfoldable pub send_loop : Channels → Event → List Setting → Bool → List Log → Bool × List Log
unfolding is_for send_to
send_loop ch ev [] matched log = (matched, log)
send_loop ch ev (st ∷ sts) matched log =
    let skipped = send_loop ch ev sts matched log in
    let tried = send_loop ch ev sts true (log ++ log_of ch ev st ∷ []) in
    if is_for ev st then tried else skipped

-- The configuration of the environment, if there is one with a host and a recipient.
unfoldable pub use_fallback : Option Text → Event → Bool → Bool
unfolding same starts_with
use_fallback none ev matched = false
use_fallback (some config) ev matched =
    not matched && (same ev.kind (codes "job_error") || starts_with ev.kind (codes "key_"))

-- Send: the log, and whether the mail of the environment's configuration was sent in its stead.
unfoldable pub send : Channels → Option Text → List Setting → Event → List Log → List Log × Bool
unfolding send_loop use_fallback
send ch env settings ev log =
    let (matched, log') = send_loop ch ev settings false log in (log', use_fallback env ev matched)

send_loop-exact :
    (ch : Channels) (ev : Event) (settings : List Setting) (matched : Bool) (log : List Log)
    → send_loop ch ev settings matched log ≡ (
      matched || any (is_for ev) settings,
      log ++ map (log_of ch ev) (keep_if (is_for ev) settings),
    )
unfolding send_loop any keep_if
send_loop-exact ch ev [] matched log = ground (arith, append-nil log)
send_loop-exact ch ev (st ∷ sts) matched log = elim (Bool-cases (is_for ev st)) [
  | inl e ↦
      let rest = map (log_of ch ev) (keep_if (is_for ev) sts) in
      ground (
        arith,
        send_loop-exact ch ev sts true (log ++ log_of ch ev st ∷ []),
        append_assoc log (log_of ch ev st ∷ []) rest,
      )
  | inr e ↦ ground (arith, send_loop-exact ch ev sts matched log)
]

send-filtered :
    (ch : Channels) (env : Option Text) (settings : List Setting) (ev : Event) (log : List Log)
    → send ch env settings ev log ≡ (
      log ++ map (log_of ch ev) (keep_if (is_for ev) settings),
      use_fallback env ev (any (is_for ev) settings),
    )
unfolding send
send-filtered ch env settings ev log = rw (send_loop-exact ch ev settings false log) refl

-- What the channel of a setting makes of an event.
pub data Outcome (ch : Channels) (st : Setting) (ev : Event) : Bool → Type 0 where
  mailed : st.channel ≡ codes "smtp" → Outcome ch st ev (ch.smtp st.config ev)
  posted :
      contains webhooks st.channel ≡ true → Outcome ch st ev (ch.webhook st.channel st.config ev)
  pushed : st.channel ≡ codes "pushover" → Outcome ch st ev (ch.pushover st.config ev)
  unknown :
      contains (codes "smtp" ∷ codes "pushover" ∷ webhooks) st.channel ≡ false
      → Outcome ch st ev false

-- The setting is enabled, for all tenants or the event's, and lists the event's kind.
pub record Wants (ev : Event) (st : Setting) : Type 0 where
  pub enabled : st.enabled ≡ true
  pub tenant : (st.tenant_id ≡ []) ⊎ (st.tenant_id ≡ ev.tenant_id)
  pub kind : contains st.notify_on ev.kind ≡ true

-- The settings in their order, and the rows that are logged of them.
pub data Tried (ch : Channels) (ev : Event) : List Setting → List Log → Type 0 where
  over : Tried ch ev [] []
  passed :
      {st : Setting} {sts : List Setting} {ls : List Log}
      → ¬ Wants ev st
      → Tried ch ev sts ls
      → Tried ch ev (st ∷ sts) ls
  tried :
      {st : Setting} {sts : List Setting} {ls : List Log} {worked : Bool}
      → Wants ev st
      → Outcome ch st ev worked
      → Tried ch ev sts ls
      → Tried ch ev (st ∷ sts) (
          record {
            tenant_id = ev.tenant_id;
            channel = st.channel;
            event_type = ev.kind;
            subject = ev.subject;
            success = worked;
          }
          ∷ ls)

is_for-Wants : (ev : Event) (st : Setting) → is_for ev st ≡ true → Wants ev st
unfolding is_for
is_for-Wants ev st h = record {
  enabled = ground arith;
  tenant = elim (Bool-cases (is_empty st.tenant_id)) [
    | inl e ↦ inl ((is_empty_iff st.tenant_id).0 e)
    | inr e ↦ inr (same-eq st.tenant_id ev.tenant_id (ground arith))
  ];
  kind = ground arith;
}

Wants-is_for : (ev : Event) (st : Setting) → Wants ev st → is_for ev st ≡ true
unfolding is_for
Wants-is_for ev st w = elim w.tenant [
  | inl e ↦ ground (arith, w.enabled, w.kind, (is_empty_iff st.tenant_id).1 e)
  | inr e ↦ ground (arith, w.enabled, w.kind, same_text st.tenant_id ev.tenant_id e)
]

send_to-Outcome : (ch : Channels) (st : Setting) (ev : Event) → Outcome ch st ev (send_to ch st ev)
unfolding send_to
send_to-Outcome ch st ev = elim (Bool-cases (same st.channel (codes "smtp"))) [
  | inl a ↦ rw (send_to, a) (mailed (same-eq st.channel (codes "smtp") a))
  | inr a ↦ elim (Bool-cases (contains webhooks st.channel)) [
    | inl b ↦ rw (send_to, a, b) (posted b)
    | inr b ↦ elim (Bool-cases (same st.channel (codes "pushover"))) [
      | inl c ↦ rw (send_to, a, b, c) (pushed (same-eq st.channel (codes "pushover") c))
      | inr c ↦ rw (send_to, a, b, c) (unknown (none_of a b c))
    ]
  ]
]
  where
    none_of :
        same st.channel (codes "smtp") ≡ false
        → contains webhooks st.channel ≡ false
        → same st.channel (codes "pushover") ≡ false
        → contains (codes "smtp" ∷ codes "pushover" ∷ webhooks) st.channel ≡ false
    none_of a b c =
        contains-cons (codes "smtp") (codes "pushover" ∷ webhooks) st.channel
        ∙ ground (
          arith,
          contains-cons (codes "pushover") webhooks st.channel,
          same_sym st.channel (codes "smtp"),
          same_sym st.channel (codes "pushover"),
        )

keep_if-Tried :
    (ch : Channels) (ev : Event) (settings : List Setting)
    → Tried ch ev settings (map (log_of ch ev) (keep_if (is_for ev) settings))
unfolding keep_if
keep_if-Tried ch ev [] = over
keep_if-Tried ch ev (st ∷ sts) = elim (Bool-cases (is_for ev st)) [
  | inl e ↦ rw e (tried (is_for-Wants ev st e) (send_to-Outcome ch st ev) (keep_if-Tried ch ev sts))
  | inr e ↦ rw e (passed (λ w. absurd (cc (Wants-is_for ev st w))) (keep_if-Tried ch ev sts))
]

keep_if-none :
    (ch : Channels) (ev : Event) (settings : List Setting)
    → (any (is_for ev) settings ≡ false) ↔ (map (log_of ch ev) (keep_if (is_for ev) settings) ≡ [])
unfolding keep_if any
keep_if-none ch ev [] = (λ h. refl, λ h. refl)
keep_if-none ch ev (st ∷ sts) =
    let rest = keep_if-none ch ev sts in
    elim (Bool-cases (is_for ev st)) [
      | inl e ↦ (λ h. absurd (ground arith), λ h. absurd (ground arith))
      | inr e ↦ rw e rest
    ]

-- When the mail of the environment's configuration is due: there is such a configuration, no
-- setting was tried, and the event is a failed job or one about a key.
pub FallsBack : Option Text → Event → List Log → Type 0
FallsBack env ev new =
    ((config : Text) × (env ≡ some config))
    × (new ≡ [])
    × ((ev.kind ≡ codes "job_error") ⊎ (starts_with ev.kind (codes "key_") ≡ true))

use_fallback-FallsBack :
    (env : Option Text) (ev : Event) (matched : Bool) (new : List Log)
    → ((matched ≡ false) ↔ (new ≡ []))
    → (use_fallback env ev matched ≡ true) ↔ FallsBack env ev new
unfolding use_fallback FallsBack
use_fallback-FallsBack none ev matched new e =
    (λ h. absurd (ground arith), λ h. absurd (cc (h.0.1)))
use_fallback-FallsBack (some config) ev matched new e =
    (λ h. ((config, refl), e.0 (ground arith), of_kind h), λ h. on_kind (e.1 h.1) h.2)
  where
    of_kind :
        use_fallback (some config) ev matched ≡ true
        → (ev.kind ≡ codes "job_error") ⊎ (starts_with ev.kind (codes "key_") ≡ true)
    of_kind h = elim (Bool-cases (same ev.kind (codes "job_error"))) [
      | inl a ↦ inl (same-eq ev.kind (codes "job_error") a)
      | inr a ↦ inr (ground arith)
    ]

    on_kind :
        matched ≡ false
        → (ev.kind ≡ codes "job_error") ⊎ (starts_with ev.kind (codes "key_") ≡ true)
        → use_fallback (some config) ev matched ≡ true
    on_kind m (inl a) = ground (arith, same_text ev.kind (codes "job_error") a)
    on_kind m (inr a) = ground arith

-- Send goes through the settings in their order, and tries and logs exactly those that are enabled,
-- for all tenants or the event's, and list the event's kind, each once and with what its channel
-- answered, whatever the others answered; a channel of an unknown name counts as failed. The
-- environment's mail is sent exactly if it is configured, no setting was tried, and the event is a
-- failed job or one about a key.
pub send-exact :
    (ch : Channels) (env : Option Text) (settings : List Setting) (ev : Event) (log : List Log)
    → (new : List Log) × ((send ch env settings ev log).0 ≡ log ++ new)
      × Tried ch ev settings new
      × (((send ch env settings ev log).1 ≡ true) ↔ FallsBack env ev new)
send-exact ch env settings ev log =
    let new = map (log_of ch ev) (keep_if (is_for ev) settings) in
    rw (send-filtered ch env settings ev log) (
      new,
      refl,
      keep_if-Tried ch ev settings,
      use_fallback-FallsBack env ev (any (is_for ev) settings) new (keep_if-none ch ev settings),
    )
