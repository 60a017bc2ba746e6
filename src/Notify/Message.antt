-- ===== src/Notify/Message.antt =====
-- internal/notification/service.go: the mail of an event.
use m365_backup.Base.{
  ℕ, Bool, true, false, not, ◌&&◌, ◌||◌, Option, none, some, List, [], ◌∷◌, ◌++◌, map, Text, codes,
  is_empty, any, contains, lower, trim_space, ◌==◌, if◌then◌else◌,
}

pub record Event : Type 0 where
  pub kind : Text
  pub tenant_id : Text
  pub subject : Text
  pub body : Text

pub record SmtpConfig : Type 0 where
  pub host : Text
  pub port : ℕ
  pub username : Text
  pub password : Text
  pub sender : Text
  pub recipients : List Text

abbrev cr : ℕ
cr = 13

abbrev lf : ℕ
lf = 10

-- sanitizeHeader.
unfoldable pub sanitize_header : Text → Text
sanitize_header [] = []
sanitize_header (c ∷ s) =
    let rest = sanitize_header s in
    if c == cr || c == lf then 32 ∷ rest else if c == 0 then rest else c ∷ rest

-- The three replacements of sanitizeBody that leave LF as the only line end.
unfoldable pub drop_nul : Text → Text
drop_nul [] = []
drop_nul (c ∷ s) = let rest = drop_nul s in if c == 0 then rest else c ∷ rest

unfoldable pub crlf_to_lf : Text → Text
crlf_to_lf [] = []
crlf_to_lf (c ∷ []) = c ∷ []
crlf_to_lf (c ∷ d ∷ s) = elim (c == 13 && d == 10) [
  | true ↦ 10 ∷ crlf_to_lf s
  | false ↦ c ∷ crlf_to_lf (d ∷ s)
]

abbrev pub cr_to_lf : ℕ → ℕ
cr_to_lf c = if c == cr then lf else c

unfoldable pub lf_to_crlf : Text → Text
lf_to_crlf [] = []
lf_to_crlf (c ∷ s) = let rest = lf_to_crlf s in if c == lf then cr ∷ lf ∷ rest else c ∷ rest

-- sanitizeBody.
unfoldable pub sanitize_body : Text → Text
unfolding drop_nul crlf_to_lf lf_to_crlf
sanitize_body s = lf_to_crlf (map cr_to_lf (crlf_to_lf (drop_nul s)))

abbrev pub is_meta : ℕ → Bool
is_meta c = c == 13 || c == 10 || c == 0

-- rejectSMTPMeta: whether the address is rejected.
unfoldable pub reject_smtp_meta : Text → Bool
reject_smtp_meta s = any is_meta s

-- strings.Join(parts, ",").
unfoldable pub comma_join : List Text → Text
comma_join [] = []
comma_join (p ∷ []) = p
comma_join (p ∷ q ∷ ps) = p ++ b',' ∷ comma_join (q ∷ ps)

abbrev end_line : Text → Text
end_line s = cr ∷ lf ∷ s

-- The message of sendSMTP.
unfoldable pub smtp_message : SmtpConfig → Event → Text
unfolding sanitize_header sanitize_body comma_join
smtp_message cfg ev =
    codes "From: "
    ++ sanitize_header cfg.sender
    ++ end_line (
        codes "To: "
        ++ sanitize_header (comma_join cfg.recipients)
        ++ end_line (
            codes "Subject: "
            ++ sanitize_header ev.subject
            ++ end_line (
                codes "MIME-Version: 1.0"
                ++ end_line (
                    codes "Content-Type: text/plain; charset=UTF-8"
                    ++ end_line (end_line (sanitize_body ev.body ++ end_line []))))))

-- What smtp.SendMail is called with.
pub record Mail : Type 0 where
  pub host : Text
  pub port : ℕ
  pub has_auth : Bool
  pub sender : Text
  pub recipients : List Text
  pub message : Text

-- sendSMTP up to the call of SendMail, for a configuration that could be decoded; `none` is an error.
unfoldable pub send_smtp : SmtpConfig → Event → Option Mail
unfolding smtp_message reject_smtp_meta
send_smtp cfg ev =
    if reject_smtp_meta cfg.sender || any reject_smtp_meta cfg.recipients
    then none
    else some (record {
      host = cfg.host;
      port = if cfg.port == 0 then 587 else cfg.port;
      has_auth = not (is_empty cfg.username);
      sender = sanitize_header cfg.sender;
      recipients = cfg.recipients;
      message = smtp_message cfg ev;
    })

abbrev services : List Text
services =
    codes "exchange" ∷ codes "onedrive" ∷ codes "sharepoint" ∷ codes "teams" ∷ codes "pst" ∷ []

-- SafeService.
unfoldable pub safe_service : Text → Text
safe_service service =
    let s = lower (trim_space service) in if contains services s then s else codes "unknown"
