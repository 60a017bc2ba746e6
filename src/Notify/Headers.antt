-- ===== src/Notify/Headers.antt =====
-- internal/notification/service.go: what a reader of the mail of an event sees.
use m365_backup.Base.{
  ℕ, zero, suc, ◌≡◌, refl, Bool, true, false, not, ◌&&◌, ◌||◌, Option, none, some, List, [], ◌∷◌,
  ◌++◌, map, Text, codes, arith, is_empty, any, starts_with, drop, ◌==◌, if◌then◌else◌, Bool-cases,
  keep_if, ◌∙◌, inl, inr,
}
use m365_backup.Notify.Message.{
  Event, SmtpConfig, Mail, sanitize_header, drop_nul, crlf_to_lf, cr_to_lf, lf_to_crlf,
  sanitize_body, is_meta, reject_smtp_meta, comma_join, smtp_message, send_smtp,
}

-- A line up to the next CR LF or LF, and what is after it: smtp.SendMail makes a CR LF of a bare LF.
unfoldable pub read_line : Text → Text × Text
unfolding starts_with
read_line [] = ([], [])
read_line (c ∷ s) =
    let rest = read_line s in
    if c == 10
    then ([], s)
    else if c == 13 && starts_with s (10 ∷ [])
    then ([], drop 1 s)
    else (c ∷ rest.0, rest.1)

-- The lines before the first empty one, and what is after it.
unfoldable pub read_headers : ℕ → Text → Option (List Text × Text)
unfolding read_line
read_headers zero s = none
read_headers (suc n) s =
    let more = read_headers n (read_line s).1 in
    if is_empty (read_line s).0
    then some ([], (read_line s).1)
    else elim more [ none ↦ none | some (lines, body) ↦ some ((read_line s).0 ∷ lines, body) ]

-- No NUL, and CR and LF only together, where a CR stands before the text or does not.
unfoldable pub only_crlf : Bool → Text → Bool
only_crlf after [] = not after
only_crlf true (c ∷ s) = c == 10 && only_crlf false s
only_crlf false (c ∷ s) = not (c == 0) && not (c == 10) && only_crlf (c == 13) s

header_clean : (s : Text) → any is_meta (sanitize_header s) ≡ false
unfolding any sanitize_header
header_clean [] = refl
header_clean (c ∷ s) = ground (arith, header_clean s)

read_line-clean : (h t : Text) → any is_meta h ≡ false → read_line (h ++ 13 ∷ 10 ∷ t) ≡ (h, t)
unfolding read_line any starts_with
read_line-clean [] t clean = refl
read_line-clean (c ∷ h) t clean = ground (arith, read_line-clean h t)

read_line-named :
    (a b t : Text)
    → any is_meta a ≡ false
    → any is_meta b ≡ false
    → read_line (a ++ b ++ 13 ∷ 10 ∷ t) ≡ (a ++ b, t)
unfolding read_line any starts_with
read_line-named [] b t x y = read_line-clean b t y
read_line-named (c ∷ a) b t x y = ground (arith, read_line-named a b t)

drop_nul-none : (s : Text) → any (λ c. c == 0) (drop_nul s) ≡ false
unfolding any drop_nul
drop_nul-none [] = refl
drop_nul-none (c ∷ s) = ground (arith, drop_nul-none s)

crlf-none : (s : Text) → any (λ c. c == 0) s ≡ false → any (λ c. c == 0) (crlf_to_lf s) ≡ false
unfolding any crlf_to_lf
crlf-none [] h = h
crlf-none (c ∷ []) h = h
crlf-none (c ∷ d ∷ s) h = elim (Bool-cases (c == 13 && d == 10)) [
  | inl e ↦ rw (crlf_to_lf, e) (ground (arith, crlf-none s))
  | inr e ↦ rw (crlf_to_lf, e) (ground (arith, crlf-none (d ∷ s)))
]

body_lines :
    (s : Text) → any (λ c. c == 0) s ≡ false → only_crlf false (lf_to_crlf (map cr_to_lf s)) ≡ true
unfolding any only_crlf lf_to_crlf
body_lines [] h = refl
body_lines (c ∷ s) h = ground (arith, body_lines s)

sanitize_body-clean : (s : Text) → only_crlf false (sanitize_body s) ≡ true
unfolding sanitize_body
sanitize_body-clean s =
    body_lines (crlf_to_lf (drop_nul s)) (crlf-none (drop_nul s) (drop_nul-none s))

-- A value that a header can hold: without NUL, each CR and each LF a blank.
unfoldable pub header_value : Text → Text
header_value s =
    map (λ (c : ℕ). if c == 13 || c == 10 then 32 else c) (keep_if (λ (c : ℕ). not (c == 0)) s)

sanitize_header-value : (s : Text) → sanitize_header s ≡ header_value s
unfolding sanitize_header header_value keep_if
sanitize_header-value [] = refl
sanitize_header-value (c ∷ s) = ground (arith, sanitize_header-value s)

-- The bytes of a text that are neither NUL nor part of a line end.
abbrev pub printed : Text → Text
printed s = keep_if (λ (c : ℕ). not (is_meta c)) s

drop_nul-printed : (s : Text) → printed (drop_nul s) ≡ printed s
unfolding keep_if drop_nul
drop_nul-printed [] = refl
drop_nul-printed (c ∷ s) = ground (arith, drop_nul-printed s)

crlf_to_lf-printed : (s : Text) → printed (crlf_to_lf s) ≡ printed s
unfolding keep_if crlf_to_lf
crlf_to_lf-printed [] = refl
crlf_to_lf-printed (c ∷ []) = refl
crlf_to_lf-printed (c ∷ d ∷ s) = elim (Bool-cases (c == 13 && d == 10)) [
  | inl e ↦ rw (crlf_to_lf, e) (ground (arith, crlf_to_lf-printed s))
  | inr e ↦ rw (crlf_to_lf, e) (ground (arith, crlf_to_lf-printed (d ∷ s)))
]

lf_to_crlf-printed : (s : Text) → printed (lf_to_crlf (map cr_to_lf s)) ≡ printed s
unfolding keep_if lf_to_crlf
lf_to_crlf-printed [] = refl
lf_to_crlf-printed (c ∷ s) = ground (arith, lf_to_crlf-printed s)

sanitize_body-printed : (s : Text) → printed (sanitize_body s) ≡ printed s
unfolding sanitize_body
sanitize_body-printed s =
    lf_to_crlf-printed (crlf_to_lf (drop_nul s))
    ∙ crlf_to_lf-printed (drop_nul s)
    ∙ drop_nul-printed s

-- The header lines of an event.
abbrev pub headers_of : SmtpConfig → Event → List Text
headers_of cfg ev =
    (codes "From: " ++ header_value cfg.sender)
    ∷ (codes "To: " ++ header_value (comma_join cfg.recipients))
    ∷ (codes "Subject: " ++ header_value ev.subject)
    ∷ codes "MIME-Version: 1.0"
    ∷ codes "Content-Type: text/plain; charset=UTF-8"
    ∷ []

headers_clean : (cfg : SmtpConfig) (ev : Event) → any (any is_meta) (headers_of cfg ev) ≡ false
unfolding any
headers_clean cfg ev =
    rw
      (
        ← sanitize_header-value cfg.sender,
        ← sanitize_header-value (comma_join cfg.recipients),
        ← sanitize_header-value ev.subject,
        header_clean cfg.sender,
        header_clean (comma_join cfg.recipients),
        header_clean ev.subject,
      )
      refl

read_headers-of :
    (n : ℕ) (s l t : Text) (lines : List Text) (body : Text)
    → read_line s ≡ (l, t)
    → is_empty l ≡ false
    → read_headers n t ≡ some (lines, body)
    → read_headers (suc n) s ≡ some (l ∷ lines, body)
unfolding read_headers
read_headers-of n s l t lines body x y h = rw (read_headers, x, y, h) (rw x refl)

read_headers-line :
    (n : ℕ) (c : ℕ) (a b t : Text) (lines : List Text) (body : Text)
    → any is_meta (c ∷ a) ≡ false
    → any is_meta b ≡ false
    → read_headers n t ≡ some (lines, body)
    → read_headers (suc n) ((c ∷ a) ++ b ++ 13 ∷ 10 ∷ t) ≡ some (((c ∷ a) ++ b) ∷ lines, body)
read_headers-line n c a b t lines body x y h =
    read_headers-of n ((c ∷ a) ++ b ++ 13 ∷ 10 ∷ t) ((c ∷ a) ++ b) t lines body
      (read_line-named (c ∷ a) b t x y) refl h

read_headers-fixed :
    (n : ℕ) (c : ℕ) (a t : Text) (lines : List Text) (body : Text)
    → any is_meta (c ∷ a) ≡ false
    → read_headers n t ≡ some (lines, body)
    → read_headers (suc n) ((c ∷ a) ++ 13 ∷ 10 ∷ t) ≡ some ((c ∷ a) ∷ lines, body)
read_headers-fixed n c a t lines body x h =
    read_headers-of n ((c ∷ a) ++ 13 ∷ 10 ∷ t) (c ∷ a) t lines body (read_line-clean (c ∷ a) t x)
      refl h

read_headers-blank : (n : ℕ) (t : Text) → read_headers (suc n) (13 ∷ 10 ∷ t) ≡ some ([], t)
unfolding read_headers read_line starts_with
read_headers-blank n t = refl

smtp_message-lines :
    (cfg : SmtpConfig) (ev : Event)
    → read_headers 6 (smtp_message cfg ev)
      ≡ some (
        (codes "From: " ++ sanitize_header cfg.sender)
            ∷ (codes "To: " ++ sanitize_header (comma_join cfg.recipients))
            ∷ (codes "Subject: " ++ sanitize_header ev.subject)
            ∷ codes "MIME-Version: 1.0"
            ∷ codes "Content-Type: text/plain; charset=UTF-8"
            ∷ [],
        sanitize_body ev.body ++ 13 ∷ 10 ∷ [],
      )
unfolding smtp_message any
smtp_message-lines cfg ev =
    read_headers-line 5 _ (codes "rom: ") (sanitize_header cfg.sender) _ _ _ refl
      (header_clean cfg.sender)
      (read_headers-line 4 _ (codes "o: ") (sanitize_header (comma_join cfg.recipients)) _ _ _ refl
        (header_clean (comma_join cfg.recipients))
        (read_headers-line 3 _ (codes "ubject: ") (sanitize_header ev.subject) _ _ _ refl
          (header_clean ev.subject)
          (read_headers-fixed 2 _ (codes "IME-Version: 1.0") _ _ _ refl (
            read_headers-fixed 1 _ (codes "ontent-Type: text/plain; charset=UTF-8") _ _ _ refl
              (read_headers-blank 0 (sanitize_body ev.body ++ 13 ∷ 10 ∷ []))))))

smtp_message-headers :
    (cfg : SmtpConfig) (ev : Event)
    → read_headers 6 (smtp_message cfg ev)
      ≡ some (headers_of cfg ev, sanitize_body ev.body ++ 13 ∷ 10 ∷ [])
smtp_message-headers cfg ev =
    rw
      (
        ← sanitize_header-value cfg.sender,
        ← sanitize_header-value (comma_join cfg.recipients),
        ← sanitize_header-value ev.subject,
      )
      (smtp_message-lines cfg ev)

sender_clean : (s : Text) → reject_smtp_meta (sanitize_header s) ≡ false
unfolding reject_smtp_meta
sender_clean s = header_clean s

addresses_clean :
    (s : Text) (to : List Text)
    → (reject_smtp_meta s || any reject_smtp_meta to) ≡ false
    → any reject_smtp_meta (sanitize_header s ∷ to) ≡ false
unfolding any
addresses_clean s to h = ground (arith, sender_clean s)

-- A reader of the mail that is sent, to whom a bare LF ends a line too, finds before the first
-- empty line five header lines and no other one: sender, recipients and subject, in them each
-- CR and LF a blank and no NUL, and the two fixed lines; in no line stands a CR, LF or NUL. Behind
-- the empty line stands the body, which has all its bytes but CR, LF and NUL, in their order, no
-- NUL, and CR and LF only together. No address the mail is sent from or to has a CR, LF or NUL.
pub send_smtp-headers :
    (cfg : SmtpConfig) (ev : Event) (m : Mail)
    → send_smtp cfg ev ≡ some m
    → (read_headers 6 m.message ≡ some (headers_of cfg ev, sanitize_body ev.body ++ 13 ∷ 10 ∷ []))
      × (any (any is_meta) (headers_of cfg ev) ≡ false)
      × (printed (sanitize_body ev.body) ≡ printed ev.body)
      × (only_crlf false (sanitize_body ev.body) ≡ true)
      × (any reject_smtp_meta (m.sender ∷ m.recipients) ≡ false)
unfolding send_smtp
send_smtp-headers cfg ev m h =
    elim (Bool-cases (reject_smtp_meta cfg.sender || any reject_smtp_meta cfg.recipients)) [
      | inl e ↦ absurd (ground arith)
      | inr e ↦
          let text : m.message ≡ smtp_message cfg ev = ground arith in
          let to : m.recipients ≡ cfg.recipients = ground arith in
          let by_whom : m.sender ≡ sanitize_header cfg.sender = ground arith in
          (
            rw text (smtp_message-headers cfg ev),
            headers_clean cfg ev,
            sanitize_body-printed ev.body,
            sanitize_body-clean ev.body,
            rw (to, by_whom) (addresses_clean cfg.sender cfg.recipients e),
          )
    ]
