-- ===== src/Smtp/Session/Auth.antt =====
-- src/smtp/session.rs: AUTH with PLAIN and LOGIN. The challenges with code 334 are replies, too; the
-- counters are left out. `decode` is the base64 library's decoder.
use smtp_relay.Prelude.{
  ℕ, Bool, true, ◌&&◌, ◌||◌, Option, none, some, List, [], ◌∷◌, ◌++◌, Text, codes, any, is_empty,
  text_eq, ◌==◌, if◌then◌else◌,
}
use smtp_relay.Util.Strings.{trim, is_some}
use smtp_relay.Util.Utf8.{from_utf8_lossy}
use smtp_relay.Util.Secrets.{secret_eq, b64_decode}
use smtp_relay.Smtp.Lines.{line, too_long, eof, Outcome, read, failed, elapsed, read_line}
use smtp_relay.Smtp.Body.{max_command_line}
use smtp_relay.Smtp.Session.{Session, Reply, Handled, replied, broken, reply, replied_once}

-- `InboundUser`, and the login of an `SmtpDetail`.
pub record Credentials : Type 0 where
  pub username : Text
  pub password : Text

pub record AuthConfig : Type 0 where
  pub auth_users : List Credentials
  pub smtp_details : List Credentials

-- What came of an exchange: an answer, a cancellation or failure, or a broken connection.
pub data Exchange {ℓ} (A : Type ℓ) : Type ℓ where
  given : A → Exchange A
  nothing : Exchange A
  cut : Exchange A

abbrev continuation : Text → Exchange Text
continuation text = if text_eq text (b'*' ∷ []) || is_empty text then nothing else given text

abbrev auth_line_of : Outcome → Exchange Text
auth_line_of (read (line l)) = continuation (trim (from_utf8_lossy l))
auth_line_of (read too_long) = nothing
auth_line_of (read eof) = nothing
auth_line_of failed = cut
auth_line_of elapsed = nothing

unfoldable pub read_auth_line : Session → Session × Exchange Text
unfolding read_line trim from_utf8_lossy
read_auth_line s =
    let (reader, outcome) = read_line max_command_line s.reader in
    (record s { reader = reader }, auth_line_of outcome)

-- An answer that came with the command, or else the next line.
abbrev pub answer : Option Text → Session → Session × List Reply × Exchange Text
answer (some text) s = (s, [], given text)
answer none s =
    let (s', e) = read_auth_line s in (s', record { code = 334; enhanced = none } ∷ [], e)

-- `split` at the zero bytes.
abbrev pub split_at_zero : List ℕ → List ℕ → List (List ℕ)
split_at_zero part [] = part ∷ []
split_at_zero part (b ∷ bs) =
    let ended = split_at_zero [] bs in
    let longer = split_at_zero (part ++ (b ∷ [])) bs in if b == 0 then part ∷ ended else longer

unfoldable pub plain_parts : List (List ℕ) → Exchange Credentials
unfolding from_utf8_lossy
plain_parts (authzid ∷ username ∷ password ∷ _) =
    given (record { username = from_utf8_lossy username; password = from_utf8_lossy password })
plain_parts _ = nothing

unfoldable pub both_parts : Option (List ℕ) → Option (List ℕ) → Exchange Credentials
unfolding from_utf8_lossy
both_parts (some username) (some password) =
    given (record { username = from_utf8_lossy username; password = from_utf8_lossy password })
both_parts _ _ = nothing

abbrev pub plain_of : Option (List ℕ) → Exchange Credentials
plain_of none = nothing
plain_of (some decoded) = plain_parts (split_at_zero [] decoded)

abbrev pub accepts : Credentials → Credentials → Bool
accepts c user = text_eq user.username c.username && secret_eq user.password c.password

unfoldable pub is_matched : AuthConfig → Credentials → Bool
unfolding text_eq secret_eq
is_matched cfg c = any (accepts c) cfg.auth_users || any (accepts c) cfg.smtp_details

unfoldable pub checked :
    AuthConfig → Session × List Reply × Exchange Credentials → Session × Handled
unfolding reply is_matched
checked cfg (s, replies, given c) =
    let s' = record s { authenticated = true; auth_user = some c.username } in
    if is_matched cfg c
    then (s', replied (replies ++ (reply s' 235 (some (codes "2.7.0")) ∷ [])))
    else (s, replied (replies ++ (reply s 535 (some (codes "5.7.8")) ∷ [])))
checked cfg (s, replies, nothing) =
    (s, replied (replies ++ (reply s 501 (some (codes "5.5.2")) ∷ [])))
checked cfg (s, replies, cut) = (s, broken replies)

module _ (decode : Text → Option (List ℕ)) where
  abbrev pub decoded_plain :
      Session × List Reply × Exchange Text → Session × List Reply × Exchange Credentials
  decoded_plain (s, replies, given encoded) = (s, replies, plain_of (b64_decode decode encoded))
  decoded_plain (s, replies, nothing) = (s, replies, nothing)
  decoded_plain (s, replies, cut) = (s, replies, cut)

  unfoldable pub collect_plain : Option Text → Session → Session × List Reply × Exchange Credentials
  unfolding b64_decode read_auth_line plain_parts
  collect_plain initial s = decoded_plain (answer initial s)

  abbrev pub decoded_login :
      Text
      → List Reply
      → Session × List Reply × Exchange Text
      → Session × List Reply × Exchange Credentials
  decoded_login username before (s, replies, given password) =
      (s, before ++ replies, both_parts (b64_decode decode username) (b64_decode decode password))
  decoded_login username before (s, replies, nothing) = (s, before ++ replies, nothing)
  decoded_login username before (s, replies, cut) = (s, before ++ replies, cut)

  abbrev pub asked_password :
      Session × List Reply × Exchange Text → Session × List Reply × Exchange Credentials
  asked_password (s, replies, given username) = decoded_login username replies (answer none s)
  asked_password (s, replies, nothing) = (s, replies, nothing)
  asked_password (s, replies, cut) = (s, replies, cut)

  unfoldable pub collect_login : Option Text → Session → Session × List Reply × Exchange Credentials
  unfolding b64_decode read_auth_line both_parts
  collect_login initial s = asked_password (answer initial s)

  unfoldable pub handle_auth : AuthConfig → Text → Option Text → Session → Session × Handled
  unfolding reply collect_plain collect_login checked text_eq
  handle_auth cfg mechanism initial s =
      if is_empty cfg.auth_users
      then replied_once s 503 (codes "5.5.1")
      else if s.authenticated
      then replied_once s 503 (codes "5.5.1")
      else if is_some s.envelope_sender
      then replied_once s 503 (codes "5.5.1")
      else if text_eq mechanism (codes "PLAIN")
      then checked cfg (collect_plain initial s)
      else if text_eq mechanism (codes "LOGIN")
      then checked cfg (collect_login initial s)
      else replied_once s 504 (codes "5.5.4")
