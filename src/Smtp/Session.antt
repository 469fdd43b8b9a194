-- ===== src/Smtp/Session.antt =====
-- src/smtp/session.rs: the mail transaction of an SMTP session: the handlers of EHLO, HELO, MAIL,
-- RCPT, DATA and RSET. A handler returns the session and the replies that it has sent; a reply is its
-- code and its enhanced status code, without the text for people. When the client is gone and a
-- reply cannot be written, the session ends at once, so that its state does not matter any more.
pub mod Handlers
pub mod Transaction
pub mod Data
pub mod Auth
pub mod Loop
use smtp_relay.Prelude.{
  ℕ, ◌+◌, Bool, true, false, not, ◌&&◌, Option, none, some, List, [], ◌∷◌, ◌++◌, any, length, ltb,
  leb, if◌then◌else◌, Text, codes, is_empty, eq_ignore_ascii_case, add_u32,
}
use smtp_relay.Util.Strings.{looks_like_email, is_some}
use smtp_relay.Smtp.Lines.{LineReader}
use smtp_relay.Smtp.Body.{
  BodyResult, complete, too_large, aborted, Received, finished, io_error, read_body,
}

-- The fields of `ServerConfig` that these handlers read; the size is in bytes.
pub record ServerConfig : Type 0 where
  pub require_auth : Bool
  pub max_recipients_per_message : ℕ
  pub max_message_size : ℕ

pub record Session : Type 0 where
  pub reader : LineReader
  pub peer : List ℕ
  pub helo_name : Text
  pub esmtp : Bool
  pub authenticated : Bool
  pub auth_user : Option Text
  pub envelope_sender : Option Text
  pub recipients : List Text
  pub accepted_messages : ℕ
  pub protocol_errors : ℕ

pub record Reply : Type 0 where
  pub code : ℕ
  pub enhanced : Option Text

pub record InboundMessage : Type 0 where
  pub id : Text
  pub sender : Text
  pub recipients : List Text
  pub raw : List ℕ
  pub client_ip : Option (List ℕ)
  pub helo : Text
  pub auth_user : Option Text

pub data SubmitOutcome : Type 0 where
  delivered : (relay_id response : Text) → SubmitOutcome
  queued : SubmitOutcome
  rejected : (code : ℕ) (enhanced message : Text) → SubmitOutcome

-- A handler has replied, or it ends the session with an I/O error.
pub data Handled : Type 0 where
  replied : List Reply → Handled
  broken : List Reply → Handled

-- Only a client of the extended protocol gets the enhanced code.
unfoldable pub reply : Session → ℕ → Option Text → Reply
reply s code enhanced = record { code = code; enhanced = if s.esmtp then enhanced else none }

abbrev pub replied_once : Session → ℕ → Text → Session × Handled
replied_once s code enhanced = (s, replied (reply s code (some enhanced) ∷ []))

unfoldable pub reset_transaction : Session → Session
reset_transaction s = record s { envelope_sender = none; recipients = [] }

-- `Command::Ehlo` and `Command::Helo`.
unfoldable pub handle_ehlo : Text → Session → Session × Handled
unfolding reset_transaction reply
handle_ehlo domain s =
    let s' = reset_transaction (record s { helo_name = domain; esmtp = true }) in
    (s', replied (reply s' 250 none ∷ []))

unfoldable pub handle_helo : Text → Session → Session × Handled
unfolding reset_transaction reply
handle_helo domain s =
    let s' = reset_transaction (record s { helo_name = domain; esmtp = false }) in
    (s', replied (reply s' 250 none ∷ []))

abbrev pub exceeds : Option ℕ → ℕ → Bool
exceeds none limit = false
exceeds (some declared) limit = ltb limit declared

unfoldable pub handle_mail : ServerConfig → Text → Option ℕ → Session → Session × Handled
unfolding reply
handle_mail cfg address size s =
    if is_empty s.helo_name
    then replied_once s 503 (codes "5.5.1")
    else if cfg.require_auth && not s.authenticated
    then replied_once s 530 (codes "5.7.0")
    else if is_some s.envelope_sender
    then replied_once s 503 (codes "5.5.1")
    else if not (is_empty address) && not (looks_like_email address)
    then replied_once s 553 (codes "5.1.7")
    else if exceeds size cfg.max_message_size
    then replied_once s 552 (codes "5.3.4")
    else replied_once (record s { envelope_sender = some address; recipients = [] }) 250
        (codes "2.1.0")

-- A recipient that differs only in case is already there.
unfoldable pub has_recipient : List Text → Text → Bool
has_recipient recipients address =
    any (λ existing. eq_ignore_ascii_case existing address) recipients

unfoldable pub handle_rcpt : ServerConfig → Text → Session → Session × Handled
unfolding reply has_recipient
handle_rcpt cfg address s =
    if not (is_some s.envelope_sender)
    then replied_once s 503 (codes "5.5.1")
    else if not (looks_like_email address)
    then replied_once s 553 (codes "5.1.3")
    else if leb cfg.max_recipients_per_message (length s.recipients)
    then replied_once s 452 (codes "4.5.3")
    else if has_recipient s.recipients address
    then replied_once s 250 (codes "2.1.5")
    else replied_once (record s { recipients = s.recipients ++ (address ∷ []) }) 250 (codes "2.1.5")

unfoldable pub handle_rset : Session → Session × Handled
unfolding reset_transaction reply
handle_rset s = replied_once (reset_transaction s) 250 (codes "2.0.0")

abbrev pub or_empty : Option Text → Text
or_empty none = []
or_empty (some t) = t

-- The message that `dispatch_message` hands over.
unfoldable pub inbound_message : Text → List ℕ → Session → InboundMessage
inbound_message queue_id raw s = record {
  id = queue_id;
  sender = or_empty s.envelope_sender;
  recipients = s.recipients;
  raw = raw;
  client_ip = some s.peer;
  helo = s.helo_name;
  auth_user = s.auth_user;
}

abbrev pub counted : SubmitOutcome → Session → Session
counted (rejected code enhanced message) s = s
counted _ s = record s { accepted_messages = add_u32 s.accepted_messages 1 }

abbrev pub outcome_reply : SubmitOutcome → Session → Reply
outcome_reply (rejected code enhanced message) s = reply s code (some enhanced)
outcome_reply _ s = reply s 250 (some (codes "2.0.0"))

-- `submit` is the dispatcher, which the session calls; `queue_id` is the fresh identifier.
module _ (submit : InboundMessage → SubmitOutcome) where
  -- The third component is the message that has been submitted.
  unfoldable pub dispatch_message : Text → List ℕ → Session → Session × Reply × InboundMessage
  unfolding inbound_message reset_transaction reply
  dispatch_message queue_id raw s =
      let inbound = inbound_message queue_id raw s in
      let outcome = submit inbound in
      let s' = counted outcome (reset_transaction s) in (s', outcome_reply outcome s', inbound)

  abbrev go_ahead : Session → Reply
  go_ahead s = reply s 354 none

  -- What DATA does with what `read_body` has returned; the fuel has run out when there is nothing.
  unfoldable pub after_body :
      Text
      → Session
      → LineReader × Option Received
      → Option (Session × Handled × Option InboundMessage)
  unfolding dispatch_message reset_transaction reply
  after_body queue_id s (reader, none) = none
  after_body queue_id s (reader, some io_error) =
      some (record s { reader = reader }, broken (go_ahead s ∷ []), none)
  after_body queue_id s (reader, some (finished (aborted timed_out))) =
      some (reset_transaction (record s { reader = reader }), broken (go_ahead s ∷ []), none)
  after_body queue_id s (reader, some (finished (too_large limit))) = some (
    reset_transaction (record s { reader = reader }),
    replied (go_ahead s ∷ reply s 552 (some (codes "5.3.4")) ∷ []),
    none,
  )
  after_body queue_id s (reader, some (finished (complete raw))) =
      let (s', last, inbound) = dispatch_message queue_id raw (record s { reader = reader }) in
      some (s', replied (go_ahead s ∷ last ∷ []), some inbound)

  -- The third component is the message that has been submitted, if one has.
  unfoldable pub handle_data :
      ℕ → ServerConfig → Text → Session → Option (Session × Handled × Option InboundMessage)
  unfolding reply read_body after_body
  handle_data fuel cfg queue_id s =
      if not (is_some s.envelope_sender)
      then some (s, replied (reply s 503 (some (codes "5.5.1")) ∷ []), none)
      else if is_empty s.recipients
      then some (s, replied (reply s 503 (some (codes "5.5.1")) ∷ []), none)
      else after_body queue_id s (read_body fuel cfg.max_message_size s.reader)
