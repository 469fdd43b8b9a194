-- ===== src/Smtp/Session/Loop.antt =====
-- src/smtp/session.rs: `command_loop`, which reads, parses and handles one command line after the
-- other. The turns are numbered downwards, as fuel, since a client may send any number of commands;
-- `stopping`, `fresh` and `submit` say for each turn whether the server is shutting down, which
-- identifier a message gets, and what the dispatcher answers.
pub mod Admission
pub mod Logins
pub mod Turns
pub mod Noise
pub mod Closed
use smtp_relay.Prelude.{
  ℕ, zero, suc, ◌+◌, Bool, true, false, Option, none, some, List, [], ◌∷◌, ◌++◌, Text, codes, leb,
  if◌then◌else◌, add_u32, Result, ok, err,
}
use smtp_relay.Smtp.Lines.{
  ReadLine, line, too_long, eof, Outcome, read, failed, elapsed, LineReader, read_line,
}
use smtp_relay.Smtp.Body.{max_command_line}
use smtp_relay.Smtp.Command
use smtp_relay.Smtp.Command.{
  Command, ehlo, helo, mail, rcpt, data_command, rset, noop, quit, vrfy, expn, help, start_tls,
  auth, unimplemented, unknown, blank, CommandError,
}
use smtp_relay.Smtp.Session.{
  ServerConfig, Session, Reply, InboundMessage, SubmitOutcome, Handled, replied, broken, reply,
  replied_once, handle_ehlo, handle_helo, handle_mail, handle_rcpt, handle_rset, handle_data,
}
use smtp_relay.Smtp.Session.Auth.{AuthConfig, handle_auth}

pub data Disconnect : Type 0 where
  quits client_closed timed_out protocol_abuse write_failed read_failed server_shutdown : Disconnect

-- `MAX_PROTOCOL_ERRORS`.
abbrev pub max_protocol_errors : ℕ
max_protocol_errors = 12

unfoldable pub protocol_error : ℕ → Text → Session → Session × Reply
unfolding reply
protocol_error code enhanced s =
    let s' = record s { protocol_errors = add_u32 s.protocol_errors 1 } in
    (s', reply s' code (some enhanced))

-- What a turn leaves: the replies, the message that was submitted, and why the session ends, if it
-- does.
pub record Turn : Type 0 where
  pub session : Session
  pub replies : List Reply
  pub submitted : List InboundMessage
  pub ended : Option Disconnect

abbrev pub turned : Session × Handled → Turn
turned (s, replied rs) = record { session = s; replies = rs; submitted = []; ended = none }
turned (s, broken rs) = record {
  session = s;
  replies = rs;
  submitted = [];
  ended = some write_failed;
}

abbrev pub noticed : Session × Reply → Turn
noticed (s, r) = record { session = s; replies = r ∷ []; submitted = []; ended = none }

abbrev pub message_list : Option InboundMessage → List InboundMessage
message_list none = []
message_list (some m) = m ∷ []

abbrev pub data_turn : Option (Session × Handled × Option InboundMessage) → Option Turn
data_turn none = none
data_turn (some (s, h, m)) = let t = turned (s, h) in some (record t { submitted = message_list m })

-- An error that is counted, and ends the session at the limit.
abbrev pub abused : Session × Reply → Turn
abused (s, r) = record {
  session = s;
  replies = r ∷ [];
  submitted = [];
  ended = if leb max_protocol_errors s.protocol_errors then some protocol_abuse else none;
}

-- What the turns leave together; `ended` is `none` when there are more turns to take.
abbrev pub continued : Turn → Option Turn → Option Disconnect → Option Turn
continued t rest (some d) = some t
continued t none none = none
continued t (some u) none =
    some (record u { replies = t.replies ++ u.replies; submitted = t.submitted ++ u.submitted })

abbrev pub joined : (Session → Option Turn) → Option Turn → Option Turn
joined go none = none
joined go (some t) = continued t (go t.session) t.ended

module _ (decode : Text → Option (List ℕ)) (cfg : ServerConfig) (auth_cfg : AuthConfig) where
  -- `fuel` is for the payload of DATA.
  unfoldable pub handle :
      (InboundMessage → SubmitOutcome) → ℕ → Text → Command → Session → Option Turn
  unfolding protocol_error handle_ehlo handle_helo handle_mail handle_rcpt handle_rset handle_data
      handle_auth reply
  handle submit fuel id (ehlo domain) s = some (turned (handle_ehlo domain s))
  handle submit fuel id (helo domain) s = some (turned (handle_helo domain s))
  handle submit fuel id (mail address size) s = some (turned (handle_mail cfg address size s))
  handle submit fuel id (rcpt address) s = some (turned (handle_rcpt cfg address s))
  handle submit fuel id data_command s = data_turn (handle_data submit fuel cfg id s)
  handle submit fuel id rset s = some (turned (handle_rset s))
  handle submit fuel id noop s = some (turned (replied_once s 250 (codes "2.0.0")))
  handle submit fuel id quit s = some (record {
    session = s;
    replies = reply s 221 (some (codes "2.0.0")) ∷ [];
    submitted = [];
    ended = some quits;
  })
  handle submit fuel id vrfy s = some (turned (replied_once s 252 (codes "2.5.2")))
  handle submit fuel id expn s = some (turned (replied_once s 502 (codes "5.5.1")))
  handle submit fuel id help s = some (turned (replied_once s 214 (codes "2.0.0")))
  handle submit fuel id start_tls s = some (turned (replied_once s 454 (codes "4.7.0")))
  handle submit fuel id (auth mechanism initial) s =
      some (turned (handle_auth decode auth_cfg mechanism initial s))
  handle submit fuel id (unimplemented verb) s =
      some (noticed (protocol_error 502 (codes "5.5.1") s))
  handle submit fuel id (unknown verb) s = some (noticed (protocol_error 500 (codes "5.5.1") s))
  handle submit fuel id blank s = some (noticed (protocol_error 500 (codes "5.5.2") s))

  abbrev pub parsed :
      (InboundMessage → SubmitOutcome)
      → ℕ
      → Text
      → Result Command CommandError
      → Session
      → Option Turn
  parsed submit fuel id (ok command) s = handle submit fuel id command s
  parsed submit fuel id (err e) s = some (abused (protocol_error e.code e.enhanced s))

  abbrev pub ended_by : Session → List Reply → Disconnect → Option Turn
  ended_by s rs d = some (record { session = s; replies = rs; submitted = []; ended = some d })

  abbrev pub after_line :
      (InboundMessage → SubmitOutcome) → ℕ → Text → Session → Outcome → Option Turn
  after_line submit fuel id s (read (line l)) = parsed submit fuel id (Command.parse l) s
  after_line submit fuel id s (read too_long) = some (abused (protocol_error 500 (codes "5.5.2") s))
  after_line submit fuel id s (read eof) = ended_by s [] client_closed
  after_line submit fuel id s failed = ended_by s [] read_failed
  after_line submit fuel id s elapsed =
      ended_by s (reply s 421 (some (codes "4.4.2")) ∷ []) timed_out

  -- One turn of the loop while the server is not shutting down.
  unfoldable pub turn : (InboundMessage → SubmitOutcome) → ℕ → Text → Session → Option Turn
  unfolding Command.parse read_line protocol_error handle reply
  turn submit fuel id s =
      let (reader, outcome) = read_line max_command_line s.reader in
      after_line submit fuel id (record s { reader = reader }) outcome

  module _ (stopping : ℕ → Bool) (fresh : ℕ → Text) (submit : ℕ → InboundMessage → SubmitOutcome)
      (fuel : ℕ) where
    unfoldable pub command_loop : ℕ → Session → Option Turn
    unfolding turn reply
    command_loop zero s = some (record { session = s; replies = []; submitted = []; ended = none })
    command_loop (suc n) s =
        if stopping n
        then some (record {
          session = s;
          replies = reply s 421 (some (codes "4.3.2")) ∷ [];
          submitted = [];
          ended = some server_shutdown;
        })
        else joined (command_loop n) (turn (submit n) fuel (fresh n) s)
