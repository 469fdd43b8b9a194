-- ===== src/Tests/Servers.antt =====
-- A client that sends two messages' worth of bytes in awkward pieces, and logins that fail.
use smtp_relay.Prelude.{
  ◌≡◌, refl, true, false, none, some, List, [], ◌∷◌, ◌++◌, arith, All, length, ltb, if◌then◌else◌,
  Text, codes, text_eq, eq_ignore_ascii_case, to_lower,
}
use smtp_relay.Smtp.Lines.{bytes, LineReader, read_line}
use smtp_relay.Smtp.Lines.Streams.{IsReady, Reads, stream}
use smtp_relay.Smtp.Lines.Reading.{read_line-next_line}
use smtp_relay.Smtp.Body.{complete, too_large, read_body}
use smtp_relay.Smtp.Body.Wire.{Receives, IsLine, stuffed, wire, payload, read_body-wire}
use smtp_relay.Smtp.Body.Returns.{read_body-returns}
use smtp_relay.Smtp.Session.{
  ServerConfig, Session, InboundMessage, SubmitOutcome, queued, handle_data, handle_ehlo,
  handle_mail, handle_rcpt, has_recipient, reset_transaction,
}
use smtp_relay.Util.Strings.{looks_like_email, is_some}
use smtp_relay.Smtp.Session.Transaction.{Op, ehlo, mail, rcpt, run, run-IsTransaction}
use smtp_relay.Smtp.Session.Handlers.{IsTransaction}
use smtp_relay.Smtp.Session.Data.{Closes, Submits, handle_data-wire}

-- A line that starts with a dot, one that is a dot, and an empty one.
abbrev lines : List Text
lines = codes ".hidden" ∷ codes "." ∷ [] ∷ []

-- A pipelined command stands behind the payload.
abbrev behind : Text
behind = codes "QUIT"

-- The stream, cut in the middle of the first line's end.
abbrev pub reader : LineReader
reader = record {
  inner =
      bytes (b'\n' ∷ codes "..")
      ∷ bytes (b'\r' ∷ b'\n' ∷ b'\r' ∷ b'\n' ∷ codes ".")
      ∷ bytes (b'\r' ∷ b'\n' ∷ codes "QUIT")
      ∷ [];
  buffer = codes "..hidden" ++ (b'\r' ∷ []);
  position = 0;
}

reader-IsReady : IsReady reader
reader-IsReady = record { data_only = (tt, (tt, (tt, tt))); within = omega arith }

reader_stream : stream reader ≡ wire lines ++ behind
unfolding stuffed
reader_stream = refl

lines-IsLine : All IsLine lines
lines-IsLine = ground arith

read_line-next_line_example : Reads 100 (stream reader) (read_line 100 reader)
read_line-next_line_example = read_line-next_line 100 reader reader-IsReady (omega arith)

read_body-wire_example :
    Receives
      (if ltb 100 (length (payload lines)) then too_large 100 else complete (payload lines))
      behind
      (read_body 5 100 reader)
read_body-wire_example =
    read_body-wire 5 100 lines behind reader lines-IsLine (omega arith) (omega arith) reader-IsReady
      reader_stream

read_body-returns_example : is_some (read_body 60 100 reader).1 ≡ true
read_body-returns_example =
    read_body-returns 60 100 reader reader-IsReady (omega arith) (omega arith)

abbrev pub server : ServerConfig
server = record { require_auth = false; max_recipients_per_message = 2; max_message_size = 100 }

abbrev pub session : Session
session = record {
  reader = reader;
  peer = 127 ∷ 0 ∷ 0 ∷ 1 ∷ [];
  helo_name = codes "client";
  esmtp = true;
  authenticated = false;
  auth_user = none;
  envelope_sender = some (codes "a@example.org");
  recipients = codes "b@example.net" ∷ [];
  accepted_messages = 0;
  protocol_errors = 0;
}

-- A dispatcher that queues everything.
abbrev pub submit : InboundMessage → SubmitOutcome
submit m = queued

handle_data-wire_example :
    Closes
      (Submits (ltb 100 (length (payload lines))) submit (codes "id") (payload lines) session)
      behind
      (handle_data submit 5 server (codes "id") session)
handle_data-wire_example =
    handle_data-wire submit 5 server (codes "id") lines behind session refl refl lines-IsLine
      (omega arith) (omega arith) reader-IsReady reader_stream

abbrev pub fresh : Session
fresh = record session { helo_name = []; esmtp = false; envelope_sender = none; recipients = [] }

pub fresh-IsTransaction : IsTransaction server fresh
fresh-IsTransaction = record { bounded = omega arith; addressed = tt; distinct = tt; opened = refl }

-- The second recipient is the first one in capitals.
abbrev commands : List Op
commands =
    ehlo (codes "client")
    ∷ mail (codes "a@example.org") (some 50)
    ∷ rcpt (codes "b@example.net")
    ∷ rcpt (codes "B@EXAMPLE.NET")
    ∷ []

run-commands : run submit server commands fresh ≡ some session
unfolding handle_ehlo handle_mail handle_rcpt has_recipient reset_transaction looks_like_email
    eq_ignore_ascii_case to_lower text_eq
run-commands = refl

run-IsTransaction_example : IsTransaction server session
run-IsTransaction_example =
    run-IsTransaction submit server commands fresh session fresh-IsTransaction run-commands
