-- ===== src/Smtp/Session/Data.antt =====
-- A whole DATA command, from the client's lines to the message that the dispatcher gets.
use smtp_relay.Prelude.{
  inl, inr, Bool-cases, ℕ, ◌+◌, ◌≡◌, ◌<◌, refl, Bool, true, false, Option, none, some, List, [],
  ◌∷◌, ◌++◌, map, length, ltb, if◌then◌else◌, All, is_empty, Text, u64_mod, add_u32, arith,
}
use smtp_relay.Util.Strings.{is_some}
use smtp_relay.Smtp.Lines.{LineReader}
use smtp_relay.Smtp.Lines.Streams.{IsReady, stream}
use smtp_relay.Smtp.Body.{complete, too_large, Received, finished, max_command_line}
use smtp_relay.Smtp.Body.Wire.{Receives, IsLine, wire, payload, read_body-wire}
use smtp_relay.Smtp.Session.{
  ServerConfig, Session, InboundMessage, SubmitOutcome, delivered, queued, rejected, Handled, Reply,
  replied, handle_data, after_body, dispatch_message, inbound_message, reset_transaction, reply,
  counted, outcome_reply,
}

-- The message carries the payload, and the envelope of the session's transaction.
pub record IsMessage (id : Text) (raw : List ℕ) (s : Session) (m : InboundMessage) : Type 0 where
  pub identified : m.id ≡ id
  pub sender : s.envelope_sender ≡ some m.sender
  pub recipients : m.recipients ≡ s.recipients
  pub body : m.raw ≡ raw
  pub client : m.client_ip ≡ some s.peer
  pub greeting : m.helo ≡ s.helo_name
  pub login : m.auth_user ≡ s.auth_user

-- The reply codes after the dispatcher's answer, and the count of messages that were accepted.
abbrev pub Answers : SubmitOutcome → Session → Session → List ℕ → Type 0
Answers (rejected code enhanced message) before after codes =
    (codes ≡ 354 ∷ code ∷ []) × (after.accepted_messages ≡ before.accepted_messages)
Answers _ before after codes =
    (codes ≡ 354 ∷ 250 ∷ []) × (after.accepted_messages ≡ add_u32 before.accepted_messages 1)

-- What DATA does with a payload: `true` says that it is over the limit.
abbrev pub Submits :
    Bool
    → (InboundMessage → SubmitOutcome)
    → Text
    → List ℕ
    → Session
    → Session
    → List ℕ
    → Option InboundMessage
    → Type 0
Submits true submit id raw before after codes submitted =
    (submitted ≡ none)
    × (codes ≡ 354 ∷ 552 ∷ [])
    × (after.accepted_messages ≡ before.accepted_messages)
Submits false submit id raw before after codes submitted =
    (m : InboundMessage) × (submitted ≡ some m)
    × IsMessage id raw before m
    × Answers (submit m) before after codes

-- DATA has returned with replies and no error, and with an effect on the session, the codes of the
-- replies and the message that was submitted, if any; the transaction is closed and the reader
-- stands ready before `rest`.
pub record Closes (Effect : Session → List ℕ → Option InboundMessage → Type 0) (rest : List ℕ)
    (res : Option (Session × Handled × Option InboundMessage)) : Type 0 where
  pub session : Session
  pub replies : List Reply
  pub submitted : Option InboundMessage
  pub returned : res ≡ some (session, replied replies, submitted)
  pub effect : Effect session (map (λ r. r.code) replies) submitted
  pub closed : (session.envelope_sender ≡ none) × (session.recipients ≡ [])
  pub ready : IsReady session.reader
  pub remains : stream session.reader ≡ rest

counted_frame :
    (o : SubmitOutcome) (s : Session)
    → ((counted o s).envelope_sender ≡ s.envelope_sender)
      × ((counted o s).recipients ≡ s.recipients)
      × ((counted o s).reader ≡ s.reader)
counted_frame (delivered r t) s = (refl, refl, refl)
counted_frame queued s = (refl, refl, refl)
counted_frame (rejected c e m) s = (refl, refl, refl)

counted-Answers :
    (o : SubmitOutcome) (before s : Session)
    → s.accepted_messages ≡ before.accepted_messages
    → Answers o before (counted o s) (354 ∷ (outcome_reply o (counted o s)).code ∷ [])
unfolding reply
counted-Answers (delivered r t) before s e = (refl, ground arith)
counted-Answers queued before s e = (refl, ground arith)
counted-Answers (rejected c x m) before s e = (refl, e)

inbound_message-IsMessage :
    (id : Text) (raw : List ℕ) (s : Session) (r : LineReader) (sender : Option Text)
    → s.envelope_sender ≡ sender
    → is_some sender ≡ true
    → IsMessage id raw s (inbound_message id raw (record s { reader = r }))
unfolding inbound_message
inbound_message-IsMessage id raw s r none e h = absurd (ground arith)
inbound_message-IsMessage id raw s r (some a) e h = record {
  identified = refl;
  sender = ground arith;
  recipients = refl;
  body = refl;
  client = refl;
  greeting = refl;
  login = refl;
}

complete-Closes :
    (submit : InboundMessage → SubmitOutcome) (id : Text) (raw rest : List ℕ) (s : Session)
    (r : LineReader)
    → is_some s.envelope_sender ≡ true
    → IsReady r
    → stream r ≡ rest
    → Closes
        (Submits false submit id raw s)
        rest
        (after_body submit id s (r, some (finished (complete raw))))
unfolding after_body dispatch_message reset_transaction reply
complete-Closes submit id raw rest s r h v e =
    let read = record s { reader = r } in
    let o = submit (inbound_message id raw read) in
    let (a, b, c) = counted_frame o (reset_transaction read) in
    record {
      session = _;
      replies = _;
      submitted = _;
      returned = refl;
      effect = (
        inbound_message id raw read,
        refl,
        inbound_message-IsMessage id raw s r s.envelope_sender refl h,
        counted-Answers o s (reset_transaction read) refl,
      );
      closed = (a, b);
      ready = rw c v;
      remains = rw c e;
    }

too_large-Closes :
    (submit : InboundMessage → SubmitOutcome) (id : Text) (limit : ℕ) (raw rest : List ℕ)
    (s : Session) (r : LineReader)
    → IsReady r
    → stream r ≡ rest
    → Closes
        (Submits true submit id raw s)
        rest
        (after_body submit id s (r, some (finished (too_large limit))))
unfolding after_body reset_transaction reply
too_large-Closes submit id limit raw rest s r v e = record {
  session = _;
  replies = _;
  submitted = _;
  returned = refl;
  effect = (refl, refl, refl);
  closed = (refl, refl);
  ready = v;
  remains = e;
}

after_body-Closes :
    (submit : InboundMessage → SubmitOutcome) (id : Text) (limit : ℕ) (raw rest : List ℕ)
    (s : Session) (res : LineReader × Option Received)
    → is_some s.envelope_sender ≡ true
    → Receives (if ltb limit (length raw) then too_large limit else complete raw) rest res
    → Closes (Submits (ltb limit (length raw)) submit id raw s) rest (after_body submit id s res)
after_body-Closes submit id limit raw rest s (r, o) h v =
    elim (Bool-cases (ltb limit (length raw))) [
      | inl b ↦ rw (v.outcome, b) (too_large-Closes submit id limit raw rest s r v.ready v.remains)
      | inr b ↦ rw (v.outcome, b) (complete-Closes submit id raw rest s r h v.ready v.remains)
    ]

-- When a client with an open transaction and at least one recipient sends DATA and then a
-- payload's lines, dots stuffed and ended by the line of one dot, the handler returns, the
-- transaction is closed, and the reader, which starts out ready, stands ready behind the payload.
-- A payload that keeps the size limit is submitted, byte for byte, with the identifier, and
-- with the transaction's sender and recipients and the client's address, greeting and login; the
-- reply has code 250 and the session has accepted one more message, as a 32-bit number, or the
-- reply has the code with which the dispatcher has rejected that message. A larger one is answered
-- by 552, and nothing is submitted. The fuel is more than the number of lines, the lines hold no
-- line feed, and the limit leaves room for a command line in a machine word.
pub handle_data-wire :
    (submit : InboundMessage → SubmitOutcome) (fuel : ℕ) (cfg : ServerConfig) (id : Text)
    (ls : List (List ℕ)) (rest : List ℕ) (s : Session)
    → is_some s.envelope_sender ≡ true
    → is_empty s.recipients ≡ false
    → All IsLine ls
    → length ls < fuel
    → cfg.max_message_size + max_command_line + 2 < u64_mod
    → IsReady s.reader
    → stream s.reader ≡ wire ls ++ rest
    → Closes
        (Submits (ltb cfg.max_message_size (length (payload ls))) submit id (payload ls) s)
        rest
        (handle_data submit fuel cfg id s)
unfolding handle_data
handle_data-wire submit fuel cfg id ls rest s e f all enough h v w =
    rw (e, f, handle_data)
      (after_body-Closes submit id cfg.max_message_size (payload ls) rest s _ e
        (read_body-wire fuel cfg.max_message_size ls rest s.reader all enough h v w))
