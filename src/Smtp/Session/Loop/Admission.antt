-- ===== src/Smtp/Session/Loop/Admission.antt =====
-- What reaches the dispatcher from a client, whatever bytes it sends.
use smtp_relay.Prelude.{
  ℕ, ◌≡◌, ◌≤◌, Bool, true, false, not, ◌&&◌, ◌||◌, Option, none, some, List, [], ◌∷◌, inl, inr,
  arith, Bool-cases, Text, any, is_empty, length, All, text_eq,
}
use smtp_relay.Util.Strings.{looks_like_email, is_some}
use smtp_relay.Smtp.Lines.{LineReader}
use smtp_relay.Smtp.Body.{complete, too_large, aborted, Received, finished, io_error, read_body}
use smtp_relay.Smtp.Session.{
  ServerConfig, Session, InboundMessage, SubmitOutcome, Handled, replied, broken, handle_mail,
  handle_rcpt, handle_data, after_body, dispatch_message, inbound_message, reset_transaction,
}
use smtp_relay.Smtp.Session.Handlers.{IsTransaction, IsOpened, Distinct, Leaves}
use smtp_relay.Smtp.Session.Auth.{AuthConfig, Credentials, is_matched, accepts}
use smtp_relay.Smtp.Session.Loop.{Turn, turned, data_turn}

-- The name of one of the logins that are configured.
abbrev pub IsUser : AuthConfig → Text → Type 0
IsUser cfg name =
    (any (λ user. text_eq user.username name) cfg.auth_users
      || any (λ user. text_eq user.username name) cfg.smtp_details)
    ≡ true

-- Where a login is needed there is one, with a name that is configured.
abbrev pub Login : AuthConfig → Bool → Option Text → Type 0
Login cfg false name = Unit
Login cfg true none = ⊥
Login cfg true (some name) = IsUser cfg name

pub record IsAdmitted (cfg : ServerConfig) (auth_cfg : AuthConfig) (s : Session) : Type 0 where
  pub transaction : IsTransaction cfg s
  pub login : Login auth_cfg s.authenticated s.auth_user

-- A message that the dispatcher may get.
pub record IsProper (cfg : ServerConfig) (auth_cfg : AuthConfig) (m : InboundMessage) : Type 0 where
  pub greeted : is_empty m.helo ≡ false
  pub addressed : is_empty m.recipients ≡ false
  pub bounded : length m.recipients ≤ cfg.max_recipients_per_message
  pub well_formed : All (λ a. looks_like_email a ≡ true) m.recipients
  pub distinct : Distinct m.recipients
  pub login : Login auth_cfg cfg.require_auth m.auth_user

abbrev pub Keeps : ServerConfig → AuthConfig → Option Turn → Type 0
Keeps cfg auth_cfg none = Unit
Keeps cfg auth_cfg (some t) =
    IsAdmitted cfg auth_cfg t.session × All (IsProper cfg auth_cfg) t.submitted

-- The other handlers leave the login alone.
pub handle_mail-Login :
    (cfg : ServerConfig) (auth_cfg : AuthConfig) (a : Text) (size : Option ℕ) (s : Session)
    → Login auth_cfg s.authenticated s.auth_user
    → Login auth_cfg
        (handle_mail cfg a size s).0.authenticated
        (handle_mail cfg a size s).0.auth_user
unfolding handle_mail
handle_mail-Login cfg auth_cfg a size s v = ground arith

pub handle_rcpt-Login :
    (cfg : ServerConfig) (auth_cfg : AuthConfig) (a : Text) (s : Session)
    → Login auth_cfg s.authenticated s.auth_user
    → Login auth_cfg (handle_rcpt cfg a s).0.authenticated (handle_rcpt cfg a s).0.auth_user
unfolding handle_rcpt
handle_rcpt-Login cfg auth_cfg a s v = ground arith

abbrev LeavesLogin : AuthConfig → Option (Session × Handled × Option InboundMessage) → Type 0
LeavesLogin auth_cfg none = Unit
LeavesLogin auth_cfg (some res) = Login auth_cfg res.0.authenticated res.0.auth_user

after_body-Login :
    (submit : InboundMessage → SubmitOutcome) (auth_cfg : AuthConfig) (id : Text) (s : Session)
    (res : LineReader × Option Received)
    → Login auth_cfg s.authenticated s.auth_user
    → LeavesLogin auth_cfg (after_body submit id s res)
unfolding after_body dispatch_message reset_transaction
after_body-Login submit auth_cfg id s (r, none) v = tt
after_body-Login submit auth_cfg id s (r, some io_error) v = v
after_body-Login submit auth_cfg id s (r, some (finished (aborted t))) v = v
after_body-Login submit auth_cfg id s (r, some (finished (too_large l))) v = v
after_body-Login submit auth_cfg id s (r, some (finished (complete raw))) v = ground arith

any_mono :
    (p q : Credentials → Bool) (xs : List Credentials)
    → ((c : Credentials) → p c ≡ true → q c ≡ true)
    → any p xs ≡ true
    → any q xs ≡ true
any_mono p q [] f e = e
any_mono p q (x ∷ xs) f e = ground (arith, f x, any_mono p q xs f)

accepts-any :
    (c : Credentials) (us : List Credentials)
    → any (accepts c) us ≡ true
    → any (λ user. text_eq user.username c.username) us ≡ true
accepts-any c us e = any_mono (accepts c) _ us (λ u (h : accepts c u ≡ true). ground arith) e

-- A match names a login that is configured.
pub is_matched-IsUser :
    (cfg : AuthConfig) (c : Credentials) → is_matched cfg c ≡ true → IsUser cfg c.username
unfolding is_matched
is_matched-IsUser cfg c e =
    ground (arith, accepts-any c cfg.auth_users, accepts-any c cfg.smtp_details)

-- A session that differs in what it has read.
pub frame :
    (cfg : ServerConfig) (auth_cfg : AuthConfig) (s : Session) (r : LineReader) (errors : ℕ)
    → IsAdmitted cfg auth_cfg s
    → IsAdmitted cfg auth_cfg (record s { reader = r; protocol_errors = errors })
frame cfg auth_cfg s r errors v = record {
  transaction = record {
    bounded = v.transaction.bounded;
    addressed = v.transaction.addressed;
    distinct = v.transaction.distinct;
    opened = opened s.envelope_sender v.transaction.opened;
  };
  login = v.login;
}
  where
    opened :
        (o : Option Text)
        → IsOpened cfg s o
        → IsOpened cfg (record s { reader = r; protocol_errors = errors }) o
    opened none h = h
    opened (some a) h = h

abbrev AreProper : ServerConfig → AuthConfig → Option InboundMessage → Type 0
AreProper cfg auth_cfg none = Unit
AreProper cfg auth_cfg (some m) = IsProper cfg auth_cfg m

abbrev Sends :
    ServerConfig → AuthConfig → Option (Session × Handled × Option InboundMessage) → Type 0
Sends cfg auth_cfg none = Unit
Sends cfg auth_cfg (some (s, h, m)) =
    Login auth_cfg s.authenticated s.auth_user × AreProper cfg auth_cfg m

required-Login :
    (auth_cfg : AuthConfig) (required authenticated : Bool) (name : Option Text)
    → (required && not authenticated) ≡ false
    → Login auth_cfg authenticated name
    → Login auth_cfg required name
required-Login auth_cfg false a name e v = tt
required-Login auth_cfg true true name e v = v
required-Login auth_cfg true false name e v = absurd (ground arith)

-- The message of an open transaction with recipients.
inbound_message-IsProper :
    (cfg : ServerConfig) (auth_cfg : AuthConfig) (id : Text) (raw : List ℕ) (s : Session)
    (sender : Option Text)
    → IsAdmitted cfg auth_cfg s
    → IsOpened cfg s sender
    → is_some sender ≡ true
    → is_empty s.recipients ≡ false
    → IsProper cfg auth_cfg (inbound_message id raw s)
unfolding inbound_message
inbound_message-IsProper cfg auth_cfg id raw s none v o e n = absurd (ground arith)
inbound_message-IsProper cfg auth_cfg id raw s (some a) v o e n = record {
  greeted = o.0;
  addressed = n;
  bounded = v.transaction.bounded;
  well_formed = v.transaction.addressed;
  distinct = v.transaction.distinct;
  login = required-Login auth_cfg cfg.require_auth s.authenticated s.auth_user o.1 v.login;
}

after_body-Sends :
    (submit : InboundMessage → SubmitOutcome) (cfg : ServerConfig) (auth_cfg : AuthConfig)
    (id : Text) (s : Session) (res : LineReader × Option Received)
    → IsAdmitted cfg auth_cfg s
    → is_some s.envelope_sender ≡ true
    → is_empty s.recipients ≡ false
    → Sends cfg auth_cfg (after_body submit id s res)
unfolding after_body dispatch_message reset_transaction
after_body-Sends submit cfg auth_cfg id s (r, none) v e n = tt
after_body-Sends submit cfg auth_cfg id s (r, some io_error) v e n = (v.login, tt)
after_body-Sends submit cfg auth_cfg id s (r, some (finished (aborted t))) v e n = (v.login, tt)
after_body-Sends submit cfg auth_cfg id s (r, some (finished (too_large l))) v e n = (v.login, tt)
after_body-Sends submit cfg auth_cfg id s (r, some (finished (complete raw))) v e n =
    let read = frame cfg auth_cfg s r s.protocol_errors v in
    (
      after_body-Login submit auth_cfg id s (r, some (finished (complete raw))) v.login,
      inbound_message-IsProper cfg auth_cfg id raw (record s { reader = r }) s.envelope_sender read
          read.transaction.opened e n,
    )

pub handle_data-Sends :
    (submit : InboundMessage → SubmitOutcome) (fuel : ℕ) (cfg : ServerConfig)
    (auth_cfg : AuthConfig) (id : Text) (s : Session)
    → IsAdmitted cfg auth_cfg s
    → Sends cfg auth_cfg (handle_data submit fuel cfg id s)
unfolding handle_data
handle_data-Sends submit fuel cfg auth_cfg id s v = elim (Bool-cases (is_some s.envelope_sender)) [
  | inr e ↦ rw (e, handle_data) (v.login, tt)
  | inl e ↦ elim (Bool-cases (is_empty s.recipients)) [
    | inl f ↦ rw (e, f, handle_data) (v.login, tt)
    | inr f ↦
        rw (e, f, handle_data)
          (after_body-Sends submit cfg auth_cfg id s (read_body fuel cfg.max_message_size s.reader)
            v e f)
  ]
]

pub data_turn-Keeps :
    (cfg : ServerConfig) (auth_cfg : AuthConfig)
    (o : Option (Session × Handled × Option InboundMessage))
    → Leaves (IsTransaction cfg) o
    → Sends cfg auth_cfg o
    → Keeps cfg auth_cfg (data_turn o)
data_turn-Keeps cfg auth_cfg none t p = tt
data_turn-Keeps cfg auth_cfg (some (s, replied rs, none)) t p =
    (record { transaction = t; login = p.0 }, tt)
data_turn-Keeps cfg auth_cfg (some (s, replied rs, some m)) t p =
    (record { transaction = t; login = p.0 }, (p.1, tt))
data_turn-Keeps cfg auth_cfg (some (s, broken rs, none)) t p =
    (record { transaction = t; login = p.0 }, tt)
data_turn-Keeps cfg auth_cfg (some (s, broken rs, some m)) t p =
    (record { transaction = t; login = p.0 }, (p.1, tt))

pub turned-Keeps :
    (cfg : ServerConfig) (auth_cfg : AuthConfig) (res : Session × Handled)
    → IsAdmitted cfg auth_cfg res.0
    → Keeps cfg auth_cfg (some (turned res))
turned-Keeps cfg auth_cfg (s, replied rs) v = (v, tt)
turned-Keeps cfg auth_cfg (s, broken rs) v = (v, tt)
