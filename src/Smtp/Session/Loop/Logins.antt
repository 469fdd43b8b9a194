-- ===== src/Smtp/Session/Loop/Logins.antt =====
-- AUTH keeps a session admitted.
use smtp_relay.Prelude.{
  ℕ, Bool, true, false, Option, none, some, List, inl, inr, arith, Bool-cases, Text, is_empty,
  text_eq, if◌then◌else◌, codes,
}
use smtp_relay.Util.Strings.{is_some}
use smtp_relay.Smtp.Lines.{read_line}
use smtp_relay.Smtp.Body.{max_command_line}
use smtp_relay.Smtp.Session.{ServerConfig, Session, Reply, Handled, replied_once}
use smtp_relay.Smtp.Session.Handlers.{IsOpened}
use smtp_relay.Smtp.Session.Auth.{
  AuthConfig, Credentials, Exchange, given, nothing, cut, handle_auth, checked, is_matched,
  collect_plain, collect_login, read_auth_line, answer, decoded_plain, decoded_login,
  asked_password,
}
use smtp_relay.Smtp.Session.Loop.Admission.{IsUser, IsAdmitted, frame, is_matched-IsUser}

module _ (cfg : ServerConfig) (auth_cfg : AuthConfig) where
  read_auth_line-IsAdmitted :
      (s : Session) → IsAdmitted cfg auth_cfg s → IsAdmitted cfg auth_cfg (read_auth_line s).0
  unfolding read_auth_line
  read_auth_line-IsAdmitted s v =
      frame cfg auth_cfg s (read_line max_command_line s.reader).0 s.protocol_errors v

  answer-IsAdmitted :
      (initial : Option Text) (s : Session)
      → IsAdmitted cfg auth_cfg s
      → IsAdmitted cfg auth_cfg (answer initial s).0
  answer-IsAdmitted none s v = read_auth_line-IsAdmitted s v
  answer-IsAdmitted (some text) s v = v

  decoded_plain-IsAdmitted :
      (decode : Text → Option (List ℕ)) (res : Session × List Reply × Exchange Text)
      → IsAdmitted cfg auth_cfg res.0
      → IsAdmitted cfg auth_cfg (decoded_plain decode res).0
  decoded_plain-IsAdmitted decode (s, rs, given text) v = v
  decoded_plain-IsAdmitted decode (s, rs, nothing) v = v
  decoded_plain-IsAdmitted decode (s, rs, cut) v = v

  decoded_login-IsAdmitted :
      (decode : Text → Option (List ℕ)) (name : Text) (before : List Reply)
      (res : Session × List Reply × Exchange Text)
      → IsAdmitted cfg auth_cfg res.0
      → IsAdmitted cfg auth_cfg (decoded_login decode name before res).0
  decoded_login-IsAdmitted decode name before (s, rs, given text) v = v
  decoded_login-IsAdmitted decode name before (s, rs, nothing) v = v
  decoded_login-IsAdmitted decode name before (s, rs, cut) v = v

  asked_password-IsAdmitted :
      (decode : Text → Option (List ℕ)) (res : Session × List Reply × Exchange Text)
      → IsAdmitted cfg auth_cfg res.0
      → IsAdmitted cfg auth_cfg (asked_password decode res).0
  asked_password-IsAdmitted decode (s, rs, given text) v =
      decoded_login-IsAdmitted decode text rs (answer none s) (answer-IsAdmitted none s v)
  asked_password-IsAdmitted decode (s, rs, nothing) v = v
  asked_password-IsAdmitted decode (s, rs, cut) v = v

  -- A session that has logged in.
  matched-IsAdmitted :
      (s : Session) (name : Text)
      → IsUser auth_cfg name
      → IsAdmitted cfg auth_cfg s
      → IsAdmitted cfg auth_cfg (record s { authenticated = true; auth_user = some name })
  matched-IsAdmitted s name u v = record {
    transaction = record {
      bounded = v.transaction.bounded;
      addressed = v.transaction.addressed;
      distinct = v.transaction.distinct;
      opened = opened s.envelope_sender v.transaction.opened;
    };
    login = u;
  }
    where
      opened :
          (o : Option Text)
          → IsOpened cfg s o
          → IsOpened cfg (record s { authenticated = true; auth_user = some name }) o
      opened none h = h
      opened (some a) h = (h.0, ground arith)

  checked-IsAdmitted :
      (res : Session × List Reply × Exchange Credentials)
      → IsAdmitted cfg auth_cfg res.0
      → IsAdmitted cfg auth_cfg (checked auth_cfg res).0
  unfolding checked
  checked-IsAdmitted (s, rs, given c) v = elim (Bool-cases (is_matched auth_cfg c)) [
    | inl e ↦ rw e (matched-IsAdmitted s c.username (is_matched-IsUser auth_cfg c e) v)
    | inr e ↦ rw e v
  ]
  checked-IsAdmitted (s, rs, nothing) v = v
  checked-IsAdmitted (s, rs, cut) v = v

  either :
      (b : Bool) (x y : Session × Handled)
      → IsAdmitted cfg auth_cfg x.0
      → IsAdmitted cfg auth_cfg y.0
      → IsAdmitted cfg auth_cfg (if b then x else y).0
  either true x y hx hy = hx
  either false x y hx hy = hy

  pub handle_auth-IsAdmitted :
      (decode : Text → Option (List ℕ)) (mechanism : Text) (initial : Option Text) (s : Session)
      → IsAdmitted cfg auth_cfg s
      → IsAdmitted cfg auth_cfg (handle_auth decode auth_cfg mechanism initial s).0
  unfolding handle_auth collect_plain collect_login
  handle_auth-IsAdmitted decode mechanism initial s v =
      let asked = answer-IsAdmitted initial s v in
      let plain =
        checked-IsAdmitted (decoded_plain decode (answer initial s))
          (decoded_plain-IsAdmitted decode (answer initial s) asked) in
      let login =
        checked-IsAdmitted (asked_password decode (answer initial s))
          (asked_password-IsAdmitted decode (answer initial s) asked) in
      let refusal = replied_once s 503 (codes "5.5.1") in
      let by_login = checked auth_cfg (asked_password decode (answer initial s)) in
      let by_plain = checked auth_cfg (decoded_plain decode (answer initial s)) in
      let unsupported = replied_once s 504 (codes "5.5.4") in
      let is_login = text_eq mechanism (codes "LOGIN") in
      let is_plain = text_eq mechanism (codes "PLAIN") in
      let third = if is_login then by_login else unsupported in
      let second = if is_plain then by_plain else third in
      let first = if is_some s.envelope_sender then refusal else second in
      either (is_empty auth_cfg.auth_users) refusal (if s.authenticated then refusal else first) v (
        either s.authenticated refusal first v (
          either (is_some s.envelope_sender) refusal second v
            (either is_plain by_plain third plain (either is_login by_login unsupported login v))))
