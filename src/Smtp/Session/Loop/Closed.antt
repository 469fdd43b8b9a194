-- ===== src/Smtp/Session/Loop/Closed.antt =====
-- A server that demands a login, of which only the relays' logins are configured.
use smtp_relay.Prelude.{
  ℕ, zero, suc, ◌≡◌, refl, sym, ap, ◌∙◌, Bool, true, false, Option, none, some, List, [], ◌∷◌, Text,
  arith, Bool-cases, inl, inr, All, Result, ok, err,
}
use smtp_relay.Smtp.Lines.{line, too_long, eof, Outcome, read, failed, elapsed, read_line}
use smtp_relay.Smtp.Body.{max_command_line}
use smtp_relay.Smtp.Command
use smtp_relay.Smtp.Command.{
  Command, ehlo, helo, mail, rcpt, data_command, rset, noop, quit, vrfy, expn, help, start_tls,
  auth, unimplemented, unknown, blank, CommandError,
}
use smtp_relay.Smtp.Session.{ServerConfig, Session, InboundMessage, SubmitOutcome}
use smtp_relay.Smtp.Session.Auth.{AuthConfig, Credentials, handle_auth}
use smtp_relay.Smtp.Session.Loop.{
  Turn, handle, turn, command_loop, parsed, after_line, joined, continued,
}
use smtp_relay.Smtp.Session.Loop.Admission.{Login, IsAdmitted, IsProper}
use smtp_relay.Smtp.Session.Loop.Turns.{command_loop-IsProper}

-- No users of its own.
abbrev pub only_details : List Credentials → AuthConfig
only_details details = record { auth_users = []; smtp_details = details }

module _ (decode : Text → Option (List ℕ)) (cfg : ServerConfig) (details : List Credentials) where
  -- The relays' logins make no difference then.
  handle-eq :
      (submit : InboundMessage → SubmitOutcome) (fuel : ℕ) (id : Text) (command : Command)
      (s : Session)
      → handle decode cfg (only_details details) submit fuel id command s
        ≡ handle decode cfg (only_details []) submit fuel id command s
  unfolding handle handle_auth
  handle-eq submit fuel id (auth mechanism initial) s = refl
  handle-eq submit fuel id (ehlo _) s = refl
  handle-eq submit fuel id (helo _) s = refl
  handle-eq submit fuel id (mail _ _) s = refl
  handle-eq submit fuel id (rcpt _) s = refl
  handle-eq submit fuel id (unimplemented _) s = refl
  handle-eq submit fuel id (unknown _) s = refl
  handle-eq submit fuel id data_command s = refl
  handle-eq submit fuel id rset s = refl
  handle-eq submit fuel id noop s = refl
  handle-eq submit fuel id quit s = refl
  handle-eq submit fuel id vrfy s = refl
  handle-eq submit fuel id expn s = refl
  handle-eq submit fuel id help s = refl
  handle-eq submit fuel id start_tls s = refl
  handle-eq submit fuel id blank s = refl

  after_line-eq :
      (submit : InboundMessage → SubmitOutcome) (fuel : ℕ) (id : Text) (s : Session) (o : Outcome)
      → after_line decode cfg (only_details details) submit fuel id s o
        ≡ after_line decode cfg (only_details []) submit fuel id s o
  after_line-eq submit fuel id s (read (line l)) = of_result (Command.parse l)
    where
      of_result :
          (r : Result Command CommandError)
          → parsed decode cfg (only_details details) submit fuel id r s
            ≡ parsed decode cfg (only_details []) submit fuel id r s
      of_result (ok command) = handle-eq submit fuel id command s
      of_result (err e) = refl
  after_line-eq submit fuel id s (read too_long) = refl
  after_line-eq submit fuel id s (read eof) = refl
  after_line-eq submit fuel id s failed = refl
  after_line-eq submit fuel id s elapsed = refl

  turn-eq :
      (submit : InboundMessage → SubmitOutcome) (fuel : ℕ) (id : Text) (s : Session)
      → turn decode cfg (only_details details) submit fuel id s
        ≡ turn decode cfg (only_details []) submit fuel id s
  unfolding turn
  turn-eq submit fuel id s =
      let (reader, outcome) = read_line max_command_line s.reader in
      after_line-eq submit fuel id (record s { reader = reader }) outcome

  joined-eq :
      (f g : Session → Option Turn) (o : Option Turn)
      → ((s : Session) → f s ≡ g s)
      → joined f o ≡ joined g o
  joined-eq f g none h = refl
  joined-eq f g (some t) h = ap (λ rest. continued t rest t.ended) (h t.session)

  loop-eq :
      (stopping : ℕ → Bool) (fresh : ℕ → Text) (submit : ℕ → InboundMessage → SubmitOutcome)
      (fuel n : ℕ) (s : Session)
      → command_loop decode cfg (only_details details) stopping fresh submit fuel n s
        ≡ command_loop decode cfg (only_details []) stopping fresh submit fuel n s
  unfolding command_loop
  loop-eq stopping fresh submit fuel zero s = refl
  loop-eq stopping fresh submit fuel (suc n) s = elim (Bool-cases (stopping n)) [
    | inl e ↦ rw e refl
    | inr e ↦
        rw (e, turn-eq (submit n) fuel (fresh n) s)
          (joined-eq _ _ (turn decode cfg (only_details []) (submit n) fuel (fresh n) s)
            (λ t. loop-eq stopping fresh submit fuel n t))
  ]

nobody :
    (cfg : ServerConfig) (ms : List InboundMessage)
    → cfg.require_auth ≡ true
    → All (IsProper cfg (only_details [])) ms
    → ms ≡ []
nobody cfg [] e h = refl
nobody cfg (m ∷ ms) e h = absurd (unknown_user cfg.require_auth m.auth_user e h.0.login)
  where
    unknown_user :
        (required : Bool) (name : Option Text)
        → required ≡ true
        → Login (only_details []) required name
        → ⊥
    unknown_user false name e l = ground arith
    unknown_user true none e l = l
    unknown_user true (some name) e l = ground arith

-- A server that demands a login and has no users of its own never submits a message, whatever
-- logins of relays are configured, although AUTH compares the credentials with those, too. The
-- session starts out without a login and outside a transaction, and the loop returns within the
-- turns and the fuel that it is given.
pub command_loop-only_details :
    (decode : Text → Option (List ℕ)) (cfg : ServerConfig) (details : List Credentials)
    (stopping : ℕ → Bool) (fresh : ℕ → Text) (submit : ℕ → InboundMessage → SubmitOutcome)
    (fuel n : ℕ) (s : Session) (t : Turn)
    → cfg.require_auth ≡ true
    → IsAdmitted cfg (only_details []) s
    → command_loop decode cfg (only_details details) stopping fresh submit fuel n s ≡ some t
    → t.submitted ≡ []
command_loop-only_details decode cfg details stopping fresh submit fuel n s t r v e =
    nobody cfg t.submitted r (
      command_loop-IsProper decode cfg (only_details []) stopping fresh submit fuel n s t v
        (sym (loop-eq decode cfg details stopping fresh submit fuel n s) ∙ e))
