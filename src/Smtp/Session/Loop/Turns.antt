-- ===== src/Smtp/Session/Loop/Turns.antt =====
-- The turns of the command loop keep a session admitted, and submit only proper messages.
use smtp_relay.Prelude.{
  ℕ, zero, suc, ◌≡◌, subst, Bool, true, false, Option, none, some, List, [], ◌∷◌, ◌++◌, inl, inr,
  Bool-cases, Text, All, Result, ok, err, codes,
}
use smtp_relay.Smtp.Lines.{line, too_long, eof, Outcome, read, failed, elapsed, read_line}
use smtp_relay.Smtp.Body.{max_command_line}
use smtp_relay.Smtp.Command
use smtp_relay.Smtp.Command.{
  Command, ehlo, helo, mail, rcpt, data_command, rset, noop, quit, vrfy, expn, help, start_tls,
  auth, unimplemented, unknown, blank, CommandError,
}
use smtp_relay.Smtp.Session.{
  ServerConfig, Session, InboundMessage, SubmitOutcome, reset_transaction, handle_ehlo, handle_helo,
  handle_mail, handle_rcpt, handle_rset, handle_data,
}
use smtp_relay.Smtp.Session.Handlers.{
  reset_transaction-IsTransaction, handle_mail-IsTransaction, handle_rcpt-IsTransaction,
  handle_data-IsTransaction,
}
use smtp_relay.Smtp.Session.Auth.{AuthConfig, handle_auth}
use smtp_relay.Smtp.Session.Loop.{
  Disconnect, Turn, handle, turn, command_loop, protocol_error, noticed, abused, parsed, after_line,
  joined, continued,
}
use smtp_relay.Smtp.Session.Loop.Admission.{
  IsAdmitted, IsProper, Keeps, frame, turned-Keeps, data_turn-Keeps, handle_data-Sends,
  handle_mail-Login, handle_rcpt-Login,
}
use smtp_relay.Smtp.Session.Loop.Logins.{handle_auth-IsAdmitted}

All-append {ℓ} :
    (P : InboundMessage → Type ℓ) (xs ys : List InboundMessage)
    → All P xs
    → All P ys
    → All P (xs ++ ys)
All-append P [] ys h k = k
All-append P (x ∷ xs) ys h k = (h.0, All-append P xs ys h.1 k)

module _ (cfg : ServerConfig) (auth_cfg : AuthConfig) where
  abused-Keeps :
      (code : ℕ) (enhanced : Text) (s : Session)
      → IsAdmitted cfg auth_cfg s
      → Keeps cfg auth_cfg (some (abused (protocol_error code enhanced s)))
  unfolding protocol_error
  abused-Keeps code enhanced s v = (frame cfg auth_cfg s s.reader _ v, tt)

  noticed-Keeps :
      (code : ℕ) (enhanced : Text) (s : Session)
      → IsAdmitted cfg auth_cfg s
      → Keeps cfg auth_cfg (some (noticed (protocol_error code enhanced s)))
  unfolding protocol_error
  noticed-Keeps code enhanced s v = (frame cfg auth_cfg s s.reader _ v, tt)

  handle-Keeps :
      (decode : Text → Option (List ℕ)) (submit : InboundMessage → SubmitOutcome) (fuel : ℕ)
      (id : Text) (command : Command) (s : Session)
      → IsAdmitted cfg auth_cfg s
      → Keeps cfg auth_cfg (handle decode cfg auth_cfg submit fuel id command s)
  unfolding handle handle_ehlo handle_helo handle_rset reset_transaction
  handle-Keeps decode submit fuel id (ehlo domain) s v = (
    record {
      transaction =
          reset_transaction-IsTransaction cfg (record s { helo_name = domain; esmtp = true });
      login = v.login;
    },
    tt,
  )
  handle-Keeps decode submit fuel id (helo domain) s v = (
    record {
      transaction =
          reset_transaction-IsTransaction cfg (record s { helo_name = domain; esmtp = false });
      login = v.login;
    },
    tt,
  )
  handle-Keeps decode submit fuel id (mail address size) s v =
      turned-Keeps cfg auth_cfg (handle_mail cfg address size s) (record {
        transaction = handle_mail-IsTransaction cfg address size s v.transaction;
        login = handle_mail-Login cfg auth_cfg address size s v.login;
      })
  handle-Keeps decode submit fuel id (rcpt address) s v =
      turned-Keeps cfg auth_cfg (handle_rcpt cfg address s) (record {
        transaction = handle_rcpt-IsTransaction cfg address s v.transaction;
        login = handle_rcpt-Login cfg auth_cfg address s v.login;
      })
  handle-Keeps decode submit fuel id data_command s v =
      data_turn-Keeps cfg auth_cfg (handle_data submit fuel cfg id s)
        (handle_data-IsTransaction submit fuel cfg id s v.transaction)
        (handle_data-Sends submit fuel cfg auth_cfg id s v)
  handle-Keeps decode submit fuel id rset s v =
      (record { transaction = reset_transaction-IsTransaction cfg s; login = v.login }, tt)
  handle-Keeps decode submit fuel id (auth mechanism initial) s v =
      turned-Keeps cfg auth_cfg (handle_auth decode auth_cfg mechanism initial s)
        (handle_auth-IsAdmitted cfg auth_cfg decode mechanism initial s v)
  handle-Keeps decode submit fuel id (unimplemented verb) s v =
      noticed-Keeps 502 (codes "5.5.1") s v
  handle-Keeps decode submit fuel id (unknown verb) s v = noticed-Keeps 500 (codes "5.5.1") s v
  handle-Keeps decode submit fuel id blank s v = noticed-Keeps 500 (codes "5.5.2") s v
  handle-Keeps decode submit fuel id noop s v = (v, tt)
  handle-Keeps decode submit fuel id quit s v = (v, tt)
  handle-Keeps decode submit fuel id vrfy s v = (v, tt)
  handle-Keeps decode submit fuel id expn s v = (v, tt)
  handle-Keeps decode submit fuel id help s v = (v, tt)
  handle-Keeps decode submit fuel id start_tls s v = (v, tt)

  parsed-Keeps :
      (decode : Text → Option (List ℕ)) (submit : InboundMessage → SubmitOutcome) (fuel : ℕ)
      (id : Text) (r : Result Command CommandError) (s : Session)
      → IsAdmitted cfg auth_cfg s
      → Keeps cfg auth_cfg (parsed decode cfg auth_cfg submit fuel id r s)
  parsed-Keeps decode submit fuel id (ok command) s v =
      handle-Keeps decode submit fuel id command s v
  parsed-Keeps decode submit fuel id (err e) s v = abused-Keeps e.code e.enhanced s v

  after_line-Keeps :
      (decode : Text → Option (List ℕ)) (submit : InboundMessage → SubmitOutcome) (fuel : ℕ)
      (id : Text) (s : Session) (o : Outcome)
      → IsAdmitted cfg auth_cfg s
      → Keeps cfg auth_cfg (after_line decode cfg auth_cfg submit fuel id s o)
  after_line-Keeps decode submit fuel id s (read (line l)) v =
      parsed-Keeps decode submit fuel id (Command.parse l) s v
  after_line-Keeps decode submit fuel id s (read too_long) v = abused-Keeps 500 (codes "5.5.2") s v
  after_line-Keeps decode submit fuel id s (read eof) v = (v, tt)
  after_line-Keeps decode submit fuel id s failed v = (v, tt)
  after_line-Keeps decode submit fuel id s elapsed v = (v, tt)

  continued-Keeps :
      (t : Turn) (rest : Option Turn) (ended : Option Disconnect)
      → Keeps cfg auth_cfg (some t)
      → Keeps cfg auth_cfg rest
      → Keeps cfg auth_cfg (continued t rest ended)
  continued-Keeps t rest (some d) v w = v
  continued-Keeps t none none v w = tt
  continued-Keeps t (some u) none v w = (w.0, All-append _ t.submitted u.submitted v.1 w.1)

  joined-Keeps :
      (go : Session → Option Turn) (o : Option Turn)
      → ((t : Session) → IsAdmitted cfg auth_cfg t → Keeps cfg auth_cfg (go t))
      → Keeps cfg auth_cfg o
      → Keeps cfg auth_cfg (joined go o)
  joined-Keeps go none f k = tt
  joined-Keeps go (some t) f k = continued-Keeps t (go t.session) t.ended k (f t.session k.0)

  turn-Keeps :
      (decode : Text → Option (List ℕ)) (submit : InboundMessage → SubmitOutcome) (fuel : ℕ)
      (id : Text) (s : Session)
      → IsAdmitted cfg auth_cfg s
      → Keeps cfg auth_cfg (turn decode cfg auth_cfg submit fuel id s)
  unfolding turn
  turn-Keeps decode submit fuel id s v =
      let (reader, outcome) = read_line max_command_line s.reader in
      after_line-Keeps decode submit fuel id (record s { reader = reader }) outcome
        (frame cfg auth_cfg s reader s.protocol_errors v)

  command_loop-Keeps :
      (decode : Text → Option (List ℕ)) (stopping : ℕ → Bool) (fresh : ℕ → Text)
      (submit : ℕ → InboundMessage → SubmitOutcome) (fuel n : ℕ) (s : Session)
      → IsAdmitted cfg auth_cfg s
      → Keeps cfg auth_cfg (command_loop decode cfg auth_cfg stopping fresh submit fuel n s)
  unfolding command_loop
  command_loop-Keeps decode stopping fresh submit fuel zero s v = (v, tt)
  command_loop-Keeps decode stopping fresh submit fuel (suc n) s v =
      elim (Bool-cases (stopping n)) [
        | inl e ↦ rw e (v, tt)
        | inr e ↦ rw e (
            joined-Keeps (command_loop decode cfg auth_cfg stopping fresh submit fuel n)
              (turn decode cfg auth_cfg (submit n) fuel (fresh n) s)
              (λ t w. command_loop-Keeps decode stopping fresh submit fuel n t w)
              (turn-Keeps decode (submit n) fuel (fresh n) s v))
      ]

-- Whatever bytes a client sends, in whatever pieces, and whatever the dispatcher answers: every
-- message that the command loop hands to the dispatcher comes from a client that has said hello, has
-- at least one recipient and at most the configured number, each of the shape of an address and no
-- two the same up to case, and, where a login is required, carries the name of a login that is
-- configured. The session starts out admitted, as a new one is, and the loop returns within the
-- turns and the fuel that it is given.
pub command_loop-IsProper :
    (decode : Text → Option (List ℕ)) (cfg : ServerConfig) (auth_cfg : AuthConfig)
    (stopping : ℕ → Bool) (fresh : ℕ → Text) (submit : ℕ → InboundMessage → SubmitOutcome)
    (fuel n : ℕ) (s : Session) (t : Turn)
    → IsAdmitted cfg auth_cfg s
    → command_loop decode cfg auth_cfg stopping fresh submit fuel n s ≡ some t
    → All (IsProper cfg auth_cfg) t.submitted
command_loop-IsProper decode cfg auth_cfg stopping fresh submit fuel n s t v e =
    (subst (Keeps cfg auth_cfg) e
      (command_loop-Keeps cfg auth_cfg decode stopping fresh submit fuel n s v)).1
