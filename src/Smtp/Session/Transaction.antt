-- ===== src/Smtp/Session/Transaction.antt =====
-- The mail transaction as a state machine: what holds of a session whatever commands a client sends.
use smtp_relay.Prelude.{ℕ, ◌≡◌, subst, true, false, Option, none, some, List, [], ◌∷◌, Text}
use smtp_relay.Smtp.Session.{
  ServerConfig, Session, InboundMessage, SubmitOutcome, Handled, handle_ehlo, handle_helo,
  handle_mail, handle_rcpt, handle_rset, handle_data,
}
use smtp_relay.Smtp.Session.Handlers.{
  IsTransaction, reset_transaction-IsTransaction, handle_mail-IsTransaction,
  handle_rcpt-IsTransaction, Leaves, handle_data-IsTransaction,
}

-- The commands of a transaction. DATA comes with the fuel for its payload and the fresh identifier.
pub data Op : Type 0 where
  ehlo helo rcpt : Text → Op
  mail : Text → Option ℕ → Op
  data_lines : ℕ → Text → Op
  rset : Op

abbrev pub step :
    (InboundMessage → SubmitOutcome)
    → ServerConfig
    → Op
    → Session
    → Option (Session × Handled × Option InboundMessage)
step submit cfg (ehlo domain) s = let (s', h) = handle_ehlo domain s in some (s', h, none)
step submit cfg (helo domain) s = let (s', h) = handle_helo domain s in some (s', h, none)
step submit cfg (rcpt a) s = let (s', h) = handle_rcpt cfg a s in some (s', h, none)
step submit cfg (mail a size) s = let (s', h) = handle_mail cfg a size s in some (s', h, none)
step submit cfg (data_lines fuel id) s = handle_data submit fuel cfg id s
step submit cfg rset s = let (s', h) = handle_rset s in some (s', h, none)

abbrev pub continued :
    (Session → Option Session) → Option (Session × Handled × Option InboundMessage) → Option Session
continued go none = none
continued go (some (s, _, _)) = go s

abbrev pub run :
    (InboundMessage → SubmitOutcome) → ServerConfig → List Op → Session → Option Session
run submit cfg [] s = some s
run submit cfg (op ∷ ops) s = continued (run submit cfg ops) (step submit cfg op s)

step-IsTransaction :
    (submit : InboundMessage → SubmitOutcome) (cfg : ServerConfig) (op : Op) (s : Session)
    → IsTransaction cfg s
    → Leaves (IsTransaction cfg) (step submit cfg op s)
unfolding handle_ehlo handle_helo handle_rset
step-IsTransaction submit cfg (ehlo domain) s v =
    reset_transaction-IsTransaction cfg (record s { helo_name = domain; esmtp = true })
step-IsTransaction submit cfg (helo domain) s v =
    reset_transaction-IsTransaction cfg (record s { helo_name = domain; esmtp = false })
step-IsTransaction submit cfg (rcpt a) s v = handle_rcpt-IsTransaction cfg a s v
step-IsTransaction submit cfg (mail a size) s v = handle_mail-IsTransaction cfg a size s v
step-IsTransaction submit cfg (data_lines fuel id) s v =
    handle_data-IsTransaction submit fuel cfg id s v
step-IsTransaction submit cfg rset s v = reset_transaction-IsTransaction cfg s

continued-IsTransaction :
    (cfg : ServerConfig) (go : Session → Option Session)
    (o : Option (Session × Handled × Option InboundMessage)) (s' : Session)
    → ((t : Session) → IsTransaction cfg t → go t ≡ some s' → IsTransaction cfg s')
    → Leaves (IsTransaction cfg) o
    → continued go o ≡ some s'
    → IsTransaction cfg s'
continued-IsTransaction cfg go none s' f v e = cc
continued-IsTransaction cfg go (some (t, h, m)) s' f v e = f t v e

-- After any sequence of transaction commands that all return, DATA with the fuel that it is given, a
-- session that starts out valid is valid: at most
-- the configured number of recipients, each of the shape of an address, no two the same up to case,
-- none outside a transaction, and a transaction only for a client that has said hello and, where
-- that is required, has logged in.
pub run-IsTransaction :
    (submit : InboundMessage → SubmitOutcome) (cfg : ServerConfig) (ops : List Op) (s s' : Session)
    → IsTransaction cfg s
    → run submit cfg ops s ≡ some s'
    → IsTransaction cfg s'
run-IsTransaction submit cfg [] s s' v e =
    let same : s ≡ s' = cc in subst (IsTransaction cfg) same v
run-IsTransaction submit cfg (op ∷ ops) s s' v e =
    continued-IsTransaction cfg (run submit cfg ops) (step submit cfg op s) s'
      (λ t w f. run-IsTransaction submit cfg ops t s' w f) (step-IsTransaction submit cfg op s v) e
