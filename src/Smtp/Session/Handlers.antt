-- ===== src/Smtp/Session/Handlers.antt =====
-- What holds of a mail transaction, and that every handler keeps it.
use smtp_relay.Prelude.{
  ℕ, ◌≡◌, ◌≤◌, refl, true, false, not, ◌&&◌, Option, none, some, List, [], ◌∷◌, ◌++◌, inl, inr,
  arith, Bool-cases, length, length-append, All, is_empty, leb, Text, eq_ignore_ascii_case,
}
use smtp_relay.Util.Strings.{looks_like_email, is_some}
use smtp_relay.Smtp.Lines.{LineReader}
use smtp_relay.Smtp.Body.{complete, too_large, aborted, Received, finished, io_error}
use smtp_relay.Smtp.Session.{
  ServerConfig, Session, InboundMessage, SubmitOutcome, delivered, queued, rejected, Handled,
  has_recipient, handle_mail, handle_rcpt, handle_data, after_body, reset_transaction,
  dispatch_message, exceeds, counted, inbound_message,
}

-- No two recipients are the same up to case.
abbrev pub Distinct : List Text → Type 0
Distinct [] = Unit
Distinct (x ∷ xs) = All (λ y. eq_ignore_ascii_case x y ≡ false) xs × Distinct xs

-- A transaction is open only to a client that has said hello and, if need be, logged in.
abbrev pub IsOpened : ServerConfig → Session → Option Text → Type 0
IsOpened cfg s none = s.recipients ≡ []
IsOpened cfg s (some sender) =
    (is_empty s.helo_name ≡ false) × ((cfg.require_auth && not s.authenticated) ≡ false)

pub record IsTransaction (cfg : ServerConfig) (s : Session) : Type 0 where
  pub bounded : length s.recipients ≤ cfg.max_recipients_per_message
  pub addressed : All (λ a. looks_like_email a ≡ true) s.recipients
  pub distinct : Distinct s.recipients
  pub opened : IsOpened cfg s s.envelope_sender

All-snoc {ℓ} :
    (P : Text → Type ℓ) (xs : List Text) (x : Text) → All P xs → P x → All P (xs ++ (x ∷ []))
All-snoc P [] x h p = (p, tt)
All-snoc P (y ∷ xs) x h p = (h.0, All-snoc P xs x h.1 p)

Distinct-snoc :
    (xs : List Text) (x : Text)
    → Distinct xs
    → has_recipient xs x ≡ false
    → Distinct (xs ++ (x ∷ []))
unfolding has_recipient
Distinct-snoc [] x d h = (tt, tt)
Distinct-snoc (y ∷ xs) x d h =
    (All-snoc _ xs x d.0 (ground arith), Distinct-snoc xs x d.1 (ground arith))

pub reset_transaction-IsTransaction :
    (cfg : ServerConfig) (s : Session) → IsTransaction cfg (reset_transaction s)
unfolding reset_transaction
reset_transaction-IsTransaction cfg s = record {
  bounded = omega arith;
  addressed = tt;
  distinct = tt;
  opened = refl;
}

pub handle_mail-IsTransaction :
    (cfg : ServerConfig) (a : Text) (size : Option ℕ) (s : Session)
    → IsTransaction cfg s
    → IsTransaction cfg (handle_mail cfg a size s).0
unfolding handle_mail
handle_mail-IsTransaction cfg a size s v = elim (Bool-cases (is_empty s.helo_name)) [
  | inl e ↦ rw e v
  | inr e ↦ elim (Bool-cases (cfg.require_auth && not s.authenticated)) [
    | inl f ↦ rw (e, f) v
    | inr f ↦ elim (Bool-cases (is_some s.envelope_sender)) [
      | inl g ↦ rw (e, f, g) v
      | inr g ↦ elim (Bool-cases (not (is_empty a) && not (looks_like_email a))) [
        | inl h ↦ rw (e, f, g, h) v
        | inr h ↦ elim (Bool-cases (exceeds size cfg.max_message_size)) [
          | inl k ↦ rw (e, f, g, h, k) v
          | inr k ↦
              rw (e, f, g, h, k)
                (record { bounded = omega arith; addressed = tt; distinct = tt; opened = (e, f) })
        ]
      ]
    ]
  ]
]

IsOpened-as :
    (cfg : ServerConfig) (s s' : Session) (o : Option Text)
    → is_some o ≡ true
    → IsOpened cfg s o
    → s'.helo_name ≡ s.helo_name
    → s'.authenticated ≡ s.authenticated
    → IsOpened cfg s' o
IsOpened-as cfg s s' none n h e f = ground arith
IsOpened-as cfg s s' (some a) n h e f = rw (e, f) h

pub handle_rcpt-IsTransaction :
    (cfg : ServerConfig) (a : Text) (s : Session)
    → IsTransaction cfg s
    → IsTransaction cfg (handle_rcpt cfg a s).0
unfolding handle_rcpt
handle_rcpt-IsTransaction cfg a s v = elim (Bool-cases (is_some s.envelope_sender)) [
  | inr e ↦ rw e v
  | inl e ↦ elim (Bool-cases (looks_like_email a)) [
    | inr f ↦ rw (e, f) v
    | inl f ↦ elim (Bool-cases (leb cfg.max_recipients_per_message (length s.recipients))) [
      | inl g ↦ rw (e, f, g) v
      | inr g ↦ elim (Bool-cases (has_recipient s.recipients a)) [
        | inl h ↦ rw (e, f, g, h) v
        | inr h ↦
            let one_more = length-append s.recipients (a ∷ []) in
            rw (e, f, g, h)
              (record {
                bounded = ground arith;
                addressed = All-snoc _ s.recipients a v.addressed f;
                distinct = Distinct-snoc s.recipients a v.distinct h;
                opened =
                    IsOpened-as cfg s (record s { recipients = s.recipients ++ (a ∷ []) })
                      s.envelope_sender e v.opened refl refl;
              })
      ]
    ]
  ]
]

-- A change of the fields that the transaction does not read.
IsTransaction-frame :
    (cfg : ServerConfig) (s : Session) (reader : LineReader)
    → IsTransaction cfg s
    → IsTransaction cfg (record s { reader = reader })
IsTransaction-frame cfg s reader v = record {
  bounded = v.bounded;
  addressed = v.addressed;
  distinct = v.distinct;
  opened = frame s.envelope_sender v.opened;
}
  where
    frame : (o : Option Text) → IsOpened cfg s o → IsOpened cfg (record s { reader = reader }) o
    frame none h = h
    frame (some a) h = h

dispatch_message-IsTransaction :
    (submit : InboundMessage → SubmitOutcome) (cfg : ServerConfig) (id : Text) (raw : List ℕ)
    (s : Session)
    → IsTransaction cfg (dispatch_message submit id raw s).0
unfolding dispatch_message reset_transaction
dispatch_message-IsTransaction submit cfg id raw s = go (submit (inbound_message id raw s))
  where
    go : (o : SubmitOutcome) → IsTransaction cfg (counted o (reset_transaction s))
    go (delivered r t) = record {
      bounded = omega arith;
      addressed = tt;
      distinct = tt;
      opened = refl;
    }
    go queued = record { bounded = omega arith; addressed = tt; distinct = tt; opened = refl }
    go (rejected c e m) = record {
      bounded = omega arith;
      addressed = tt;
      distinct = tt;
      opened = refl;
    }

-- What holds of the session that a handler leaves, if it returns.
abbrev pub Leaves : (Session → Type 0) → Option (Session × Handled × Option InboundMessage) → Type 0
Leaves P none = Unit
Leaves P (some res) = P res.0

after_body-IsTransaction :
    (submit : InboundMessage → SubmitOutcome) (cfg : ServerConfig) (id : Text) (s : Session)
    (res : LineReader × Option Received)
    → IsTransaction cfg s
    → Leaves (IsTransaction cfg) (after_body submit id s res)
unfolding after_body
after_body-IsTransaction submit cfg id s (r, none) v = tt
after_body-IsTransaction submit cfg id s (r, some io_error) v = IsTransaction-frame cfg s r v
after_body-IsTransaction submit cfg id s (r, some (finished (aborted t))) v =
    reset_transaction-IsTransaction cfg (record s { reader = r })
after_body-IsTransaction submit cfg id s (r, some (finished (too_large l))) v =
    reset_transaction-IsTransaction cfg (record s { reader = r })
after_body-IsTransaction submit cfg id s (r, some (finished (complete raw))) v =
    dispatch_message-IsTransaction submit cfg id raw (record s { reader = r })

pub handle_data-IsTransaction :
    (submit : InboundMessage → SubmitOutcome) (fuel : ℕ) (cfg : ServerConfig) (id : Text)
    (s : Session)
    → IsTransaction cfg s
    → Leaves (IsTransaction cfg) (handle_data submit fuel cfg id s)
unfolding handle_data
handle_data-IsTransaction submit fuel cfg id s v = elim (Bool-cases (is_some s.envelope_sender)) [
  | inr e ↦ rw (e, handle_data) v
  | inl e ↦ elim (Bool-cases (is_empty s.recipients)) [
    | inl f ↦ rw (e, f, handle_data) v
    | inr f ↦ rw (e, f, handle_data) (after_body-IsTransaction submit cfg id s _ v)
  ]
]
