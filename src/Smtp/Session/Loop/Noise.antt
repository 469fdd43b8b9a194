-- ===== src/Smtp/Session/Loop/Noise.antt =====
-- Lines that are no commands of the server, and the limit on protocol errors.
use smtp_relay.Prelude.{
  ℕ, ◌+◌, ◌≡◌, ◌≤◌, ◌<◌, refl, ap, ◌∙◌, Bool, true, false, Option, none, some, List, [], ◌∷◌, ◌++◌,
  Text, codes, length, All, arith, u32_mod, Result, ok,
}
use smtp_relay.Smtp.Lines.{line, read, LineReader, read_line, sized}
use smtp_relay.Smtp.Lines.Streams.{IsReady, stream, next_line}
use smtp_relay.Smtp.Lines.Reading.{read_line-next_line}
use smtp_relay.Smtp.Body.{max_command_line}
use smtp_relay.Smtp.Body.Wire.{crlf, IsLine, next_line-crlf}
use smtp_relay.Smtp.Command
use smtp_relay.Smtp.Command.{Command, unimplemented, unknown, blank, CommandError}
use smtp_relay.Smtp.Session.{ServerConfig, Session, InboundMessage, SubmitOutcome}
use smtp_relay.Smtp.Session.Auth.{AuthConfig}
use smtp_relay.Smtp.Session.Loop.{
  Turn, handle, turn, command_loop, protocol_error, noticed, parsed, after_line,
}

-- A verb that is unknown or not implemented, or an empty line.
abbrev pub is_noise : Result Command CommandError → Bool
is_noise (ok (unknown verb)) = true
is_noise (ok (unimplemented verb)) = true
is_noise (ok blank) = true
is_noise _ = false

pub record IsNoise (l : List ℕ) : Type 0 where
  pub unbroken : IsLine l
  pub short : length l ≤ max_command_line
  pub no_command : is_noise (Command.parse l) ≡ true

abbrev pub lines_wire : List (List ℕ) → List ℕ
lines_wire [] = []
lines_wire (l ∷ ls) = l ++ (crlf ++ lines_wire ls)

sized-short : (l : List ℕ) → length l ≤ max_command_line → sized max_command_line l ≡ line l
sized-short l h = ground arith

module _ (decode : Text → Option (List ℕ)) (cfg : ServerConfig) (auth_cfg : AuthConfig) where
  noise-parsed :
      (submit : InboundMessage → SubmitOutcome) (fuel : ℕ) (id : Text)
      (r : Result Command CommandError) (s : Session)
      → is_noise r ≡ true
      → (code : ℕ) × (enhanced : Text) × (parsed decode cfg auth_cfg submit fuel id r s
          ≡ some (noticed (protocol_error code enhanced s)))
  unfolding handle
  noise-parsed submit fuel id (ok (unknown verb)) s e = (500, codes "5.5.1", refl)
  noise-parsed submit fuel id (ok (unimplemented verb)) s e = (502, codes "5.5.1", refl)
  noise-parsed submit fuel id (ok blank) s e = (500, codes "5.5.2", refl)
  noise-parsed submit fuel id _ s e = absurd (ground arith)

  -- A turn at a line that is no command.
  record Ignores (l : List ℕ) (s : Session) (rest : List ℕ) (o : Option Turn) : Type 0 where
    reader : LineReader
    code : ℕ
    enhanced : Text
    ready : IsReady reader
    remains : stream reader ≡ rest
    ignored : o ≡ some (noticed (protocol_error code enhanced (record s { reader = reader })))

  noise-turn :
      (submit : InboundMessage → SubmitOutcome) (fuel : ℕ) (id : Text) (l rest : List ℕ)
      (s : Session)
      → IsNoise l
      → IsReady s.reader
      → stream s.reader ≡ l ++ (crlf ++ rest)
      → Ignores l s rest (turn decode cfg auth_cfg submit fuel id s)
  unfolding turn
  noise-turn submit fuel id l rest s h v e =
      let r = read_line-next_line max_command_line s.reader v (omega arith) in
      let next : next_line max_command_line (stream s.reader) ≡ (line l, rest) =
        ap (next_line max_command_line) e
        ∙ next_line-crlf max_command_line l rest h.unbroken
        ∙ ap (λ o. (o, rest)) (sized-short l h.short) in
      let reader = (read_line max_command_line s.reader).0 in
      let (code, enhanced, p) =
        noise-parsed submit fuel id (Command.parse l) (record s { reader = reader }) h.no_command in
      record {
        reader = reader;
        code = code;
        enhanced = enhanced;
        ready = r.ready;
        remains = r.remains ∙ ap (λ x. x.1) next;
        ignored =
            ap (after_line decode cfg auth_cfg submit fuel id (record s { reader = reader }))
              (r.outcome ∙ ap (λ x. read x.0) next)
            ∙ p;
      }

  module _ (stopping : ℕ → Bool) (fresh : ℕ → Text) (submit : ℕ → InboundMessage → SubmitOutcome)
      (fuel : ℕ) where
    abbrev pub loop : ℕ → Session → Option Turn
    loop n s = command_loop decode cfg auth_cfg stopping fresh submit fuel n s

    -- What the loop has done after `n` lines.
    pub record Endures (n : ℕ) (s : Session) (o : Option Turn) : Type 0 where
      pub last : Turn
      pub result : o ≡ some last
      pub going : last.ended ≡ none
      pub errors : last.session.protocol_errors ≡ s.protocol_errors + n
      pub answered : length last.replies ≡ n
      pub silent : last.submitted ≡ []

    -- However many lines a client sends that are empty or name a verb that the server does not know
    -- or implement, the command loop answers each, counts each as a protocol error, submits nothing,
    -- and goes on: the limit of 12 protocol errors does not end it. The server is not shutting down,
    -- the lines are no longer than a command line may be, the reader is ready and sees them, and the
    -- count stays within 32 bits.
    pub loop-Endures :
        (ls : List (List ℕ)) (s : Session)
        → ((n : ℕ) → stopping n ≡ false)
        → All IsNoise ls
        → IsReady s.reader
        → stream s.reader ≡ lines_wire ls
        → s.protocol_errors + length ls < u32_mod
        → Endures (length ls) s (loop (length ls) s)
    unfolding command_loop protocol_error
    loop-Endures [] s up h v e w = record {
      last = record { session = s; replies = []; submitted = []; ended = none };
      result = refl;
      going = refl;
      errors = omega arith;
      answered = refl;
      silent = refl;
    }
    loop-Endures (l ∷ ls) s up (h, hs) v e w =
        let k =
          noise-turn (submit (length ls)) fuel (fresh (length ls)) l (lines_wire ls) s h v e in
        let s' = (protocol_error k.code k.enhanced (record s { reader = k.reader })).0 in
        let one : s'.protocol_errors ≡ s.protocol_errors + 1 = ground arith in
        let rest = loop-Endures ls s' up hs k.ready k.remains (omega arith) in
        record {
          last = record rest.last {
            replies =
                (protocol_error k.code k.enhanced (record s { reader = k.reader })).1
                ∷ rest.last.replies;
          };
          result = rw (up (length ls), k.ignored, rest.result) refl;
          going = rest.going;
          errors = let x = rest.errors in omega arith;
          answered = let x = rest.answered in omega arith;
          silent = rest.silent;
        }
