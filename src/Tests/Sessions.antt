-- ===== src/Tests/Sessions.antt =====
-- Whole sessions: one that logs in and submits a message, and one that sends only noise.
use smtp_relay.Prelude.{
  ℕ, ◌≡◌, refl, true, false, Option, none, some, List, [], ◌∷◌, ◌++◌, arith, All, Text, codes,
  length,
}
use smtp_relay.Util.Strings.{is_some, looks_like_email}
use smtp_relay.Smtp.Lines.{bytes, position_of}
use smtp_relay.Smtp.Session.{ServerConfig, Session}
use smtp_relay.Smtp.Session.Auth.{AuthConfig, Credentials}
use smtp_relay.Smtp.Session.Loop.{Turn, command_loop}
use smtp_relay.Smtp.Session.Loop.Admission.{IsAdmitted, IsProper}
use smtp_relay.Smtp.Session.Loop.Turns.{command_loop-IsProper}
use smtp_relay.Smtp.Session.Loop.Closed.{only_details, command_loop-only_details}
use smtp_relay.Smtp.Session.Loop.Noise.{IsNoise, Endures, loop-Endures}
use smtp_relay.Smtp.Command
use smtp_relay.Smtp.Body.Wire.{crlf}
use smtp_relay.Tests.Servers.{server, submit, fresh}

abbrev users : AuthConfig
users = record {
  auth_users = record { username = codes "u"; password = codes "p" } ∷ [];
  smtp_details = [];
}

-- A decoder that stands for base64 of this one answer.
abbrev decode : Text → Option (List ℕ)
decode t = some (0 ∷ (codes "u" ++ (0 ∷ codes "p")))

abbrev dialogue : List ℕ
dialogue =
    codes "EHLO c"
    ++ crlf
    ++ codes "AUTH PLAIN x"
    ++ crlf
    ++ codes "MAIL FROM:<a@b.c>"
    ++ crlf
    ++ codes "RCPT TO:<d@e.f>"
    ++ crlf
    ++ codes "DATA"
    ++ crlf
    ++ codes "hi"
    ++ crlf
    ++ codes "."
    ++ crlf

abbrev client : Session
client = record fresh { reader = record { inner = bytes dialogue ∷ []; buffer = []; position = 0 } }

abbrev strict : ServerConfig
strict = record server { require_auth = true }

abbrev outcome : Option Turn
outcome = command_loop decode strict users (λ n. false) (λ n. codes "id") (λ n. submit) 3 5 client

abbrev idle : Turn
idle = record { session = client; replies = []; submitted = []; ended = none }

abbrev turn_of : Option Turn → Turn
turn_of none = idle
turn_of (some t) = t

turn_of-some : (o : Option Turn) → is_some o ≡ true → o ≡ some (turn_of o)
turn_of-some none e = absurd (ground arith)
turn_of-some (some t) e = refl

-- The loop returns, and has submitted one message.
outcome-is_some : is_some outcome ≡ true
unfolding command_loop position_of looks_like_email
outcome-is_some = refl

outcome-submitted : length (turn_of outcome).submitted ≡ 1
unfolding command_loop position_of looks_like_email
outcome-submitted = refl

client-IsAdmitted : IsAdmitted strict users client
client-IsAdmitted = record {
  transaction = record { bounded = omega arith; addressed = tt; distinct = tt; opened = refl };
  login = tt;
}

command_loop-IsProper_example : All (IsProper strict users) (turn_of outcome).submitted
command_loop-IsProper_example =
    command_loop-IsProper decode strict users (λ n. false) (λ n. codes "id") (λ n. submit) 3 5
      client (turn_of outcome) client-IsAdmitted (turn_of-some outcome outcome-is_some)

abbrev noise : List (List ℕ)
noise = codes "HELLO" ∷ [] ∷ codes "BDAT 5" ∷ []

abbrev noisy : Session
noisy = record fresh {
  reader = record {
    inner = bytes (codes "HELLO" ++ crlf) ∷ bytes (crlf ++ codes "BDAT 5" ++ crlf) ∷ [];
    buffer = [];
    position = 0;
  };
}

noise-IsNoise : All IsNoise noise
unfolding Command.parse
noise-IsNoise = (
  record {
    unbroken = (refl, (refl, (refl, (refl, (refl, tt)))));
    short = omega arith;
    no_command = refl;
  },
  (
    record { unbroken = tt; short = omega arith; no_command = refl },
    (
      record {
        unbroken = (refl, (refl, (refl, (refl, (refl, (refl, tt))))));
        short = omega arith;
        no_command = refl;
      },
      tt,
    ),
  ),
)

loop-Endures_example :
    Endures decode server users
      (λ n. false)
      (λ n. codes "id")
      (λ n. submit)
      0
      3
      noisy
      (command_loop decode server users (λ n. false) (λ n. codes "id") (λ n. submit) 0 3 noisy)
loop-Endures_example =
    loop-Endures decode server users (λ n. false) (λ n. codes "id") (λ n. submit) 0 noise noisy
      (λ n. refl) noise-IsNoise (record { data_only = (tt, (tt, tt)); within = omega arith }) refl
      (omega arith)

abbrev details : List Credentials
details = record { username = codes "u"; password = codes "p" } ∷ []

abbrev shut_out : Option Turn
shut_out =
    command_loop decode strict (only_details details) (λ n. false) (λ n. codes "id") (λ n. submit) 3
      2 client

shut_out-is_some : is_some shut_out ≡ true
unfolding command_loop position_of looks_like_email
shut_out-is_some = refl

command_loop-only_details_example : (turn_of shut_out).submitted ≡ []
command_loop-only_details_example =
    command_loop-only_details decode strict details (λ n. false) (λ n. codes "id") (λ n. submit) 3 2
      client (turn_of shut_out) refl
      (record {
        transaction = record {
          bounded = omega arith;
          addressed = tt;
          distinct = tt;
          opened = refl;
        };
        login = tt;
      })
      (turn_of-some shut_out shut_out-is_some)
