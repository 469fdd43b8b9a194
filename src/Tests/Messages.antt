-- ===== src/Tests/Messages.antt =====
-- A message with a folded field, and command lines.
use smtp_relay.Prelude.{Text, ℕ, ◌≡◌, refl, false, some, List, [], ◌∷◌, ◌++◌, codes, arith, ok}
use smtp_relay.Util.Strings.{trim, is_whitespace, to_ascii_lowercase, starts_with, strip_prefix}
use smtp_relay.Message.Headers
use smtp_relay.Message.Headers.{
  Header, Message, new, from_parts, parse, peek, to_bytes, split_header_block, split_lines,
}
use smtp_relay.Message.Headers.Fields.{get, count, set, value}
use smtp_relay.Message.Headers.Fields.Editing.{others, set-get}
use smtp_relay.Message.Headers.Wire.{IsField, parse-to_bytes}
use smtp_relay.Message.Headers.Peeking.{peek-parse}
use smtp_relay.Message.Mailboxes.{parse_mailbox}
use smtp_relay.Message.Mailboxes.Scanning.{quoted_mailbox}
use smtp_relay.Message.Mailboxes.Quoted.{parse_mailbox-quoted}
use smtp_relay.Smtp.Command
use smtp_relay.Smtp.Command.{mail, rcpt}
use smtp_relay.Smtp.Command.Sound.{IsSound, parse-IsSound}
use smtp_relay.Smtp.Command.Printing.{sized_mail_line, parse-sized_mail_line}

abbrev subject : Header
subject = record {
  name = codes "Subject";
  lower = codes "subject";
  raw_value = codes " hello" ++ (13 ∷ 10 ∷ codes " world");
}

abbrev body : List ℕ
body = codes "body" ++ (13 ∷ 10 ∷ 13 ∷ 10 ∷ [])

abbrev letter : Message
letter = record { headers = subject ∷ []; body = body; was_lf_only = false }

subject-IsField : IsField subject
unfolding to_ascii_lowercase
subject-IsField = record {
  named = refl;
  printable = (refl, (refl, (refl, (refl, (refl, (refl, (refl, tt)))))));
  lowered = refl;
  first = codes " hello";
  folds = codes " world" ∷ [];
  unbroken = refl;
  folded = (refl, tt);
  raw = refl;
}

parse-to_bytes_example : parse (to_bytes letter) ≡ ok letter
parse-to_bytes_example = parse-to_bytes subject [] body (subject-IsField, tt)

peek-parse_example : peek (to_bytes letter) (codes "SUBJECT") ≡ value letter (codes "SUBJECT")
unfolding to_ascii_lowercase to_bytes split_header_block Headers.lines_from
peek-parse_example =
    peek-parse (to_bytes letter) (codes "SUBJECT") letter refl (refl, (refl, tt))
      parse-to_bytes_example

abbrev relabelled : Message
relabelled = set (codes "SUBJECT") (codes "new") letter

set-get_example :
    (get relabelled (codes "SUBJECT") ≡ some (new (codes "SUBJECT") (codes "new")))
    × (count relabelled (codes "SUBJECT") ≡ 1)
    × (others (to_ascii_lowercase (codes "SUBJECT")) relabelled.headers
        ≡ others (to_ascii_lowercase (codes "SUBJECT")) letter.headers)
    × (relabelled.body ≡ letter.body)
    × (relabelled.was_lf_only ≡ letter.was_lf_only)
set-get_example = set-get (codes "SUBJECT") (codes "new") letter

parse-IsSound_example : IsSound (Command.parse (codes "RCPT TO:<>"))
parse-IsSound_example = parse-IsSound (codes "RCPT TO:<>")

parse-sized_mail_line_example :
    Command.parse (sized_mail_line (codes "a@b") (codes "120")) ≡ ok (mail (codes "a@b") (some 120))
unfolding starts_with strip_prefix
parse-sized_mail_line_example =
    parse-sized_mail_line (codes "a@b") (codes "120") ((refl, (refl, (refl, tt))), refl)
      (refl, (refl, (refl, tt))) refl (omega arith)

-- A comma and quotes in the name.
abbrev company : Text
company = codes "Acme, " ++ (b'"' ∷ codes "Inc") ++ (b'"' ∷ [])

parse_mailbox-quoted_example :
    parse_mailbox (quoted_mailbox company (codes "a@b"))
    ≡ some (record { display_name = company; address = codes "a@b" })
unfolding trim is_whitespace starts_with strip_prefix
parse_mailbox-quoted_example =
    parse_mailbox-quoted company (codes "a@b") refl (refl, (refl, (refl, tt))) refl refl
