-- ===== src/Smtp/Command.antt =====
-- src/smtp/command.rs: the parser of a client's command lines. `find`, `split_at`, `split_whitespace`
-- and `parse::<u64>` are the standard library's. An error carries the words of the source without
-- their quotation marks.
pub mod Sound
pub mod Printing
use smtp_relay.Prelude.{
  ℕ, zero, suc, ◌+◌, ◌-◌, ◌*◌, Bool, true, false, not, ◌&&◌, ◌||◌, Option, none, some, List, [],
  ◌∷◌, ◌++◌, map, Text, codes, text_eq, eq_ignore_ascii_case, any, is_empty, length, ltb, leb, ◌==◌,
  if◌then◌else◌, u64_mod, Result, ok, err, ◌>>=◌,
}
use smtp_relay.Util.Strings.{
  trim, trim_start_matches, is_whitespace, strip_prefix, starts_with, split_once, take,
}
use smtp_relay.Util.Utf8.{from_utf8_lossy}

pub data Command : Type 0 where
  ehlo : Text → Command
  helo : Text → Command
  mail : (address : Text) (size : Option ℕ) → Command
  rcpt : (address : Text) → Command
  data_command rset noop quit vrfy expn help start_tls : Command
  auth : (mechanism : Text) (initial : Option Text) → Command
  unimplemented : Text → Command
  unknown : Text → Command
  blank : Command

pub record CommandError : Type 0 where
  pub code : ℕ
  pub enhanced : Text
  pub message : Text

abbrev pub new : ℕ → Text → Text → CommandError
new code enhanced message = record { code = code; enhanced = enhanced; message = message }

abbrev pub syntax_error : Text → CommandError
syntax_error message = new 501 (codes "5.5.4") message

-- `u8::to_ascii_uppercase` of each character.
abbrev pub to_upper : ℕ → ℕ
to_upper c = if leb b'a' c && leb c b'z' then c - 32 else c

abbrev pub to_ascii_uppercase : Text → Text
to_ascii_uppercase s = map to_upper s

abbrev pub trim_start : Text → Text
trim_start s = trim_start_matches is_whitespace s

-- The text before its first blank, and the rest from there on.
unfoldable pub break_at_blank : Text → Text × Text
unfolding is_whitespace
break_at_blank [] = ([], [])
break_at_blank (c ∷ s) =
    let (word, rest) = break_at_blank s in if is_whitespace c then ([], c ∷ s) else (c ∷ word, rest)

abbrev word_of : Text → List Text
word_of w = if is_empty w then [] else w ∷ []

unfoldable pub words_from : Text → Text → List Text
unfolding is_whitespace
words_from w [] = word_of w
words_from w (c ∷ s) =
    let ended = words_from [] s in
    let longer = words_from (w ++ (c ∷ [])) s in
    if is_whitespace c then word_of w ++ ended else longer

unfoldable pub split_whitespace : Text → List Text
unfolding words_from
split_whitespace s = words_from [] s

abbrev first_or_empty : List Text → Text
first_or_empty [] = []
first_or_empty (w ∷ ws) = w

unfoldable pub first_token : Text → Text
unfolding split_whitespace
first_token input = first_or_empty (split_whitespace input)

-- `parse::<u64>`: digits after a `+` that may stand there, and no overflow.
abbrev pub is_digit : ℕ → Bool
is_digit c = leb b'0' c && leb c b'9'

abbrev pub digits_value : ℕ → Text → ℕ
digits_value n [] = n
digits_value n (c ∷ s) = digits_value (n * 10 + (c - b'0')) s

abbrev pub without_plus : Text → Text
without_plus [] = []
without_plus (c ∷ s) = if c == b'+' then s else c ∷ s

unfoldable pub parse_u64 : Text → Option ℕ
parse_u64 s =
    let ds = without_plus s in
    if not (is_empty ds) && not (any (λ c. not (is_digit c)) ds) && ltb (digits_value 0 ds) u64_mod
    then some (digits_value 0 ds)
    else none

abbrev pub skip : ℕ → Text → Text
skip zero s = s
skip (suc n) [] = []
skip (suc n) (c ∷ s) = skip n s

unfoldable pub expect_keyword : Text → Text → Option Text
unfolding trim_start_matches eq_ignore_ascii_case strip_prefix
expect_keyword input keyword =
    let trimmed = trim_start input in
    let n = length keyword in
    if eq_ignore_ascii_case (take n trimmed) keyword
    then strip_prefix (b':' ∷ []) (trim_start (skip n trimmed))
    else none

abbrev pub Parameter : Type 0
Parameter = Text × Option Text

abbrev pub parameter_of : Text → Option (Text × Text) → Parameter
parameter_of token none = (to_ascii_uppercase token, none)
parameter_of token (some (key, text)) = (to_ascii_uppercase key, some text)

unfoldable after_route : Text → Option (Text × Text) → Text
unfolding trim
after_route address none = address
after_route address (some (_, rest)) = trim rest

unfoldable pub strip_source_route : Text → Text
unfolding after_route split_once starts_with
strip_source_route address =
    if starts_with address (b'@' ∷ [])
    then after_route address (split_once b':' address)
    else address

-- The address as it is written, and what follows it.
unfoldable pub path_parts : Text → Result (Text × Text) CommandError
unfolding split_once strip_prefix break_at_blank
path_parts trimmed = elim (strip_prefix (b'<' ∷ []) trimmed) [
  | none ↦ ok (break_at_blank trimmed)
  | some opened ↦ elim (split_once b'>' opened) [
    | none ↦ err (syntax_error (codes "unterminated address: expected a closing >"))
    | some parts ↦ ok parts
  ]
]

unfoldable pub split_path : Text → Result (Text × List Parameter) CommandError
unfolding path_parts trim strip_source_route split_whitespace split_once trim_start_matches
split_path input = path_parts (trim_start input) >>= λ (address, remainder). ok (
  strip_source_route (trim address),
  map (λ token. parameter_of token (split_once b'=' token)) (split_whitespace remainder),
)

abbrev pub is_one_of : List Text → Text → Bool
is_one_of names key = any (λ name. text_eq key name) names

abbrev pub size_of : Option Text → Option ℕ
size_of none = none
size_of (some v) = parse_u64 v

abbrev pub ignored_by_mail : List Text
ignored_by_mail =
    codes "BODY"
    ∷ codes "SMTPUTF8"
    ∷ codes "RET"
    ∷ codes "ENVID"
    ∷ codes "AUTH"
    ∷ codes "REQUIRETLS"
    ∷ []

abbrev pub ignored_by_rcpt : List Text
ignored_by_rcpt = codes "NOTIFY" ∷ codes "ORCPT" ∷ codes "RRVS" ∷ []

unfoldable pub unsupported : Text → Text → CommandError
unsupported verb key =
    new 555 (codes "5.5.4") (codes "unsupported " ++ verb ++ codes " parameter " ++ key)

-- The loop over the parameters of MAIL; `size` is the last that was given.
unfoldable pub mail_parameters : Option ℕ → List Parameter → Result (Option ℕ) CommandError
unfolding parse_u64 text_eq unsupported
mail_parameters size [] = ok size
mail_parameters size ((key, text) ∷ rest) =
    let sized = mail_parameters (size_of text) rest in
    let ignored = mail_parameters size rest in
    if text_eq key (codes "SIZE")
    then elim (size_of text) [
      | none ↦ err (syntax_error (codes "the SIZE parameter must be a number"))
      | some n ↦ sized
    ]
    else if is_one_of ignored_by_mail key
    then ignored
    else err (unsupported (codes "MAIL") key)

unfoldable pub rcpt_parameters : List Parameter → Result (Unit {0}) CommandError
unfolding text_eq unsupported
rcpt_parameters [] = ok tt
rcpt_parameters ((key, text) ∷ rest) =
    let ignored = rcpt_parameters rest in
    if is_one_of ignored_by_rcpt key then ignored else err (unsupported (codes "RCPT") key)

abbrev pub keyword_or : Text → Option Text → Result Text CommandError
keyword_or message none = err (syntax_error message)
keyword_or message (some after) = ok after

unfoldable pub parse_mail : Text → Result Command CommandError
unfolding expect_keyword split_path mail_parameters
parse_mail rest =
    keyword_or (codes "expected MAIL FROM:<address>") (expect_keyword rest (codes "FROM"))
    >>= λ after. split_path after >>= λ (address, parameters).
        mail_parameters none parameters >>= λ size. ok (mail address size)

unfoldable pub parse_rcpt : Text → Result Command CommandError
unfolding expect_keyword split_path rcpt_parameters
parse_rcpt rest =
    keyword_or (codes "expected RCPT TO:<address>") (expect_keyword rest (codes "TO")) >>= λ after.
    split_path after >>= λ (address, parameters).
    if is_empty address
    then err (new 501 (codes "5.1.3") (codes "a recipient address is required"))
    else (rcpt_parameters parameters >>= λ _. ok (rcpt address))

abbrev pub auth_of : List Text → Command
auth_of [] = auth [] none
auth_of (mechanism ∷ []) = auth (to_ascii_uppercase mechanism) none
auth_of (mechanism ∷ initial ∷ _) = auth (to_ascii_uppercase mechanism) (some initial)

unfoldable pub parse_auth : Text → Result Command CommandError
unfolding split_whitespace
parse_auth rest =
    if is_empty rest
    then err (syntax_error (codes "AUTH requires a mechanism"))
    else ok (auth_of (split_whitespace rest))

abbrev pub hello_of : Text → (Text → Command) → Text → Result Command CommandError
hello_of message hello rest =
    if is_empty rest then err (syntax_error message) else ok (hello (first_token rest))

-- The verb is in capitals.
unfoldable pub parse_verb : Text → Text → Result Command CommandError
unfolding text_eq first_token parse_mail parse_rcpt parse_auth
parse_verb upper rest =
    if text_eq upper (codes "EHLO")
    then hello_of (codes "EHLO requires a domain name") ehlo rest
    else if text_eq upper (codes "HELO")
    then hello_of (codes "HELO requires a domain name") helo rest
    else if text_eq upper (codes "MAIL")
    then parse_mail rest
    else if text_eq upper (codes "RCPT")
    then parse_rcpt rest
    else if text_eq upper (codes "DATA")
    then ok data_command
    else if text_eq upper (codes "RSET")
    then ok rset
    else if text_eq upper (codes "NOOP")
    then ok noop
    else if text_eq upper (codes "QUIT")
    then ok quit
    else if text_eq upper (codes "VRFY")
    then ok vrfy
    else if text_eq upper (codes "EXPN")
    then ok expn
    else if text_eq upper (codes "HELP")
    then ok help
    else if text_eq upper (codes "STARTTLS")
    then ok start_tls
    else if text_eq upper (codes "AUTH")
    then parse_auth rest
    else if is_one_of
        (codes "BDAT"
          ∷ codes "ETRN"
          ∷ codes "ATRN"
          ∷ codes "TURN"
          ∷ codes "SAML"
          ∷ codes "SOML"
          ∷ codes "SEND"
          ∷ [])
        upper
    then ok (unimplemented upper)
    else ok (unknown upper)

unfoldable pub parse : List ℕ → Result Command CommandError
unfolding from_utf8_lossy trim break_at_blank trim_start_matches parse_verb
parse line =
    let trimmed = trim (from_utf8_lossy line) in
    let (verb, rest) = break_at_blank trimmed in
    if is_empty trimmed then ok blank else parse_verb (to_ascii_uppercase verb) (trim_start rest)
