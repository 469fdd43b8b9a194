-- ===== src/Smtp/Command/Sound.antt =====
-- What every answer of the parser satisfies.
use smtp_relay.Prelude.{
  ℕ, ◌≡◌, ◌<◌, ◌⊎◌, refl, inl, inr, Bool, true, false, Option, none, some, List, [], ◌∷◌, Text,
  codes, text_eq, is_empty, u64_mod, if◌then◌else◌, arith, Result, ok, err, ◌>>=◌,
}
use smtp_relay.Util.Strings.{strip_prefix, split_once, trim}
use smtp_relay.Util.Utf8.{from_utf8_lossy}
use smtp_relay.Smtp.Command.{
  ignored_by_mail, ignored_by_rcpt, unsupported, trim_start, Command, ehlo, helo, mail, rcpt,
  CommandError, new, syntax_error, parse_u64, Parameter, size_of, expect_keyword, path_parts,
  split_path, mail_parameters, rcpt_parameters, keyword_or, parse_mail, parse_rcpt, parse_auth,
  parse_verb, parse, break_at_blank, to_ascii_uppercase, is_one_of, hello_of, auth_of, first_token,
  split_whitespace,
}

-- An error is one of the two codes for bad arguments.
abbrev pub IsSyntax : CommandError → Type 0
IsSyntax e = (e.code ≡ 501) ⊎ (e.code ≡ 555)

-- A recipient is not empty, and a size is a 64-bit number.
abbrev pub IsSound : Result Command CommandError → Type 0
IsSound (ok (rcpt address)) = is_empty address ≡ false
IsSound (ok (mail address (some n))) = n < u64_mod
IsSound (ok _) = Unit
IsSound (err e) = IsSyntax e

abbrev IsWord : Option ℕ → Type 0
IsWord none = Unit
IsWord (some n) = n < u64_mod

abbrev AreSound : Result (Option ℕ) CommandError → Type 0
AreSound (ok size) = IsWord size
AreSound (err e) = IsSyntax e

-- Both branches of a test.
either : {A : Type 0} (P : A → Type 0) (b : Bool) {x y : A} → P x → P y → P (if b then x else y)
either P true hx hy = hx
either P false hx hy = hy

size_of-IsWord : (text : Option Text) → IsWord (size_of text)
unfolding parse_u64
size_of-IsWord none = tt
size_of-IsWord (some v) = ground arith

unsupported-IsSyntax : (verb key : Text) → IsSyntax (unsupported verb key)
unfolding unsupported
unsupported-IsSyntax verb key = inr refl

mail_parameters-AreSound :
    (size : Option ℕ) (ps : List Parameter) → IsWord size → AreSound (mail_parameters size ps)
unfolding mail_parameters
mail_parameters-AreSound size [] h = h
mail_parameters-AreSound size ((key, text) ∷ ps) h =
    either AreSound (text_eq key (codes "SIZE"))
      (sized text (size_of text) (mail_parameters (size_of text) ps)
        (mail_parameters-AreSound (size_of text) ps (size_of-IsWord text)))
      (either AreSound (is_one_of ignored_by_mail key) (mail_parameters-AreSound size ps h)
        (unsupported-IsSyntax (codes "MAIL") key))
  where
    sized :
        (text : Option Text) (o : Option ℕ) (r : Result (Option ℕ) CommandError)
        → AreSound r
        → AreSound (elim o [
          | none ↦ err (syntax_error (codes "the SIZE parameter must be a number"))
          | some n ↦ r
        ])
    sized text none r h = inl refl
    sized text (some n) r h = h

Fails : {A : Type 0} → Result A CommandError → Type 0
Fails (ok a) = Unit
Fails (err e) = IsSyntax e

rcpt_parameters-Fails : (ps : List Parameter) → Fails (rcpt_parameters ps)
unfolding rcpt_parameters Fails
rcpt_parameters-Fails [] = tt
rcpt_parameters-Fails ((key, text) ∷ ps) =
    either Fails (is_one_of ignored_by_rcpt key) (rcpt_parameters-Fails ps)
      (unsupported-IsSyntax (codes "RCPT") key)

path_parts-Fails : (trimmed : Text) → Fails (path_parts trimmed)
unfolding path_parts Fails
path_parts-Fails trimmed = opened (strip_prefix (b'<' ∷ []) trimmed)
  where
    closed :
        (o : Option (Text × Text))
        → Fails (elim o [
          | none ↦ err (syntax_error (codes "unterminated address: expected a closing >"))
          | some parts ↦ ok parts
        ])
    closed none = inl refl
    closed (some parts) = tt

    opened :
        (o : Option Text)
        → Fails (elim o [
          | none ↦ ok (break_at_blank trimmed)
          | some rest ↦ elim (split_once b'>' rest) [
            | none ↦ err (syntax_error (codes "unterminated address: expected a closing >"))
            | some parts ↦ ok parts
          ]
        ])
    opened none = tt
    opened (some rest) = closed (split_once b'>' rest)

split_path-Fails : (input : Text) → Fails (split_path input)
unfolding split_path Fails
split_path-Fails input =
    bound (path_parts (trim_start input)) _ (path_parts-Fails (trim_start input))
  where
    bound :
        (r : Result (Text × Text) CommandError) (f : Text × Text → Text × List Parameter)
        → Fails r
        → Fails (r >>= (λ x. ok (f x)))
    bound (ok a) f h = tt
    bound (err e) f h = h

bind-IsSound :
    {A : Type 0} (r : Result A CommandError) (f : A → Result Command CommandError)
    → Fails r
    → ((a : A) → IsSound (f a))
    → IsSound (r >>= f)
unfolding Fails
bind-IsSound (ok a) f h k = k a
bind-IsSound (err e) f h k = h

keyword_or-Fails : (message : Text) (o : Option Text) → Fails (keyword_or message o)
unfolding Fails
keyword_or-Fails message none = inl refl
keyword_or-Fails message (some after) = tt

parse_mail-IsSound : (rest : Text) → IsSound (parse_mail rest)
unfolding parse_mail
parse_mail-IsSound rest =
    bind-IsSound
      (keyword_or (codes "expected MAIL FROM:<address>") (expect_keyword rest (codes "FROM"))) _
      (keyword_or-Fails _ (expect_keyword rest (codes "FROM")))
      (λ after.
        bind-IsSound (split_path after) _ (split_path-Fails after)
          (λ (parts : Text × List Parameter).
            sized parts.0 (mail_parameters none parts.1)
              (mail_parameters-AreSound none parts.1 tt)))
  where
    sized :
        (address : Text) (r : Result (Option ℕ) CommandError)
        → AreSound r
        → IsSound (r >>= (λ size. ok (mail address size)))
    sized address (ok none) h = tt
    sized address (ok (some n)) h = h
    sized address (err e) h = h

parse_rcpt-IsSound : (rest : Text) → IsSound (parse_rcpt rest)
unfolding parse_rcpt
parse_rcpt-IsSound rest =
    bind-IsSound
      (keyword_or (codes "expected RCPT TO:<address>") (expect_keyword rest (codes "TO"))) _
      (keyword_or-Fails _ (expect_keyword rest (codes "TO")))
      (λ after.
        bind-IsSound (split_path after) _ (split_path-Fails after)
          (λ (parts : Text × List Parameter).
            addressed parts.0 (rcpt_parameters parts.1) (rcpt_parameters-Fails parts.1)))
  where
    addressed :
        (address : Text) (r : Result (Unit {0}) CommandError)
        → Fails r
        → IsSound (
            if is_empty address
            then err (new 501 (codes "5.1.3") (codes "a recipient address is required"))
            else (r >>= (λ _. ok (rcpt address))))
    addressed [] r h = inl refl
    addressed (c ∷ s) r h = bind-IsSound r _ h (λ _. refl)

hello-IsSound :
    (message : Text) (hello : Text → Command) (rest : Text)
    → ((d : Text) → IsSound (ok (hello d)))
    → IsSound (hello_of message hello rest)
hello-IsSound message hello [] h = inl refl
hello-IsSound message hello (c ∷ s) h = h (first_token (c ∷ s))

auth_of-IsSound : (ws : List Text) → IsSound (ok (auth_of ws))
auth_of-IsSound [] = tt
auth_of-IsSound (w ∷ []) = tt
auth_of-IsSound (w ∷ v ∷ ws) = tt

parse_auth-IsSound : (rest : Text) → IsSound (parse_auth rest)
unfolding parse_auth
parse_auth-IsSound [] = inl refl
parse_auth-IsSound (c ∷ s) = auth_of-IsSound (split_whitespace (c ∷ s))

parse_verb-IsSound : (upper rest : Text) → IsSound (parse_verb upper rest)
unfolding parse_verb
parse_verb-IsSound upper rest = ground (
  arith,
  hello-IsSound (codes "EHLO requires a domain name") ehlo rest (λ d. tt),
  hello-IsSound (codes "HELO requires a domain name") helo rest (λ d. tt),
  parse_mail-IsSound rest,
  parse_rcpt-IsSound rest,
  parse_auth-IsSound rest,
)

-- Whatever bytes a client sends as a line, `parse` answers with a command or with one of the error
-- codes 501 and 555; the address of an RCPT is never empty, and the size of a MAIL fits into 64 bits.
pub parse-IsSound : (line : List ℕ) → IsSound (parse line)
unfolding parse
parse-IsSound line =
    let trimmed = trim (from_utf8_lossy line) in
    let (verb, rest) = break_at_blank trimmed in
    ground (arith, parse_verb-IsSound (to_ascii_uppercase verb) (trim_start rest))
