-- ===== src/Smtp/Command/Printing.antt =====
-- The command lines that a client writes for MAIL and RCPT, and what the parser makes of them.
use native.Mathlib.Nat.{pow-suc}
use mathlib.Core.List.{append_assoc, append-nil}
use smtp_relay.Prelude.{
  ℕ, ◌≡◌, ◌<◌, ◌+◌, ◌-◌, ◌*◌, ◌^◌, length, refl, ap, ◌∙◌, Bool, true, false, not, ◌&&◌, none, some,
  List, [], ◌∷◌, ◌++◌, map, Text, codes, any, is_empty, leb, ◌==◌, u64_mod, lt→ltb, arith, All, ok,
}
use smtp_relay.Util.Strings.{
  trim, trim_start_matches, split_once, is_whitespace, starts_with, strip_prefix,
}
use smtp_relay.Util.Trimming.{trim-none, trim-ends}
use smtp_relay.Util.Utf8.{IsAscii, from_utf8_lossy, from_utf8_lossy_ascii}
use smtp_relay.Smtp.Command.{
  mail, rcpt, parse, parse_verb, parse_mail, parse_rcpt, expect_keyword, split_path, path_parts,
  split_whitespace, words_from, strip_source_route, break_at_blank, mail_parameters,
  rcpt_parameters, parse_u64, digits_value, is_digit, parameter_of, without_plus,
}

-- A character of an address: visible ASCII without the closing bracket.
abbrev pub is_plain : ℕ → Bool
is_plain c = leb 33 c && leb c 126 && not (c == b'>')

abbrev pub IsPlain : Text → Type 0
IsPlain address = All (λ c. is_plain c ≡ true) address × (starts_with address (b'@' ∷ []) ≡ false)

abbrev pub AreDigits : Text → Type 0
AreDigits = All (λ c. leb 48 c && leb c 57 ≡ true)

-- The number that decimal digits stand for: each counts for its power of ten.
abbrev pub decimal : Text → ℕ
decimal [] = 0
decimal (c ∷ s) = (c - 48) * 10 ^ length s + decimal s

abbrev pub mail_line : Text → Text
mail_line address = codes "MAIL FROM:<" ++ address ++ codes ">"

abbrev pub sized_mail_line : Text → Text → Text
sized_mail_line address digits = codes "MAIL FROM:<" ++ address ++ codes "> SIZE=" ++ digits

abbrev pub rcpt_line : Text → Text
rcpt_line address = codes "RCPT TO:<" ++ address ++ codes ">"

-- No byte of the list is outside ASCII.
wide : List ℕ → Bool
wide s = any (λ b. leb 0x80 b) s

wide-append : (s t : Text) → wide s ≡ false → wide t ≡ false → wide (s ++ t) ≡ false
unfolding wide
wide-append [] t h k = k
wide-append (c ∷ s) t h k = ground (arith, wide-append s t)

wide-IsAscii : (s : Text) → wide s ≡ false → IsAscii s
unfolding wide
wide-IsAscii [] h = tt
wide-IsAscii (c ∷ s) h = (ground arith, wide-IsAscii s (ground arith))

plain-wide : (s : Text) → All (λ c. is_plain c ≡ true) s → wide s ≡ false
unfolding wide
plain-wide [] h = refl
plain-wide (c ∷ s) (e, h) = ground (arith, plain-wide s h)

plain-solid : (s : Text) → All (λ c. is_plain c ≡ true) s → any is_whitespace s ≡ false
unfolding is_whitespace
plain-solid [] h = refl
plain-solid (c ∷ s) (e, h) = ground (arith, plain-solid s h)

digits-wide : (s : Text) → AreDigits s → wide s ≡ false
unfolding wide
digits-wide [] h = refl
digits-wide (c ∷ s) (e, h) = ground (arith, digits-wide s h)

digits-solid : (s : Text) → AreDigits s → any is_whitespace s ≡ false
unfolding is_whitespace
digits-solid [] h = refl
digits-solid (c ∷ s) (e, h) = ground (arith, digits-solid s h)

split_once-address :
    (s t : Text) → All (λ c. is_plain c ≡ true) s → split_once b'>' (s ++ (b'>' ∷ t)) ≡ some (s, t)
unfolding split_once
split_once-address [] t h = refl
split_once-address (c ∷ s) t (e, h) = ground (arith, split_once-address s t h)

words_from-solid :
    (w s : Text) → any is_whitespace s ≡ false → words_from w s ≡ words_from (w ++ s) []
unfolding words_from
words_from-solid w [] e = rw (append-nil w) refl
words_from-solid w (c ∷ s) e =
    let b : is_whitespace c ≡ false = ground arith in
    rw b (words_from-solid (w ++ (c ∷ [])) s (ground arith) ∙ rw (append_assoc w (c ∷ []) s) refl)

path_parts-address :
    (address t : Text)
    → All (λ c. is_plain c ≡ true) address
    → path_parts ((b'<' ∷ address) ++ (b'>' ∷ t)) ≡ ok (address, t)
unfolding path_parts strip_prefix
path_parts-address address t h = rw (split_once-address address t h, path_parts) refl

strip_source_route-plain :
    (address : Text)
    → starts_with address (b'@' ∷ []) ≡ false
    → strip_source_route address ≡ address
unfolding strip_source_route
strip_source_route-plain address k = rw k refl

-- What follows the keyword of either command.
split_path-address :
    (address t : Text)
    → IsPlain address
    → split_path ((b'<' ∷ address) ++ (b'>' ∷ t))
      ≡ ok (address, map (λ token. parameter_of token (split_once b'=' token)) (split_whitespace t))
unfolding split_path trim_start_matches is_whitespace
split_path-address address t (h, k) =
    rw
      (
        path_parts-address address t h,
        trim-none address (plain-solid address h),
        strip_source_route-plain address k,
      )
      refl

-- A line of visible characters, which ends in one, is read as it stands.
read-line :
    (c : ℕ) (s t : Text)
    → is_whitespace c ≡ false
    → any is_whitespace t ≡ false
    → is_empty t ≡ false
    → wide (c ∷ (s ++ t)) ≡ false
    → trim (from_utf8_lossy (c ∷ (s ++ t))) ≡ c ∷ (s ++ t)
read-line c s t b e n w =
    rw (from_utf8_lossy_ascii (c ∷ (s ++ t)) (wide-IsAscii (c ∷ (s ++ t)) w))
      (trim-ends c s t b e n)

-- An RCPT that a client writes with an address that is not empty is parsed to that address.
pub parse-rcpt_line :
    (address : Text)
    → IsPlain address
    → is_empty address ≡ false
    → parse (rcpt_line address) ≡ ok (rcpt address)
unfolding wide parse parse_verb parse_rcpt break_at_blank trim_start_matches is_whitespace
    expect_keyword strip_prefix split_whitespace words_from rcpt_parameters
parse-rcpt_line address p e =
    let whole =
      read-line b'R' (codes "CPT TO:<" ++ address) (codes ">") refl refl refl
        (wide-append address (codes ">") (plain-wide address p.0) refl) in
    rw (whole, split_path-address address [] p, e, parse) refl

-- A MAIL that a client writes without parameters is parsed to its address, which may be empty.
pub parse-mail_line :
    (address : Text) → IsPlain address → parse (mail_line address) ≡ ok (mail address none)
unfolding wide parse parse_verb parse_mail break_at_blank trim_start_matches is_whitespace
    expect_keyword strip_prefix split_whitespace words_from mail_parameters
parse-mail_line address p =
    let whole =
      read-line b'M' (codes "AIL FROM:<" ++ address) (codes ">") refl refl refl
        (wide-append address (codes ">") (plain-wide address p.0) refl) in
    rw (whole, split_path-address address [] p, parse) refl

without_plus-digits : (ds : Text) → AreDigits ds → without_plus ds ≡ ds
without_plus-digits [] h = refl
without_plus-digits (c ∷ ds) (e, h) = ground arith

all_digits : (ds : Text) → AreDigits ds → any (λ c. not (is_digit c)) ds ≡ false
all_digits [] h = refl
all_digits (c ∷ ds) (e, h) = ground (arith, all_digits ds h)

shifted : (n d p r : ℕ) → (n * 10 + d) * p + r ≡ n * (p * 10) + (d * p + r)
shifted n d p r = grind arith

digits_value-decimal : (n : ℕ) (ds : Text) → digits_value n ds ≡ n * 10 ^ length ds + decimal ds
digits_value-decimal n [] = omega arith
digits_value-decimal n (c ∷ ds) =
    digits_value-decimal (n * 10 + (c - 48)) ds
    ∙ rw (pow-suc 10 (length ds)) (shifted n (c - 48) (10 ^ length ds) (decimal ds))

parse_u64-digits :
    (ds : Text)
    → AreDigits ds
    → is_empty ds ≡ false
    → decimal ds < u64_mod
    → parse_u64 ds ≡ some (decimal ds)
unfolding parse_u64
parse_u64-digits ds h n w =
    let value : digits_value 0 ds ≡ decimal ds = digits_value-decimal 0 ds ∙ omega arith in
    rw (without_plus-digits ds h, n, all_digits ds h, value, lt→ltb (decimal ds) u64_mod w) refl

-- A MAIL that a client writes with a size is parsed to its address and that size. The address, which
-- may be empty, is made of visible ASCII without a closing bracket and does not start with an at
-- sign; the size is written in decimal digits, at least one, and fits into 64 bits.
pub parse-sized_mail_line :
    (address digits : Text)
    → IsPlain address
    → AreDigits digits
    → is_empty digits ≡ false
    → decimal digits < u64_mod
    → parse (sized_mail_line address digits) ≡ ok (mail address (some (decimal digits)))
unfolding wide parse parse_verb parse_mail break_at_blank trim_start_matches is_whitespace
    expect_keyword strip_prefix split_whitespace words_from mail_parameters
parse-sized_mail_line address digits p d n w =
    let whole =
      read-line b'M' (codes "AIL FROM:<" ++ address ++ codes "> SIZE=") digits refl
        (digits-solid digits d) n
        (wide-append (address ++ codes "> SIZE=") digits
          (wide-append address (codes "> SIZE=") (plain-wide address p.0) refl)
          (digits-wide digits d)) in
    rw
      (
        whole,
        append_assoc address (codes "> SIZE=") digits,
        split_path-address address (codes " SIZE=" ++ digits) p,
        words_from-solid (codes "SIZE=") digits (digits-solid digits d),
        parse_u64-digits digits d n w,
      )
      (ap (λ size. ok (mail address size)) (parse_u64-digits digits d n w))
