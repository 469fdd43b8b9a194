-- ===== src/Message/Headers/Peeking.antt =====
-- `peek` against the parser.
use smtp_relay.Prelude.{
  ℕ, ◌≡◌, refl, sym, ap, ◌∙◌, false, Option, none, some, List, [], ◌∷◌, ◌++◌, Text, text_eq,
  is_empty, if◌then◌else◌, arith, All, inl, inr, Bool-cases, ok,
}
use smtp_relay.Util.Strings.{
  to_ascii_lowercase, split_once, trim, trim_start_matches, trim_end_matches,
}
use smtp_relay.Util.Utf8.{from_utf8_lossy_ascii}
use smtp_relay.Message.Headers.{
  Header, Message, Field, from_parts, is_continuation, extended, begun_by, pushed, parse_lines,
  parse_header_block, parse, split_header_block, split_lines, peeked_by, peek_more, peek_lines,
  peek, unfolded,
}
use smtp_relay.Message.Headers.Fields.{find_named, value, get, unfolded_value}

-- The value of a field, if it has the name.
abbrev wanted : Text → Option Field → Option (List ℕ)
wanted needle none = none
wanted needle (some (name, raw)) =
    if text_eq (to_ascii_lowercase name) needle then some raw else none

abbrev raw_of : Option Header → Option (List ℕ)
raw_of none = none
raw_of (some h) = some h.raw_value

wanted-extended :
    (needle : Text) (current : Option Field) (line : List ℕ)
    → wanted needle (extended current line) ≡ peek_more (wanted needle current) line
wanted-extended needle none line = refl
wanted-extended needle (some (name, raw)) line = ground arith

-- A name that is asked for is not empty, and so is the name of the field.
peeked_by-wanted :
    (needle : Text) (split : Option (Text × Text))
    → is_empty needle ≡ false
    → peeked_by needle split ≡ wanted needle (begun_by split)
unfolding to_ascii_lowercase trim trim_start_matches trim_end_matches text_eq
peeked_by-wanted needle none e = refl
peeked_by-wanted [] (some ([], raw)) e = absurd (ground arith)
peeked_by-wanted (c ∷ needle) (some ([], raw)) e = rw (from_utf8_lossy_ascii [] tt) refl
peeked_by-wanted needle (some (b ∷ before, raw)) e = refl

find_named-pushed :
    (needle : Text) (current : Option Field) (hs : List Header)
    → raw_of (find_named needle (pushed current ++ hs))
      ≡ elim (wanted needle current) [ some v ↦ some v | none ↦ raw_of (find_named needle hs) ]
unfolding from_parts
find_named-pushed needle none hs = refl
find_named-pushed needle (some (name, raw)) hs = ground arith

-- The search stops at the field that the parser would have found.
peek_lines-parse_lines :
    (needle : Text) (current : Option Field) (lines : List (List ℕ))
    → is_empty needle ≡ false
    → All (λ l. is_empty l ≡ false) lines
    → peek_lines needle (wanted needle current) lines
      ≡ raw_of (find_named needle (parse_lines current lines))
unfolding peek_lines parse_lines from_parts
peek_lines-parse_lines needle none [] e h = refl
peek_lines-parse_lines needle (some (name, raw)) [] e h = ground arith
peek_lines-parse_lines needle current (l ∷ ls) e (k, h) = elim (Bool-cases (is_continuation l)) [
  | inl c ↦
      rw (k, c, sym (wanted-extended needle current l))
        (peek_lines-parse_lines needle (extended current l) ls e h)
  | inr c ↦
      let next = begun_by (split_once b':' l) in
      let later : peek_lines needle (peeked_by needle (split_once b':' l)) ls
          ≡ raw_of (find_named needle (parse_lines next ls)) =
        rw (peeked_by-wanted needle (split_once b':' l) e)
          (peek_lines-parse_lines needle next ls e h) in
      rw (k, c, find_named-pushed needle current (parse_lines next ls))
        (ap (λ rest. elim (wanted needle current) [ some v ↦ some v | none ↦ rest ]) later)
]

parse-headers :
    (raw : List ℕ) (m : Message)
    → parse raw ≡ ok m
    → parse_header_block (split_header_block raw).0 ≡ m.headers
unfolding parse
parse-headers [] m p = absurd (ground arith)
parse-headers (b ∷ bs) m p = ground arith

unfolded-raw_of : (o : Option Header) → unfolded (raw_of o) ≡ unfolded_value o
unfolded-raw_of none = refl
unfolded-raw_of (some h) = refl

-- `peek` of a name that is not empty is the value that the parsed message has for it, for every
-- message in whose header block no line is empty.
pub peek-parse :
    (raw : List ℕ) (name : Text) (m : Message)
    → is_empty (to_ascii_lowercase name) ≡ false
    → All (λ l. is_empty l ≡ false) (split_lines (split_header_block raw).0)
    → parse raw ≡ ok m
    → peek raw name ≡ value m name
unfolding peek value get parse_header_block
peek-parse raw name m e h p =
    let needle = to_ascii_lowercase name in
    let lines = split_lines (split_header_block raw).0 in
    ap unfolded (peek_lines-parse_lines needle none lines e h)
    ∙ unfolded-raw_of (find_named needle (parse_lines none lines))
    ∙ ap (λ hs. unfolded_value (find_named needle hs)) (parse-headers raw m p)
