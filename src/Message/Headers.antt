-- ===== src/Message/Headers.antt =====
-- src/message/headers.rs: `Header` and `Message`, their parser and their printer. A message is a list
-- of bytes; a line feed is 10, a carriage return 13.
pub mod Fields
pub mod Blocks
pub mod Wire
pub mod Peeking
use smtp_relay.Prelude.{
  ℕ, zero, suc, ◌+◌, ◌-◌, Bool, true, false, not, ◌&&◌, ◌||◌, Option, none, some, List, [], ◌∷◌,
  ◌++◌, Text, text_eq, any, is_empty, length, ◌==◌, if◌then◌else◌, Result, ok, err,
}
use smtp_relay.Util.Strings.{
  trim, to_ascii_lowercase, starts_with, split_once, take, contains, is_some,
}
use smtp_relay.Util.Utf8.{as_bytes, from_utf8_lossy}

pub data MessageError : Type 0 where
  no_header_separator : MessageError

pub record Header : Type 0 where
  pub name : Text
  pub lower : Text
  pub raw_value : List ℕ

pub record Message : Type 0 where
  pub headers : List Header
  pub body : List ℕ
  pub was_lf_only : Bool

-- `Header::from_parts` and `Header::new`.
unfoldable pub from_parts : Text → List ℕ → Header
unfolding to_ascii_lowercase
from_parts name value = record { name = name; lower = to_ascii_lowercase name; raw_value = value }

unfoldable pub new : Text → Text → Header
unfolding from_parts as_bytes
new name value = from_parts name (b' ' ∷ as_bytes value)

-- A fold blank: `pending` is `pending_space`, `started` is false as long as `out` is empty.
abbrev is_fold : ℕ → Bool
is_fold c = c == 13 || c == 10 || c == b' ' || c == 9

unfoldable pub unfold_from : Bool → Bool → Text → Text
unfold_from pending started [] = []
unfold_from pending started (c ∷ s) =
    let later = unfold_from true started s in
    let rest = unfold_from false true s in
    if is_fold c then later else if pending && started then b' ' ∷ c ∷ rest else c ∷ rest

unfoldable pub unfold_value : List ℕ → Text
unfolding from_utf8_lossy unfold_from
unfold_value raw = unfold_from false false (from_utf8_lossy raw)

abbrev pub crlf : List ℕ
crlf = 13 ∷ 10 ∷ []

abbrev one_more : Option ℕ → Option ℕ
one_more none = none
one_more (some n) = some (suc n)

abbrev drop : ℕ → List ℕ → List ℕ
drop zero bs = bs
drop (suc n) [] = []
drop (suc n) (b ∷ bs) = drop n bs

-- `find`, for a needle that is not empty.
unfoldable pub find : List ℕ → List ℕ → Option ℕ
unfolding starts_with
find [] needle = none
find (b ∷ bs) needle =
    let later = find bs needle in if starts_with (b ∷ bs) needle then some 0 else one_more later

unfoldable pub split_header_block : List ℕ → List ℕ × List ℕ × Bool
unfolding find
split_header_block raw = elim (find raw (13 ∷ 10 ∷ 13 ∷ 10 ∷ [])) [
  | some index ↦ (take (index + 2) raw, drop (index + 4) raw, false)
  | none ↦ elim (find raw (10 ∷ 10 ∷ [])) [
    | some index ↦ (take (index + 1) raw, drop (index + 2) raw, true)
    | none ↦ (raw, [], not (is_some (find raw crlf)) && contains raw 10)
  ]
]

-- The line that ends at a line feed, without a carriage return before it.
unfoldable pub without_cr : List ℕ → List ℕ
without_cr [] = []
without_cr (b ∷ []) = if b == 13 then [] else b ∷ []
without_cr (b ∷ c ∷ bs) = b ∷ without_cr (c ∷ bs)

-- `line` is what stands between `start` and `index`.
unfoldable pub lines_from : List ℕ → List ℕ → List (List ℕ)
unfolding without_cr
lines_from line [] = if is_empty line then [] else line ∷ []
lines_from line (b ∷ bs) =
    let ended = lines_from [] bs in
    let longer = lines_from (line ++ (b ∷ [])) bs in
    if b == 10 then without_cr line ∷ ended else longer

abbrev pub split_lines : List ℕ → List (List ℕ)
split_lines block = lines_from [] block

abbrev pub is_continuation : List ℕ → Bool
is_continuation [] = false
is_continuation (b ∷ bs) = b == b' ' || b == 9

abbrev pub Field : Type 0
Field = Text × List ℕ

abbrev pub extended : Option Field → List ℕ → Option Field
extended none line = none
extended (some (name, value)) line = some (name, value ++ crlf ++ line)

-- The field that a line begins.
abbrev pub begun_by : Option (Text × Text) → Option Field
begun_by none = none
begun_by (some (before, value)) =
    if is_empty before then none else some (trim (from_utf8_lossy before), value)

abbrev pub pushed : Option Field → List Header
pushed none = []
pushed (some (name, value)) = from_parts name value ∷ []

unfoldable pub parse_lines : Option Field → List (List ℕ) → List Header
unfolding from_parts trim from_utf8_lossy split_once
parse_lines current [] = pushed current
parse_lines current (line ∷ lines) =
    let same = parse_lines current lines in
    let longer = parse_lines (extended current line) lines in
    let next = parse_lines (begun_by (split_once b':' line)) lines in
    if is_empty line then same else if is_continuation line then longer else pushed current ++ next

unfoldable pub parse_header_block : List ℕ → List Header
unfolding parse_lines lines_from
parse_header_block block = parse_lines none (split_lines block)

unfoldable pub parse : List ℕ → Result Message MessageError
unfolding split_header_block parse_header_block
parse raw =
    if is_empty raw
    then err no_header_separator
    else (let (block, body, lf_only) = split_header_block raw in
        ok (record { headers = parse_header_block block; body = body; was_lf_only = lf_only }))

-- `previous` is the byte before.
unfoldable pub normalize_from : ℕ → List ℕ → List ℕ
normalize_from previous [] = []
normalize_from previous (b ∷ bs) =
    let rest = normalize_from b bs in
    if b == 10 && not (previous == 13) then 13 ∷ b ∷ rest else b ∷ rest

unfoldable pub normalize_crlf : List ℕ → List ℕ
unfolding normalize_from
normalize_crlf input = normalize_from 0 input

-- What `to_bytes` does to values and to the body.
abbrev pub written : Bool → List ℕ → List ℕ
written lf_only bs = if lf_only then normalize_crlf bs else bs

unfoldable pub header_bytes : Bool → List Header → List ℕ
unfolding as_bytes normalize_crlf
header_bytes lf_only [] = []
header_bytes lf_only (h ∷ hs) =
    as_bytes h.name ++ (b':' ∷ written lf_only h.raw_value ++ crlf ++ header_bytes lf_only hs)

unfoldable pub to_bytes : Message → List ℕ
unfolding header_bytes
to_bytes m = header_bytes m.was_lf_only m.headers ++ crlf ++ written m.was_lf_only m.body

-- `peek`: `current` is the value of the field that was asked for.
abbrev peeked_by : Text → Option (Text × Text) → Option (List ℕ)
peeked_by needle none = none
peeked_by needle (some (field, value)) =
    if text_eq (to_ascii_lowercase (trim (from_utf8_lossy field))) needle then some value else none

abbrev peek_more : Option (List ℕ) → List ℕ → Option (List ℕ)
peek_more none line = none
peek_more (some value) line = some (value ++ crlf ++ line)

unfoldable pub peek_lines : Text → Option (List ℕ) → List (List ℕ) → Option (List ℕ)
unfolding to_ascii_lowercase trim from_utf8_lossy split_once
peek_lines needle current [] = current
peek_lines needle current (line ∷ lines) =
    let longer = peek_lines needle (peek_more current line) lines in
    let next = peek_lines needle (peeked_by needle (split_once b':' line)) lines in
    if is_empty line
    then current
    else if is_continuation line
    then longer
    else elim current [ some value ↦ some value | none ↦ next ]

abbrev pub unfolded : Option (List ℕ) → Option Text
unfolded none = none
unfolded (some value) = some (unfold_value value)

unfoldable pub peek : List ℕ → Text → Option Text
unfolding peek_lines split_header_block lines_from unfold_value
peek raw name =
    unfolded (peek_lines (to_ascii_lowercase name) none (split_lines (split_header_block raw).0))
