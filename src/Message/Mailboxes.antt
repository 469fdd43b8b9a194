-- ===== src/Message/Mailboxes.antt =====
-- src/message/headers.rs: the parser of mailboxes. The scanners go through characters; where the
-- source scans bytes, those of longer characters are none that it looks for. A position counts
-- characters.
pub mod Scanning
pub mod Quoted
use mathlib.Core.List.{reverse}
use smtp_relay.Prelude.{
  ℕ, zero, suc, ◌+◌, ◌-◌, Bool, true, false, not, ◌&&◌, ◌||◌, Option, none, some, List, [], ◌∷◌,
  ◌++◌, Text, is_empty, length, ltb, leb, ◌==◌, if◌then◌else◌,
}
use smtp_relay.Util.Strings.{
  trim, starts_with, ends_with, split_once, contains, take, address_domain,
}
use smtp_relay.Smtp.Command.{skip, split_whitespace}

pub record Mailbox : Type 0 where
  pub display_name : Text
  pub address : Text

-- `Mailbox::domain`.
unfoldable pub mailbox_domain : Mailbox → Text
unfolding address_domain
mailbox_domain m = address_domain m.address

-- The state of the loop of `find_angle_addr`.
pub record Angles : Type 0 where
  pub in_quotes : Bool
  pub escaped : Bool
  pub opening : Option ℕ
  pub closing : Option ℕ

abbrev pub closed_at : ℕ → Option ℕ → Option ℕ → Option ℕ
closed_at index none closing = closing
closed_at index (some start) closing = if ltb start index then some index else closing

abbrev pub angle_step : ℕ → ℕ → Angles → Angles
angle_step index c s =
    if s.escaped
    then record s { escaped = false }
    else if c == b'\\' && s.in_quotes
    then record s { escaped = true }
    else if c == b'"'
    then record s { in_quotes = not s.in_quotes }
    else if c == b'<' && not s.in_quotes
    then record s { opening = some index }
    else if c == b'>' && not s.in_quotes
    then record s { closing = closed_at index s.opening s.closing }
    else s

unfoldable pub angles_from : ℕ → Text → Angles → Angles
angles_from index [] s = s
angles_from index (c ∷ text) s = angles_from (suc index) text (angle_step index c s)

abbrev pub pair_of : Option ℕ → Option ℕ → Option (ℕ × ℕ)
pair_of (some o) (some c) = if ltb o c then some (o, c) else none
pair_of _ _ = none

unfoldable pub find_angle_addr : Text → Option (ℕ × ℕ)
unfolding angles_from
find_angle_addr text =
    let s =
      angles_from 0 text
        (record { in_quotes = false; escaped = false; opening = none; closing = none }) in
    pair_of s.opening s.closing

abbrev pub after_colon : Text → Option (Text × Text) → Text
after_colon trimmed none = trimmed
after_colon trimmed (some (_, rest)) = trim rest

unfoldable pub strip_source_route : Text → Text
unfolding trim starts_with split_once
strip_source_route address =
    let trimmed = trim address in
    if starts_with trimmed (b'@' ∷ [])
    then after_colon trimmed (split_once b':' trimmed)
    else trimmed

-- The state of the loop of `strip_comments`.
pub record Comments : Type 0 where
  pub depth : ℕ
  pub in_quotes : Bool
  pub escaped : Bool

-- Whether the character is kept, and the next state.
abbrev pub comment_step : ℕ → Comments → Bool × Comments
comment_step c s =
    let outside = s.depth == 0 in
    if s.escaped
    then (outside, record s { escaped = false })
    else if c == b'\\'
    then (outside, record s { escaped = true })
    else if c == b'"'
    then (true, record s { in_quotes = not s.in_quotes })
    else if c == b'(' && not s.in_quotes
    then (false, record s { depth = suc s.depth })
    else if c == b')' && not s.in_quotes && ltb 0 s.depth
    then (false, record s { depth = s.depth - 1 })
    else (outside, s)

unfoldable pub comments_from : Comments → Text → Text
comments_from s [] = []
comments_from s (c ∷ text) =
    let (kept, s') = comment_step c s in
    let rest = comments_from s' text in if kept then c ∷ rest else rest

unfoldable pub strip_comments : Text → Text
unfolding comments_from
strip_comments text = comments_from (record { depth = 0; in_quotes = false; escaped = false }) text

-- `str::find` and `str::rfind` of one character.
abbrev pub next_index : Option ℕ → Option ℕ
next_index none = none
next_index (some i) = some (suc i)

abbrev pub index_of : ℕ → Text → Option ℕ
index_of c [] = none
index_of c (d ∷ text) = let rest = next_index (index_of c text) in if d == c then some 0 else rest

abbrev pub from_end : ℕ → Option ℕ → Option ℕ
from_end n none = none
from_end n (some i) = some (n - 1 - i)

abbrev pub last_index_of : ℕ → Text → Option ℕ
last_index_of c text = from_end (length text) (index_of c (reverse text))

-- `text[start..end]`.
abbrev pub slice : ℕ → ℕ → Text → Text
slice start end text = take (end - start) (skip start text)

abbrev pub non_empty : Text → Option Text
non_empty text = if is_empty text then none else some text

abbrev pub comment_between : Text → Option ℕ → Option ℕ → Option Text
comment_between text (some start) (some end) =
    if leb end (start + 1) then none else non_empty (trim (slice (start + 1) end text))
comment_between text _ _ = none

unfoldable pub extract_comment : Text → Option Text
unfolding trim
extract_comment text = comment_between text (index_of b'(' text) (last_index_of b')' text)

abbrev pub unescaped : Bool → Text → Text
unescaped escaped [] = []
unescaped escaped (c ∷ text) =
    let escapes = not escaped && c == b'\\' in
    let rest = unescaped escapes text in if escapes then rest else c ∷ rest

unfoldable pub unquote : Text → Text
unfolding trim starts_with ends_with
unquote text =
    let trimmed = trim text in
    if leb 2 (length trimmed) && starts_with trimmed (b'"' ∷ []) && ends_with trimmed (b'"' ∷ [])
    then trim (unescaped false (slice 1 (length trimmed - 1) trimmed))
    else trimmed

abbrev pub or_blank : Option Text → Text
or_blank none = []
or_blank (some text) = text

-- The first word with an `@`, or all of it.
abbrev pub token_of : Text → List Text → Text
token_of bare [] = bare
token_of bare (t ∷ ts) = let rest = token_of bare ts in if contains t b'@' then t else rest

abbrev pub bracketed : Text → ℕ → ℕ → Option Mailbox
bracketed text start end =
    let address = strip_source_route (trim (slice (start + 1) end text)) in
    let display = strip_comments (take start text) in
    if is_empty address
    then none
    else some (record { display_name = unquote (trim display); address = address })

abbrev pub bare_mailbox : Text → Option Mailbox
bare_mailbox text =
    let comment = extract_comment text in
    let bare = trim (strip_comments text) in
    let token = token_of bare (split_whitespace bare) in
    if not (contains token b'@')
    then none
    else some (record { display_name = or_blank comment; address = strip_source_route token })

abbrev pub by_angles : Text → Option (ℕ × ℕ) → Option Mailbox
by_angles text (some (start, end)) = bracketed text start end
by_angles text none = bare_mailbox text

unfoldable pub parse_single_mailbox : Text → Option Mailbox
unfolding trim find_angle_addr strip_source_route strip_comments unquote extract_comment
    split_whitespace
parse_single_mailbox entry =
    let text = trim entry in if is_empty text then none else by_angles text (find_angle_addr text)

abbrev pub entry_of : Text → List Text
entry_of current = let text = trim current in if is_empty text then [] else text ∷ []

-- The state of the loop of `split_address_list`.
pub record Splitter : Type 0 where
  pub current : Text
  pub in_quotes : Bool
  pub escaped : Bool
  pub angle_depth : ℕ
  pub comment_depth : ℕ

abbrev pub pushed : ℕ → Splitter → Splitter
pushed c s = record s { current = s.current ++ (c ∷ []) }

abbrev pub is_separator : ℕ → Splitter → Bool
is_separator c s =
    not s.escaped && c == b',' && not s.in_quotes && s.angle_depth == 0 && s.comment_depth == 0

abbrev pub split_step : ℕ → Splitter → Splitter
split_step c s =
    let t = pushed c s in
    if s.escaped
    then record t { escaped = false }
    else if c == b'\\'
    then record t { escaped = true }
    else if c == b'"'
    then record t { in_quotes = not s.in_quotes }
    else if c == b'<' && not s.in_quotes
    then record t { angle_depth = suc s.angle_depth }
    else if c == b'>' && not s.in_quotes
    then record t { angle_depth = s.angle_depth - 1 }
    else if c == b'(' && not s.in_quotes
    then record t { comment_depth = suc s.comment_depth }
    else if c == b')' && not s.in_quotes
    then record t { comment_depth = s.comment_depth - 1 }
    else t

unfoldable pub split_from : Splitter → Text → List Text
unfolding trim
split_from s [] = entry_of s.current
split_from s (c ∷ text) =
    let separates = is_separator c s in
    let next = if separates then record s { current = [] } else split_step c s in
    let rest = split_from next text in if separates then entry_of s.current ++ rest else rest

unfoldable pub split_address_list : Text → List Text
unfolding split_from
split_address_list value =
    split_from
      (record {
        current = [];
        in_quotes = false;
        escaped = false;
        angle_depth = 0;
        comment_depth = 0;
      })
      value

abbrev pub first_mailbox : Text → List Text → Option Mailbox
first_mailbox trimmed [] = none
first_mailbox trimmed (first ∷ _) =
    if contains first b'@' then parse_single_mailbox first else parse_single_mailbox trimmed

unfoldable pub parse_mailbox : Text → Option Mailbox
unfolding trim split_address_list parse_single_mailbox
parse_mailbox value = let trimmed = trim value in first_mailbox trimmed (split_address_list trimmed)

abbrev pub mailboxes_of : List Text → List Mailbox
mailboxes_of [] = []
mailboxes_of (e ∷ es) = elim (parse_single_mailbox e) [
  | none ↦ mailboxes_of es
  | some m ↦ m ∷ mailboxes_of es
]

unfoldable pub parse_mailbox_list : Text → List Mailbox
unfolding split_address_list parse_single_mailbox
parse_mailbox_list value = mailboxes_of (split_address_list value)
