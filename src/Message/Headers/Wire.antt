-- ===== src/Message/Headers/Wire.antt =====
-- A message that is printed and parsed again.
use mathlib.Core.List.{append_assoc, append-nil}
use smtp_relay.Prelude.{
  ℕ, ◌≡◌, refl, sym, ap, ◌∙◌, Bool, true, false, not, ◌&&◌, Option, none, some, List, [], ◌∷◌, ◌++◌,
  Text, is_empty, any, leb, ◌==◌, arith, All, All-mono, ok,
}
use smtp_relay.Util.Strings.{to_ascii_lowercase, split_once, is_whitespace}
use smtp_relay.Util.Trimming.{trim-none}
use smtp_relay.Util.Utf8.{IsAscii, as_bytes_ascii, from_utf8_lossy_ascii}
use smtp_relay.Message.Headers.{
  Header, Message, from_parts, crlf, is_continuation, begun_by, pushed, parse_lines, Field,
  parse_header_block, parse, header_bytes, to_bytes,
}
use smtp_relay.Message.Headers.Blocks.{
  lines_bytes, is_line, AreLines, has_lf, split_header_block-lines, lines_from-lines,
}

-- The characters of a field's name: visible ASCII without the colon.
abbrev pub is_ftext : ℕ → Bool
is_ftext c = leb 33 c && leb c 126 && not (c == b':')

-- A value and the lines that are folded onto it.
abbrev pub joined : List ℕ → List (List ℕ) → List ℕ
joined value [] = value
joined value (l ∷ ls) = joined (value ++ crlf ++ l) ls

-- A field as RFC 5322 writes it: its name is not empty, and its value is folded only before a blank.
pub record IsField (h : Header) : Type 0 where
  pub named : is_empty h.name ≡ false
  pub printable : All (λ c. is_ftext c ≡ true) h.name
  pub lowered : h.lower ≡ to_ascii_lowercase h.name
  pub first : List ℕ
  pub folds : List (List ℕ)
  pub unbroken : has_lf first ≡ false
  pub folded : All (λ l. (is_continuation l && not (has_lf l)) ≡ true) folds
  pub raw : h.raw_value ≡ joined first folds

-- The lines of the fields.
abbrev block_lines : (hs : List Header) → All IsField hs → List (List ℕ)
block_lines [] _ = []
block_lines (h ∷ hs) (f, fs) = (h.name ++ (b':' ∷ f.first)) ∷ (f.folds ++ block_lines hs fs)

ftext-IsAscii : (s : Text) → All (λ c. is_ftext c ≡ true) s → IsAscii s
ftext-IsAscii s h = All-mono s (λ c (e : is_ftext c ≡ true). ground arith) h

ftext-solid : (s : Text) → All (λ c. is_ftext c ≡ true) s → any is_whitespace s ≡ false
unfolding is_whitespace
ftext-solid [] h = refl
ftext-solid (c ∷ s) (e, h) = ground (arith, ftext-solid s h)

split_once-name :
    (s t : Text) → All (λ c. is_ftext c ≡ true) s → split_once b':' (s ++ (b':' ∷ t)) ≡ some (s, t)
unfolding split_once
split_once-name [] t h = refl
split_once-name (c ∷ s) t (e, h) = ground (arith, split_once-name s t h)

-- The first line of a field starts it.
begun_by-name :
    (s : Text) (t : List ℕ)
    → is_empty s ≡ false
    → All (λ c. is_ftext c ≡ true) s
    → begun_by (split_once b':' (s ++ (b':' ∷ t))) ≡ some (s, t)
begun_by-name s t e h =
    rw
      (
        split_once-name s t h,
        e,
        from_utf8_lossy_ascii s (ftext-IsAscii s h),
        trim-none s (ftext-solid s h),
      )
      refl

first-is_line :
    (s : Text) (t : List ℕ)
    → is_empty s ≡ false
    → All (λ c. is_ftext c ≡ true) s
    → has_lf t ≡ false
    → (is_line (s ++ (b':' ∷ t)) ≡ true)
      × (is_continuation (s ++ (b':' ∷ t)) ≡ false)
      × (is_empty (s ++ (b':' ∷ t)) ≡ false)
first-is_line [] t e h n = absurd (ground arith)
first-is_line (c ∷ s) t e (k, h) n = (ground (arith, name-has_lf s t h n), ground arith, refl)
  where
    name-has_lf :
        (s t : List ℕ)
        → All (λ c. is_ftext c ≡ true) s
        → has_lf t ≡ false
        → has_lf (s ++ (b':' ∷ t)) ≡ false
    name-has_lf [] t h n = n
    name-has_lf (c ∷ s) t (k, h) n = ground (arith, name-has_lf s t h n)

-- Continuation lines are taken into the field that stands open.
parse_lines-folds :
    (name : Text) (value : List ℕ) (folds rest : List (List ℕ))
    → All (λ l. (is_continuation l && not (has_lf l)) ≡ true) folds
    → parse_lines (some (name, value)) (folds ++ rest)
      ≡ parse_lines (some (name, joined value folds)) rest
unfolding parse_lines
parse_lines-folds name value [] rest h = refl
parse_lines-folds name value ([] ∷ folds) rest (k, h) = absurd (ground arith)
parse_lines-folds name value ((c ∷ l) ∷ folds) rest (k, h) =
    let e : is_continuation (c ∷ l) ≡ true = ground arith in
    rw e (parse_lines-folds name (value ++ crlf ++ (c ∷ l)) folds rest h)

from_parts-eq :
    (h : Header) → h.lower ≡ to_ascii_lowercase h.name → from_parts h.name h.raw_value ≡ h
unfolding from_parts
from_parts-eq h e = rw (sym e) refl

-- The fields' lines give the fields.
parse_lines-block :
    (current : Option Field) (hs : List Header) (fs : All IsField hs)
    → parse_lines current (block_lines hs fs) ≡ pushed current ++ hs
unfolding parse_lines
parse_lines-block current [] _ = sym (append-nil (pushed current))
parse_lines-block current (h ∷ hs) (f, fs) =
    let (_, c, e) = first-is_line h.name f.first f.named f.printable f.unbroken in
    rw
      (
        e,
        c,
        begun_by-name h.name f.first f.named f.printable,
        parse_lines-folds h.name f.first f.folds (block_lines hs fs) f.folded,
        sym f.raw,
        parse_lines-block (some (h.name, h.raw_value)) hs fs,
        from_parts-eq h f.lowered,
      )
      refl

lines_bytes-append :
    (ls ms : List (List ℕ)) (t : List ℕ)
    → lines_bytes (ls ++ ms) t ≡ lines_bytes ls (lines_bytes ms t)
lines_bytes-append [] ms t = refl
lines_bytes-append (l ∷ ls) ms t = ap (λ x. l ++ (13 ∷ 10 ∷ x)) (lines_bytes-append ls ms t)

-- A folded value is its lines.
joined-lines :
    (value : List ℕ) (folds : List (List ℕ)) (t : List ℕ)
    → joined value folds ++ (13 ∷ 10 ∷ t) ≡ value ++ (13 ∷ 10 ∷ lines_bytes folds t)
joined-lines value [] t = refl
joined-lines value (l ∷ ls) t =
    joined-lines (value ++ crlf ++ l) ls t
    ∙ append_assoc (value ++ crlf) l (13 ∷ 10 ∷ lines_bytes ls t)
    ∙ append_assoc value crlf (l ++ (13 ∷ 10 ∷ lines_bytes ls t))

header_bytes-lines :
    (hs : List Header) (fs : All IsField hs) (t : List ℕ)
    → header_bytes false hs ++ t ≡ lines_bytes (block_lines hs fs) t
unfolding header_bytes
header_bytes-lines [] _ t = refl
header_bytes-lines (h ∷ hs) (f, fs) t =
    let rest = header_bytes false hs in
    rw
      (
        as_bytes_ascii h.name (ftext-IsAscii h.name f.printable),
        f.raw,
        append_assoc h.name (b':' ∷ (joined f.first f.folds ++ crlf ++ rest)) t,
        append_assoc (joined f.first f.folds ++ crlf) rest t,
        header_bytes-lines hs fs t,
        append_assoc (joined f.first f.folds) crlf (lines_bytes (block_lines hs fs) t),
        joined-lines f.first f.folds (lines_bytes (block_lines hs fs) t),
        sym (lines_bytes-append f.folds (block_lines hs fs) t),
        append_assoc h.name (b':' ∷ f.first)
            (13 ∷ 10 ∷ lines_bytes (f.folds ++ block_lines hs fs) t),
      )
      refl

folds-AreLines :
    (ls ms : List (List ℕ))
    → All (λ l. (is_continuation l && not (has_lf l)) ≡ true) ls
    → AreLines ms
    → AreLines (ls ++ ms)
folds-AreLines [] ms h g = g
folds-AreLines ([] ∷ ls) ms (k, h) g = absurd (ground arith)
folds-AreLines ((c ∷ l) ∷ ls) ms (k, h) g = (ground arith, folds-AreLines ls ms h g)

block_lines-AreLines : (hs : List Header) (fs : All IsField hs) → AreLines (block_lines hs fs)
block_lines-AreLines [] _ = tt
block_lines-AreLines (h ∷ hs) (f, fs) = (
  (first-is_line h.name f.first f.named f.printable f.unbroken).0,
  folds-AreLines f.folds (block_lines hs fs) f.folded (block_lines-AreLines hs fs),
)

occupied-append : (s t : List ℕ) → is_empty s ≡ false → is_empty (s ++ t) ≡ false
occupied-append [] t e = absurd (ground arith)
occupied-append (c ∷ s) t e = refl

-- A message with at least one field, all of whose fields are written as RFC 5322 writes them, folded
-- or not, is parsed from its bytes as it was: every name, every value with its folding, and every
-- byte of the body, whatever stands there.
pub parse-to_bytes :
    (h : Header) (hs : List Header) (body : List ℕ)
    → All IsField (h ∷ hs)
    → parse (to_bytes (record { headers = h ∷ hs; body = body; was_lf_only = false }))
      ≡ ok (record { headers = h ∷ hs; body = body; was_lf_only = false })
unfolding parse to_bytes parse_header_block
parse-to_bytes h hs body fs =
    let m : Message = record { headers = h ∷ hs; body = body; was_lf_only = false } in
    let ls = block_lines (h ∷ hs) fs in
    let wire : to_bytes m ≡ lines_bytes ls (crlf ++ body) =
      append_assoc (header_bytes false (h ∷ hs)) crlf body
      ∙ header_bytes-lines (h ∷ hs) fs (crlf ++ body) in
    let good = block_lines-AreLines (h ∷ hs) fs in
    let cut =
      split_header_block-lines (h.name ++ (b':' ∷ fs.0.first)) (fs.0.folds ++ block_lines hs fs.1)
        body good in
    ap parse wire
    ∙ rw
        (
          cut,
          lines_from-lines ls good,
          parse_lines-block none (h ∷ hs) fs,
          occupied-append (h.name ++ (b':' ∷ fs.0.first))
              (13 ∷ 10 ∷ lines_bytes (fs.0.folds ++ block_lines hs fs.1) (13 ∷ 10 ∷ body))
              (first-is_line h.name fs.0.first fs.0.named fs.0.printable fs.0.unbroken).2,
        )
        refl
