-- ===== src/Smtp/Body/Returns.antt =====
-- `read_body` ends on every stream.
use smtp_relay.Prelude.{
  ℕ, zero, suc, ◌+◌, ◌≡◌, ◌≤◌, ◌<◌, refl, ap, ◌∙◌, Bool, true, false, Option, none, some, List, [],
  ◌∷◌, inl, inr, arith, Bool-cases, Option-cases, length, ltb, text_eq, u64_mod,
}
use smtp_relay.Util.Strings.{split_once, is_some}
use smtp_relay.Smtp.Lines.{LineReader, ReadLine, line, too_long, eof, read, read_line, sized}
use smtp_relay.Smtp.Lines.Splitting.{strip_cr}
use smtp_relay.Smtp.Lines.Streams.{IsReady, stream, next_line, line_of}
use smtp_relay.Smtp.Lines.Reading.{read_line-next_line}
use smtp_relay.Smtp.Body.{
  accumulate, after_read, read_lines, read_body, line_limit, max_command_line,
}

split_once-length :
    (s l rest : List ℕ) → split_once b'\n' s ≡ some (l, rest) → length rest < length s
unfolding split_once
split_once-length [] l rest e = absurd (ground arith)
split_once-length (c ∷ s) l rest e = elim (Option-cases (split_once b'\n' s)) [
  | inl n ↦ ground arith
  | inr ((l', rest'), n) ↦ ground (arith, split_once-length s l' rest' n)
]

-- A line that is not the end of the stream takes something from it.
Shortens : List ℕ → ReadLine × List ℕ → Type 0
Shortens s (eof, rest) = Unit
Shortens s (line l, rest) = length rest < length s
Shortens s (too_long, rest) = length rest < length s

sized-Shortens :
    (max_len : ℕ) (s l rest : List ℕ) → length rest < length s → Shortens s (sized max_len l, rest)
unfolding Shortens
sized-Shortens max_len s l rest h = elim (Bool-cases (ltb max_len (length l))) [
  | inl e ↦ rw e h
  | inr e ↦ rw e h
]

line_of-Shortens :
    (max_len : ℕ) (s : List ℕ) (o : Option (List ℕ × List ℕ))
    → split_once b'\n' s ≡ o
    → Shortens s (line_of max_len s o)
unfolding Shortens
line_of-Shortens max_len [] none e = tt
line_of-Shortens max_len (c ∷ s) none e = sized-Shortens max_len (c ∷ s) (c ∷ s) [] (omega arith)
line_of-Shortens max_len s (some (l, rest)) e =
    sized-Shortens max_len s (strip_cr l) rest (split_once-length s l rest e)

-- What is left to read after a read that does not end the payload.
after_read-returns :
    (fuel limit : ℕ) (raw : List ℕ) (over_size : Bool) (s : List ℕ) (r : LineReader)
    (next : ReadLine × List ℕ)
    → ((raw' : List ℕ) (over' : Bool)
        → length (stream r) < fuel
        → is_some (read_lines fuel limit raw' over' r).1 ≡ true)
    → Shortens s next
    → stream r ≡ next.1
    → length s ≤ fuel
    → is_some (after_read limit (read_lines fuel limit) raw over_size (r, read next.0)).1 ≡ true
unfolding after_read Shortens
after_read-returns fuel limit raw over_size s r (eof, rest) go h e w = refl
after_read-returns fuel limit raw over_size s r (too_long, rest) go h e w =
    go raw true (let l = ap length e in omega arith)
after_read-returns fuel limit raw over_size s r (line l, rest) go h e w =
    let later =
      go (accumulate limit raw over_size l).0 (accumulate limit raw over_size l).1
        (let k = ap length e in omega arith) in
    elim (Bool-cases (text_eq l (b'.' ∷ []))) [ inl f ↦ rw f refl | inr f ↦ rw f later ]

read_lines-returns :
    (fuel limit : ℕ) (raw : List ℕ) (over_size : Bool) (r : LineReader)
    → IsReady r
    → line_limit limit + 2 < u64_mod
    → length (stream r) < fuel
    → is_some (read_lines fuel limit raw over_size r).1 ≡ true
unfolding read_lines
read_lines-returns zero limit raw over_size r v w h = absurd (omega arith)
read_lines-returns (suc fuel) limit raw over_size r v w h =
    let k = read_line-next_line (line_limit limit) r v w in
    let r' = (read_line (line_limit limit) r).0 in
    ap (λ o. is_some (after_read limit (read_lines fuel limit) raw over_size (r', o)).1) k.outcome
    ∙ after_read-returns fuel limit raw over_size (stream r) r'
        (next_line (line_limit limit) (stream r))
        (λ raw' over' l. read_lines-returns fuel limit raw' over' r' k.ready w l)
        (line_of-Shortens (line_limit limit) (stream r) (split_once b'\n' (stream r)) refl)
        k.remains (omega arith)

-- Whatever the stream of a ready reader is, `read_body` returns a result as soon as its fuel is more
-- than the number of bytes of the stream: no payload keeps the loop going for ever. The size limit
-- leaves room for a command line in a machine word.
pub read_body-returns :
    (fuel limit : ℕ) (r : LineReader)
    → IsReady r
    → limit + max_command_line + 2 < u64_mod
    → length (stream r) < fuel
    → is_some (read_body fuel limit r).1 ≡ true
unfolding read_body
read_body-returns fuel limit r v w h = read_lines-returns fuel limit [] false r v (omega arith) h
