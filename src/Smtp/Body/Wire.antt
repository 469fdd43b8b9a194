-- ===== src/Smtp/Body/Wire.antt =====
-- What `read_body` makes of a payload that a client has put on the wire: dots stuffed, lines ended
-- by CRLF, and a line of one dot behind them.
use mathlib.Core.List.{append-nil, append_assoc}
use smtp_relay.Prelude.{
  ℕ, zero, suc, ◌+◌, ◌≡◌, ◌≤◌, ◌<◌, refl, sym, ap, ◌∙◌, Bool, true, false, Option, some, List, [],
  ◌∷◌, ◌++◌, inl, inr, arith, Bool-cases, length, length-append, ltb, ◌==◌, if◌then◌else◌, All,
  text_eq, u64_mod,
}
use smtp_relay.Util.Strings.{split_once}
use smtp_relay.Smtp.Lines.{LineReader, Outcome, read, sized}
use smtp_relay.Smtp.Lines.Splitting.{strip_cr}
use smtp_relay.Smtp.Lines.Streams.{IsReady, stream, next_line}
use smtp_relay.Smtp.Lines.Reading.{read_line-next_line}
use smtp_relay.Smtp.Body.{
  BodyResult, complete, too_large, Received, finished, unstuffed, accumulate, after_read,
  read_lines, read_body, line_limit, max_command_line,
}

abbrev pub crlf : List ℕ
crlf = b'\r' ∷ b'\n' ∷ []

-- A client puts a dot before a leading dot.
unfoldable pub stuffed : List ℕ → List ℕ
stuffed [] = []
stuffed (c ∷ l) = if c == b'.' then b'.' ∷ c ∷ l else c ∷ l

abbrev pub wire : List (List ℕ) → List ℕ
wire [] = b'.' ∷ crlf
wire (l ∷ ls) = stuffed l ++ (crlf ++ wire ls)

-- The payload of which the lines are sent.
abbrev pub payload : List (List ℕ) → List ℕ
payload [] = []
payload (l ∷ ls) = l ++ (crlf ++ payload ls)

-- A line holds no line feed.
abbrev pub IsLine : List ℕ → Type 0
IsLine l = All (λ c. (c == b'\n') ≡ false) l

split_once-IsLine : (l t : List ℕ) → IsLine l → split_once b'\n' (l ++ (b'\n' ∷ t)) ≡ some (l, t)
unfolding split_once
split_once-IsLine [] t h = ground arith
split_once-IsLine (c ∷ l) t h = ground (arith, split_once-IsLine l t h.1)

strip_cr-snoc : (l : List ℕ) → strip_cr (l ++ (b'\r' ∷ [])) ≡ l
unfolding strip_cr
strip_cr-snoc [] = refl
strip_cr-snoc (c ∷ []) = refl
strip_cr-snoc (c ∷ d ∷ l) = ap (λ x. c ∷ x) (strip_cr-snoc (d ∷ l))

IsLine-snoc : (l : List ℕ) → IsLine l → IsLine (l ++ (b'\r' ∷ []))
IsLine-snoc [] h = (refl, tt)
IsLine-snoc (c ∷ l) h = (h.0, IsLine-snoc l h.1)

pub next_line-crlf :
    (max_len : ℕ) (l t : List ℕ)
    → IsLine l
    → next_line max_len (l ++ (crlf ++ t)) ≡ (sized max_len l, t)
next_line-crlf max_len l t h =
    let e = split_once-IsLine (l ++ (b'\r' ∷ [])) t (IsLine-snoc l h) in
    let e' = rw (append_assoc l (b'\r' ∷ []) (b'\n' ∷ t)) at e in
    rw (e', next_line, strip_cr-snoc l) refl

unstuffed-stuffed : (l : List ℕ) → unstuffed (stuffed l) ≡ l
unfolding unstuffed stuffed
unstuffed-stuffed [] = refl
unstuffed-stuffed (c ∷ l) = ground arith

stuffed-IsLine : (l : List ℕ) → IsLine l → IsLine (stuffed l)
unfolding stuffed
stuffed-IsLine [] h = tt
stuffed-IsLine (c ∷ l) h = elim (Bool-cases (c == b'.')) [ inl e ↦ rw e (refl, h) | inr e ↦ rw e h ]

length-stuffed : (l : List ℕ) → length (stuffed l) ≤ suc (length l)
unfolding stuffed
length-stuffed [] = omega arith
length-stuffed (c ∷ l) = ground arith

-- A stuffed line is never the line that ends the payload.
stuffed-text_eq : (l : List ℕ) → text_eq (stuffed l) (b'.' ∷ []) ≡ false
unfolding stuffed text_eq
stuffed-text_eq [] = refl
stuffed-text_eq (c ∷ []) = ground arith
stuffed-text_eq (c ∷ d ∷ l) = ground arith

-- The result of the loop on lines still to come, behind `raw` and `over_size`.
abbrev pub verdict : ℕ → List ℕ → Bool → List (List ℕ) → BodyResult
verdict limit raw true ls = too_large limit
verdict limit raw false [] = complete raw
verdict limit raw false (l ∷ ls) =
    if ltb limit (length raw + length l + 2)
    then too_large limit
    else verdict limit (raw ++ l ++ crlf) false ls

pub record Receives (v : BodyResult) (rest : List ℕ) (res : LineReader × Option Received)
    : Type 0 where
  pub ready : IsReady res.0
  pub outcome : res.1 ≡ some (finished v)
  pub remains : stream res.0 ≡ rest

verdict-accumulate :
    (limit : ℕ) (raw : List ℕ) (over_size : Bool) (l : List ℕ) (ls : List (List ℕ))
    → verdict limit
        (accumulate limit raw over_size (stuffed l)).0
        (accumulate limit raw over_size (stuffed l)).1
        ls
      ≡ verdict limit raw over_size (l ∷ ls)
unfolding accumulate
verdict-accumulate limit raw true l ls = refl
verdict-accumulate limit raw false l ls =
    rw (unstuffed-stuffed l) (elim (Bool-cases (ltb limit (length raw + length l + 2))) [
      | inl e ↦ rw e refl
      | inr e ↦ rw e refl
    ])

verdict-too_long :
    (limit : ℕ) (raw : List ℕ) (over_size : Bool) (l : List ℕ) (ls : List (List ℕ))
    → limit < suc (length l)
    → verdict limit raw over_size (l ∷ ls) ≡ too_large limit
verdict-too_long limit raw true l ls h = refl
verdict-too_long limit raw false l ls h = ground arith

-- One line of the loop, when the rest of the loop does what it should on the rest of the lines.
after_read-Receives :
    (limit : ℕ) (go : List ℕ → Bool → LineReader → LineReader × Option Received) (raw : List ℕ)
    (over_size : Bool) (l : List ℕ) (ls : List (List ℕ)) (rest : List ℕ) (r : LineReader)
    (o : Outcome)
    → limit + max_command_line + 2 < u64_mod
    → o ≡ read (sized (line_limit limit) (stuffed l))
    → ((raw' : List ℕ) (over' : Bool)
        → Receives (verdict limit raw' over' ls) rest (go raw' over' r))
    → Receives
        (verdict limit raw over_size (l ∷ ls))
        rest
        (after_read limit go raw over_size (r, o))
unfolding after_read
after_read-Receives limit go raw over_size l ls rest r o h e f =
    elim (Bool-cases (ltb (line_limit limit) (length (stuffed l)))) [
      | inl b ↦
          let len = length-stuffed l in
          rw (e, b, verdict-too_long limit raw over_size l ls (ground arith)) (f raw true)
      | inr b ↦
          rw (e, b, stuffed-text_eq l, sym (verdict-accumulate limit raw over_size l ls))
            (f (accumulate limit raw over_size (stuffed l)).0
              (accumulate limit raw over_size (stuffed l)).1)
    ]

-- The line that ends the payload.
last-Receives :
    (limit : ℕ) (go : List ℕ → Bool → LineReader → LineReader × Option Received) (raw : List ℕ)
    (over_size : Bool) (rest : List ℕ) (r : LineReader) (o : Outcome)
    → IsReady r
    → o ≡ read (sized (line_limit limit) (b'.' ∷ []))
    → stream r ≡ rest
    → Receives (verdict limit raw over_size []) rest (after_read limit go raw over_size (r, o))
unfolding after_read text_eq
last-Receives limit go raw over_size rest r o v e s =
    let b : ltb (line_limit limit) 1 ≡ false = ground arith in
    rw (e, b)
      (elim (Bool-cases over_size) [
        | inl t ↦ rw t (record { ready = v; outcome = refl; remains = s })
        | inr t ↦ rw t (record { ready = v; outcome = refl; remains = s })
      ])

read_lines-Receives :
    (fuel limit : ℕ) (raw : List ℕ) (over_size : Bool) (ls : List (List ℕ)) (rest : List ℕ)
    (r : LineReader)
    → All IsLine ls
    → length ls < fuel
    → limit + max_command_line + 2 < u64_mod
    → IsReady r
    → stream r ≡ wire ls ++ rest
    → Receives (verdict limit raw over_size ls) rest (read_lines fuel limit raw over_size r)
unfolding read_lines
read_lines-Receives zero limit raw over_size ls rest r all f h v s = absurd (omega arith)
read_lines-Receives (suc fuel) limit raw over_size [] rest r all f h v s =
    let reads = read_line-next_line (line_limit limit) r v (ground arith) in
    let next =
      ap (next_line (line_limit limit)) s
      ∙ next_line-crlf (line_limit limit) (b'.' ∷ []) rest (refl, tt) in
    last-Receives limit (read_lines fuel limit) raw over_size rest _ _ reads.ready
      (reads.outcome ∙ ap (λ n. read n.0) next) (reads.remains ∙ ap (λ n. n.1) next)
read_lines-Receives (suc fuel) limit raw over_size (l ∷ ls) rest r all f h v s =
    let reads = read_line-next_line (line_limit limit) r v (ground arith) in
    let s' = s ∙ append_assoc (stuffed l) (crlf ++ wire ls) rest in
    let next =
      ap (next_line (line_limit limit)) s'
      ∙ next_line-crlf (line_limit limit) (stuffed l) (wire ls ++ rest) (stuffed-IsLine l all.0) in
    after_read-Receives limit (read_lines fuel limit) raw over_size l ls rest _ _ h
      (reads.outcome ∙ ap (λ n. read n.0) next)
      (λ raw' over'.
        read_lines-Receives fuel limit raw' over' ls rest _ all.1 (omega arith) h reads.ready
          (reads.remains ∙ ap (λ n. n.1) next))

-- The verdict without the loop: the payload counts as a whole.
verdict-fits :
    (limit : ℕ) (raw : List ℕ) (ls : List (List ℕ))
    → length raw ≤ limit
    → verdict limit raw false ls ≡ (
        if ltb limit (length (raw ++ payload ls))
        then too_large limit
        else complete (raw ++ payload ls))
verdict-fits limit raw [] h = rw (append-nil raw) (ground arith)
verdict-fits limit raw (l ∷ ls) h =
    let sum = length-append (raw ++ l) crlf in
    let sum' = length-append raw l in
    let ih = verdict-fits limit (raw ++ l ++ crlf) ls in
    let same =
      append_assoc (raw ++ l) crlf (payload ls) ∙ append_assoc raw l (crlf ++ payload ls) in
    let total = length-append (raw ++ l ++ crlf) (payload ls) in
    elim (Bool-cases (ltb limit (length raw + length l + 2))) [
      | inl b ↦
          let over : ltb limit (length (raw ++ payload (l ∷ ls))) ≡ true =
            rw⁻¹ same (ground arith) in
          rw (b, over) refl
      | inr b ↦ rw b (rw⁻¹ same (ih (ground arith)))
    ]

-- Whatever lines a client sends, dots stuffed and ended by the line of one dot, the server
-- receives the payload of those lines byte for byte when it keeps the limit, and `too_large` when
-- it does not. In both cases the reader, which starts out ready, is left ready at the first byte
-- behind the payload, however the network has cut the stream. The fuel is more than the number of
-- lines, the lines hold no line feed, and the limit leaves room for a command line in a machine
-- word.
pub read_body-wire :
    (fuel limit : ℕ) (ls : List (List ℕ)) (rest : List ℕ) (r : LineReader)
    → All IsLine ls
    → length ls < fuel
    → limit + max_command_line + 2 < u64_mod
    → IsReady r
    → stream r ≡ wire ls ++ rest
    → Receives
        (if ltb limit (length (payload ls)) then too_large limit else complete (payload ls))
        rest
        (read_body fuel limit r)
unfolding read_body
read_body-wire fuel limit ls rest r all f h v s =
    rw⁻¹ (verdict-fits limit [] ls (omega arith))
      (read_lines-Receives fuel limit [] false ls rest r all f h v s)
