-- ===== src/Message/Headers/Blocks.antt =====
-- The header block as lines: where a block of lines that end in CRLF stops, and what its lines are.
use mathlib.Core.List.{append_assoc, append-nil}
use smtp_relay.Prelude.{
  ℕ, zero, suc, ◌+◌, ◌≡◌, refl, sym, ap, ◌∙◌, Bool, true, false, not, ◌&&◌, Option, some, List, [],
  ◌∷◌, ◌++◌, length, length-append, any, ◌==◌, if◌then◌else◌, arith, All,
}
use smtp_relay.Util.Strings.{take, starts_with, strip_prefix}
use smtp_relay.Message.Headers.{
  drop, one_more, find, split_header_block, without_cr, lines_from, crlf,
}

-- The lines, each with its CRLF, and what follows them.
abbrev pub lines_bytes : List (List ℕ) → List ℕ → List ℕ
lines_bytes [] t = t
lines_bytes (l ∷ ls) t = l ++ (13 ∷ 10 ∷ lines_bytes ls t)

-- A line of a header block: it is not empty, has no line feed, and does not start with a carriage
-- return.
abbrev pub is_line : List ℕ → Bool
is_line [] = false
is_line (c ∷ l) = not (c == 13) && not (any (λ b. b == 10) (c ∷ l))

abbrev pub AreLines : List (List ℕ) → Type 0
AreLines = All (λ l. is_line l ≡ true)

abbrev pub has_lf : List ℕ → Bool
has_lf l = any (λ b. b == 10) l

abbrev blank : List ℕ
blank = 13 ∷ 10 ∷ 13 ∷ 10 ∷ []

shift : ℕ → Option ℕ → Option ℕ
shift zero o = o
shift (suc n) o = one_more (shift n o)

shift-some : (n k : ℕ) → shift n (some k) ≡ some (n + k)
unfolding shift
shift-some zero k = ground arith
shift-some (suc n) k = ground (arith, shift-some n k)

-- The empty line is not found inside a line.
find-line :
    (l t : List ℕ)
    → has_lf l ≡ false
    → find (l ++ (13 ∷ 10 ∷ t)) blank ≡ (
        if starts_with t crlf
        then some (length l)
        else shift (length l) (one_more (one_more (find t blank))))
unfolding find shift starts_with strip_prefix
find-line [] t e = refl
find-line (c ∷ []) t e = ground (arith, find-line [] t)
find-line (c ∷ d ∷ l) t e = ground (arith, find-line (d ∷ l) t)

is_line-has_lf : (l : List ℕ) → is_line l ≡ true → has_lf l ≡ false
is_line-has_lf [] h = refl
is_line-has_lf (c ∷ l) h = ground arith

starts_with-line : (l : List ℕ) (t : List ℕ) → is_line l ≡ true → starts_with (l ++ t) crlf ≡ false
unfolding starts_with strip_prefix
starts_with-line [] t e = absurd (ground arith)
starts_with-line (c ∷ l) t e = ground arith

lines_bytes-append : (ls : List (List ℕ)) (t : List ℕ) → lines_bytes ls t ≡ lines_bytes ls [] ++ t
lines_bytes-append [] t = refl
lines_bytes-append (l ∷ ls) t =
    ap (λ x. l ++ (13 ∷ 10 ∷ x)) (lines_bytes-append ls t)
    ∙ sym (append_assoc l (13 ∷ 10 ∷ lines_bytes ls []) t)

-- The empty line is found at the end of the last line.
find-lines :
    (l : List ℕ) (ls : List (List ℕ)) (body : List ℕ)
    → AreLines (l ∷ ls)
    → (n : ℕ) × (find (lines_bytes (l ∷ ls) (13 ∷ 10 ∷ body)) blank ≡ some n)
      × (n + 2 ≡ length (lines_bytes (l ∷ ls) []))
unfolding starts_with strip_prefix shift
find-lines l [] body (h, _) = (
  length l,
  find-line l (13 ∷ 10 ∷ body) (is_line-has_lf l h) ∙ refl,
  omega (arith, length-append l (13 ∷ 10 ∷ [])),
)
find-lines l (k ∷ ls) body (h, hs) =
    let (n, e, m) = find-lines k ls body hs in
    (
      length l + suc (suc n),
      find-line l (lines_bytes (k ∷ ls) (13 ∷ 10 ∷ body)) (is_line-has_lf l h)
          ∙ rw (starts_with-line k (13 ∷ 10 ∷ lines_bytes ls (13 ∷ 10 ∷ body)) hs.0, e)
              (shift-some (length l) (suc (suc n))),
      omega (arith, length-append l (13 ∷ 10 ∷ lines_bytes (k ∷ ls) [])),
    )

take-append : (xs ys : List ℕ) → take (length xs) (xs ++ ys) ≡ xs
take-append [] ys = refl
take-append (x ∷ xs) ys = ap (λ zs. x ∷ zs) (take-append xs ys)

drop-append : (xs ys : List ℕ) (n : ℕ) → drop (length xs + n) (xs ++ ys) ≡ drop n ys
drop-append [] ys n = let e : 0 + n ≡ n = omega arith in rw e refl
drop-append (x ∷ xs) ys n =
    let e : suc (length xs) + n ≡ suc (length xs + n) = omega arith in rw e (drop-append xs ys n)

-- A block of lines is cut off at its empty line.
pub split_header_block-lines :
    (l : List ℕ) (ls : List (List ℕ)) (body : List ℕ)
    → AreLines (l ∷ ls)
    → split_header_block (lines_bytes (l ∷ ls) (crlf ++ body))
      ≡ (lines_bytes (l ∷ ls) [], body, false)
unfolding split_header_block
split_header_block-lines l ls body h =
    let (n, e, m) = find-lines l ls body h in
    let block = lines_bytes (l ∷ ls) [] in
    let cut : lines_bytes (l ∷ ls) (13 ∷ 10 ∷ body) ≡ block ++ (13 ∷ 10 ∷ body) =
      lines_bytes-append (l ∷ ls) (13 ∷ 10 ∷ body) in
    let more : n + 4 ≡ length block + 2 = omega arith in
    rw (e, split_header_block)
      (rw (m, more, cut)
        (rw (take-append block (13 ∷ 10 ∷ body), drop-append block (13 ∷ 10 ∷ body) 2) refl))

without_cr-snoc : (l : List ℕ) → without_cr (l ++ (13 ∷ [])) ≡ l
unfolding without_cr
without_cr-snoc [] = refl
without_cr-snoc (c ∷ []) = refl
without_cr-snoc (c ∷ d ∷ l) = ap (λ m. c ∷ m) (without_cr-snoc (d ∷ l))

lines_from-line :
    (acc l t : List ℕ)
    → has_lf l ≡ false
    → lines_from acc (l ++ (13 ∷ 10 ∷ t)) ≡ (acc ++ l) ∷ lines_from [] t
unfolding lines_from
lines_from-line acc [] t e = rw (without_cr-snoc acc, append-nil acc) refl
lines_from-line acc (c ∷ l) t e =
    let c' : (c == 10) ≡ false = ground arith in
    rw c'
      (lines_from-line (acc ++ (c ∷ [])) l t (ground arith) ∙ rw (append_assoc acc (c ∷ []) l) refl)

-- The lines of a block are the lines that it was written with.
pub lines_from-lines : (ls : List (List ℕ)) → AreLines ls → lines_from [] (lines_bytes ls []) ≡ ls
unfolding lines_from
lines_from-lines [] h = refl
lines_from-lines (l ∷ ls) (h, hs) =
    lines_from-line [] l (lines_bytes ls []) (is_line-has_lf l h)
    ∙ ap (λ ms. l ∷ ms) (lines_from-lines ls hs)
