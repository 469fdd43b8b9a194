-- ===== src/Smtp/Lines/Discarding.antt =====
-- What `discard_line` throws away: the rest of an overlong line, and no more.
use mathlib.Core.List.{append-nil}
use smtp_relay.Prelude.{
  ℕ, suc, ◌+◌, ◌≡◌, ◌≤◌, ◌<◌, refl, sym, ap, ◌∙◌, Option, none, some, List, [], ◌∷◌, ◌++◌, inl, inr,
  arith, Option-cases, length, length-append, All,
}
use smtp_relay.Util.Strings.{split_once}
use smtp_relay.Smtp.Lines.{
  Chunk, bytes, failure, stall, LineReader, too_long, Outcome, read, position_of, drop, sized,
  discard_line, compact_if_drained,
}
use smtp_relay.Smtp.Lines.Splitting.{
  strip_cr, position_of-none, position_of-some, split_once-append_none, split_once-append_some,
  drop-add, prefixed, length-drop,
}
use smtp_relay.Smtp.Lines.Streams.{
  IsData, data_of, stream, line_of, next_line, IsReady, Reads, compact_frame,
}

-- What `discard_line` leaves of a stream.
abbrev pub after_line : List ℕ → List ℕ
after_line s = (next_line 0 s).1

pub record Discards (s : List ℕ) (res : LineReader × Outcome) : Type 0 where
  pub ready : IsReady res.0
  pub outcome : res.1 ≡ read too_long
  pub remains : stream res.0 ≡ after_line s

line_of-prefixed_any :
    (s t : List ℕ) (o : Option (List ℕ × List ℕ))
    → (line_of 0 (s ++ t) (prefixed s o)).1 ≡ (line_of 0 t o).1
line_of-prefixed_any s t none = refl
line_of-prefixed_any s t (some (l, rest)) = refl

-- Bytes without a line feed are not what follows the line.
after_line-append : (s t : List ℕ) → split_once b'\n' s ≡ none → after_line (s ++ t) ≡ after_line t
after_line-append s t e =
    rw (split_once-append_none b'\n' s t e, after_line)
      (line_of-prefixed_any s t (split_once b'\n' t))

-- The line feed at offset `i` ends the line that is thrown away.
found-Discards :
    (r : LineReader) (i : ℕ)
    → IsReady r
    → position_of b'\n' (drop r.position r.buffer) ≡ some i
    → Discards
        (stream r)
        (compact_if_drained (record r { position = r.position + i + 1 }), read too_long)
found-Discards r i v e =
    let (found, lt) = position_of-some b'\n' (drop r.position r.buffer) i e in
    let whole = split_once-append_some b'\n' _ (data_of r.inner) _ _ found in
    let len = length-drop r.position r.buffer in
    let past : r.position + i + 1 ≡ r.position + suc i = omega arith in
    let (kept, same, w) =
      compact_frame (record r { position = r.position + i + 1 }) (omega arith) in
    record {
      ready = record { data_only = rw same v.data_only; within = w };
      outcome = refl;
      remains = rw (after_line, whole, kept, same, past, drop-add r.position (suc i) r.buffer) refl;
    }

-- The reader that has thrown everything away at the end of the stream.
ended-Discards :
    (s : List ℕ)
    → split_once b'\n' s ≡ none
    → Discards s (record { inner = []; buffer = []; position = 0 }, read too_long)
ended-Discards s e = record {
  ready = record { data_only = tt; within = omega arith };
  outcome = refl;
  remains = rw (e, after_line) refl;
}

Discards-append :
    (s t : List ℕ) (res : LineReader × Outcome)
    → split_once b'\n' s ≡ none
    → Discards t res
    → Discards (s ++ t) res
Discards-append s t res e d = record {
  ready = d.ready;
  outcome = d.outcome;
  remains = d.remains ∙ sym (after_line-append s t e);
}

pub discard_line-Discards :
    (r : LineReader) (chunks : List Chunk)
    → All IsData chunks
    → r.position ≤ length r.buffer
    → Discards (drop r.position r.buffer ++ data_of chunks) (discard_line r chunks)
unfolding discard_line
discard_line-Discards r [] d w =
    elim (Option-cases (position_of b'\n' (drop r.position r.buffer))) [
      | inl e ↦
          rw (e, discard_line, append-nil (drop r.position r.buffer))
            (ended-Discards _ (position_of-none b'\n' _ e))
      | inr (i, e) ↦
          rw (e, discard_line)
            (found-Discards (record r { inner = [] }) i (record { data_only = tt; within = w }) e)
    ]
discard_line-Discards r (bytes [] ∷ rest) d w = absurd d.0
discard_line-Discards r (failure ∷ rest) d w = absurd d.0
discard_line-Discards r (stall ∷ rest) d w = absurd d.0
discard_line-Discards r (bytes (b ∷ bs) ∷ rest) d w =
    elim (Option-cases (position_of b'\n' (drop r.position r.buffer))) [
      | inl e ↦
          rw (e, discard_line)
            (Discards-append _ _ _ (position_of-none b'\n' _ e) (
              discard_line-Discards (record { inner = rest; buffer = b ∷ bs; position = 0 }) rest
                d.1 (omega arith)))
      | inr (i, e) ↦
          rw (e, discard_line)
            (found-Discards (record r { inner = bytes (b ∷ bs) ∷ rest }) i
              (record { data_only = d; within = w }) e)
    ]

length-strip_cr : (s : List ℕ) → length s ≤ suc (length (strip_cr s))
unfolding strip_cr
length-strip_cr [] = omega arith
length-strip_cr (c ∷ []) = ground arith
length-strip_cr (c ∷ d ∷ s) = ground (arith, length-strip_cr (d ∷ s))

sized-too_long : (max_len : ℕ) (s : List ℕ) → max_len < length s → sized max_len s ≡ too_long
sized-too_long max_len s h = ground arith

-- A stream whose first bytes exceed the limit by more than a line's end, without a line feed.
next_line-too_long :
    (max_len : ℕ) (s t : List ℕ) (o : Option (List ℕ × List ℕ))
    → max_len + 2 < length s
    → ((line_of max_len (s ++ t) (prefixed s o)).0 ≡ too_long)
      × ((line_of max_len (s ++ t) (prefixed s o)).1 ≡ (line_of 0 (s ++ t) (prefixed s o)).1)
next_line-too_long max_len [] t o h = absurd (omega arith)
next_line-too_long max_len (c ∷ s) t none h =
    let len = length-append (c ∷ s) t in (sized-too_long max_len ((c ∷ s) ++ t) (omega arith), refl)
next_line-too_long max_len (c ∷ s) t (some (l, rest)) h =
    let len = length-append (c ∷ s) l in
    let strip = length-strip_cr ((c ∷ s) ++ l) in
    (sized-too_long max_len (strip_cr ((c ∷ s) ++ l)) (omega arith), refl)

pub Discards-Reads :
    (max_len : ℕ) (s t : List ℕ) (res : LineReader × Outcome)
    → split_once b'\n' s ≡ none
    → max_len + 2 < length s
    → Discards (s ++ t) res
    → Reads max_len (s ++ t) res
Discards-Reads max_len s t res e h d =
    let split = split_once-append_none b'\n' s t e in
    let (long, same) = next_line-too_long max_len s t (split_once b'\n' t) h in
    record {
      ready = d.ready;
      outcome = d.outcome ∙ ap read (sym (ap (λ o. (line_of max_len (s ++ t) o).0) split ∙ long));
      remains =
          d.remains
          ∙ ap (λ o. (line_of 0 (s ++ t) o).1) split
          ∙ sym (ap (λ o. (line_of max_len (s ++ t) o).1) split ∙ same);
    }
