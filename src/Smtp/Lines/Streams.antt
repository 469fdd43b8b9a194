-- ===== src/Smtp/Lines/Streams.antt =====
-- The byte stream behind a reader, its next line, and the branches of `read_line` that end with one.
use mathlib.Core.List.{append-nil}
use smtp_relay.Prelude.{
  ℕ, suc, ◌+◌, ◌-◌, ◌≡◌, ◌≢◌, ◌≤◌, refl, sym, ap, Option, none, some, List, [], ◌∷◌, ◌++◌, inl, inr,
  arith, Bool-cases, length, ltb, ◌==◌, ==_iff, if◌then◌else◌, All, is_empty,
}
use smtp_relay.Util.Strings.{take, split_once}
use smtp_relay.Smtp.Lines.{
  Chunk, bytes, failure, stall, LineReader, ReadLine, eof, Outcome, read, position_of, drop, sized,
  complete, finish, compact_if_drained, buffered, line_end,
}
use smtp_relay.Smtp.Lines.Splitting.{
  strip_cr, position_of-none, position_of-some, split_once-append_some, drop-add, byte_at-drop,
  take-strip_cr, drop-length, length-drop,
}

-- The reads give data, until the stream ends.
abbrev pub IsData : Chunk → Type 0
IsData (bytes []) = ⊥
IsData (bytes (b ∷ bs)) = Unit
IsData failure = ⊥
IsData stall = ⊥

abbrev pub data_of : List Chunk → List ℕ
data_of [] = []
data_of (bytes bs ∷ rest) = bs ++ data_of rest
data_of (failure ∷ rest) = data_of rest
data_of (stall ∷ rest) = data_of rest

-- All that the reader will still see.
abbrev pub stream : LineReader → List ℕ
stream r = drop r.position r.buffer ++ data_of r.inner

-- The next line of a stream, and what follows it.
abbrev pub line_of : ℕ → List ℕ → Option (List ℕ × List ℕ) → ReadLine × List ℕ
line_of max_len s none = (if is_empty s then eof else sized max_len s, [])
line_of max_len s (some (l, rest)) = (sized max_len (strip_cr l), rest)

abbrev pub next_line : ℕ → List ℕ → ReadLine × List ℕ
next_line max_len s = line_of max_len s (split_once b'\n' s)

pub record IsReady (r : LineReader) : Type 0 where
  pub data_only : All IsData r.inner
  pub within : r.position ≤ length r.buffer

-- A result that is the stream's next line, with the reader left behind it.
pub record Reads (max_len : ℕ) (s : List ℕ) (res : LineReader × Outcome) : Type 0 where
  pub ready : IsReady res.0
  pub outcome : res.1 ≡ read (next_line max_len s).0
  pub remains : stream res.0 ≡ (next_line max_len s).1

drained : (r : LineReader) → r.position ≡ length r.buffer → drop r.position r.buffer ≡ []
drained r e = rw e (drop-length r.buffer)

-- What `compact_if_drained` leaves as it was.
pub compact_frame :
    (r : LineReader)
    → r.position ≤ length r.buffer
    → (drop (compact_if_drained r).position (compact_if_drained r).buffer
        ≡ drop r.position r.buffer)
      × ((compact_if_drained r).inner ≡ r.inner)
      × ((compact_if_drained r).position ≤ length (compact_if_drained r).buffer)
unfolding compact_if_drained
compact_frame r w = elim (Bool-cases (r.position == length r.buffer)) [
  | inl e ↦ rw e (sym (drained r ((==_iff r.position (length r.buffer)).0 e)), refl, omega arith)
  | inr e ↦ rw e (refl, refl, w)
]

-- The bytes up to the line feed at offset `n`, less a carriage return.
line_end-strip_cr :
    (r : LineReader) (n : ℕ)
    → n ≤ length (drop r.position r.buffer)
    → take (line_end r n) (drop r.position r.buffer) ≡ strip_cr (take n (drop r.position r.buffer))
line_end-strip_cr r n h = elim (Bool-cases (ltb 0 n)) [
  | inr z ↦ rw z (rw z at (take-strip_cr n (drop r.position r.buffer) h))
  | inl z ↦
      let e : r.position + n - 1 ≡ r.position + (n - 1) = ground arith in
      rw (e, byte_at-drop r.position (n - 1) r.buffer)
        (take-strip_cr n (drop r.position r.buffer) h)
]

-- The branch that has found the line feed at offset `n`.
pub complete-Reads :
    (max_len : ℕ) (r : LineReader) (n : ℕ)
    → IsReady r
    → position_of b'\n' (drop r.position r.buffer) ≡ some n
    → Reads max_len (stream r) (complete max_len r n)
unfolding complete
complete-Reads max_len r n v e =
    let (found, lt) = position_of-some b'\n' (drop r.position r.buffer) n e in
    let whole = split_once-append_some b'\n' _ (data_of r.inner) _ _ found in
    let len = length-drop r.position r.buffer in
    let past : r.position + n + 1 ≡ r.position + suc n = omega arith in
    let (kept, same, w) =
      compact_frame (record r { position = r.position + n + 1 }) (omega arith) in
    record {
      ready = record { data_only = rw same v.data_only; within = w };
      outcome = rw (whole, line_end-strip_cr r n (omega arith)) refl;
      remains = rw (whole, kept, same, past, drop-add r.position (suc n) r.buffer) refl;
    }

stream_buffer : (r : LineReader) → r.inner ≡ [] → stream r ≡ drop r.position r.buffer
stream_buffer r i = rw i (append-nil (drop r.position r.buffer))

empty_of_length : (s : List ℕ) → length s ≡ 0 → s ≡ []
empty_of_length [] h = refl
empty_of_length (c ∷ s) h = absurd (omega arith)

sized_or_eof :
    (max_len : ℕ) (s : List ℕ)
    → length s ≢ 0
    → sized max_len s ≡ (if is_empty s then eof else sized max_len s)
sized_or_eof max_len [] h = absurd (h refl)
sized_or_eof max_len (c ∷ s) h = refl

-- The branch at the end of the stream, when the buffer holds no line feed.
pub finish-Reads :
    (max_len : ℕ) (r : LineReader)
    → IsReady r
    → r.inner ≡ []
    → position_of b'\n' (drop r.position r.buffer) ≡ none
    → Reads max_len (stream r) (finish max_len r)
unfolding finish split_once
finish-Reads max_len r v i e =
    let len = length-drop r.position r.buffer in
    let none_left = position_of-none b'\n' (drop r.position r.buffer) e in
    let whole = stream_buffer r i in
    let (kept, same, w) = compact_frame (record r { position = length r.buffer }) (omega arith) in
    elim (Bool-cases (buffered r == 0)) [
      | inl z ↦
          let none_buffered = empty_of_length (drop r.position r.buffer) (ground arith) in
          rw z (record {
            ready = v;
            outcome = rw (whole, none_buffered) refl;
            remains = rw (whole, none_buffered) refl;
          })
      | inr z ↦ rw z (record {
        ready = record { data_only = rw same v.data_only; within = w };
        outcome =
            rw (whole, none_left)
              (ap read (sized_or_eof max_len (drop r.position r.buffer) (ground arith)));
        remains = rw (whole, none_left, kept, same, i, drop-length r.buffer) refl;
      })
    ]
