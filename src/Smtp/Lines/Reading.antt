-- ===== src/Smtp/Lines/Reading.antt =====
-- However the network cuts the stream into reads, `read_line` returns its next line.
use mathlib.Core.List.{append_assoc}
use smtp_relay.Prelude.{
  ℕ, ◌+◌, ◌-◌, ◌≡◌, ◌≤◌, ◌<◌, refl, sym, ap, subst, ◌∙◌, true, Option, none, some, List, [], ◌∷◌,
  ◌++◌, inl, inr, arith, min, Bool-cases, Option-cases, length, length-append, ltb, u64_mod,
}
use smtp_relay.Smtp.Lines.{
  Chunk, bytes, failure, stall, LineReader, compacted, position_of, drop, discard_line, read_from,
  read_line, buffered,
}
use smtp_relay.Smtp.Lines.Splitting.{
  position_of-none, drop-add, IsScanned, position_of-drop, IsScanned-all, IsScanned-append,
  length-drop,
}
use smtp_relay.Smtp.Lines.Streams.{data_of, stream, IsReady, Reads, complete-Reads, finish-Reads}
use smtp_relay.Smtp.Lines.Discarding.{discard_line-Discards, Discards-Reads}

-- What the loop of `read_line` keeps: the scanned bytes are buffered and hold no line feed.
record IsScanning (scanned : ℕ) (r : LineReader) (chunks : List Chunk) : Type 0 where
  ready : IsReady r
  socket : r.inner ≡ chunks
  clean : IsScanned b'\n' scanned (drop r.position r.buffer)
  within : scanned ≤ length (drop r.position r.buffer)

scan-position_of :
    (scanned : ℕ) (r : LineReader) (chunks : List Chunk) (o : Option ℕ)
    → IsScanning scanned r chunks
    → position_of b'\n' (drop (r.position + scanned) r.buffer) ≡ o
    → position_of b'\n' (drop r.position r.buffer)
      ≡ (elim o [ none ↦ none | some i ↦ some (scanned + i) ])
scan-position_of scanned r chunks o v e =
    position_of-drop b'\n' scanned (drop r.position r.buffer) v.clean v.within
    ∙ ap (λ p. elim p [ none ↦ none | some i ↦ some (scanned + i) ])
        (ap (position_of b'\n') (sym (drop-add r.position scanned r.buffer)) ∙ e)

-- The branch that throws an overlong line away.
overlong-Reads :
    (max_len : ℕ) (r : LineReader) (chunks : List Chunk)
    → IsReady r
    → r.inner ≡ chunks
    → position_of b'\n' (drop r.position r.buffer) ≡ none
    → ltb (min (max_len + 2) (u64_mod - 1)) (buffered r) ≡ true
    → max_len + 2 < u64_mod
    → Reads max_len (stream r) (discard_line r chunks)
overlong-Reads max_len r chunks v i e l h =
    let len = length-drop r.position r.buffer in
    subst (λ c. Reads max_len (drop r.position r.buffer ++ data_of c) (discard_line r chunks))
      (sym i)
      (Discards-Reads max_len (drop r.position r.buffer) (data_of chunks) _
        (position_of-none b'\n' _ e) (ground arith)
        (discard_line-Discards r chunks (rw i at v.data_only) v.within))

compacted-Ready : (r : LineReader) → IsReady r → IsReady (compacted r)
compacted-Ready r v = record { data_only = v.data_only; within = omega arith }

read_from-Reads :
    (max_len scanned : ℕ) (r : LineReader) (chunks : List Chunk)
    → IsScanning scanned r chunks
    → max_len + 2 < u64_mod
    → Reads max_len (stream r) (read_from max_len scanned r chunks)
unfolding read_from
read_from-Reads max_len scanned r [] v h =
    elim (Option-cases (position_of b'\n' (drop (r.position + scanned) r.buffer))) [
      | inr (i, e) ↦
          rw (e, read_from)
            (complete-Reads max_len r (scanned + i) v.ready
              (scan-position_of scanned r [] (some i) v e))
      | inl e ↦
          let no_line = scan-position_of scanned r [] none v e in
          elim (Bool-cases (ltb (min (max_len + 2) (u64_mod - 1)) (buffered r))) [
            | inl l ↦
                rw (e, l, read_from) (overlong-Reads max_len r [] v.ready v.socket no_line l h)
            | inr l ↦
                rw (e, l, read_from)
                  (finish-Reads max_len (compacted r) (compacted-Ready r v.ready) v.socket no_line)
          ]
    ]
read_from-Reads max_len scanned r (bytes [] ∷ rest) v h =
    absurd ((rw v.socket at v.ready.data_only).0)
read_from-Reads max_len scanned r (failure ∷ rest) v h =
    absurd ((rw v.socket at v.ready.data_only).0)
read_from-Reads max_len scanned r (stall ∷ rest) v h = absurd ((rw v.socket at v.ready.data_only).0)
read_from-Reads max_len scanned r (bytes (b ∷ bs) ∷ rest) v h =
    elim (Option-cases (position_of b'\n' (drop (r.position + scanned) r.buffer))) [
      | inr (i, e) ↦
          rw (e, read_from)
            (complete-Reads max_len r (scanned + i) v.ready
              (scan-position_of scanned r _ (some i) v e))
      | inl e ↦
          let no_line = scan-position_of scanned r _ none v e in
          elim (Bool-cases (ltb (min (max_len + 2) (u64_mod - 1)) (buffered r))) [
            | inl l ↦ rw (e, l, read_from) (overlong-Reads max_len r _ v.ready v.socket no_line l h)
            | inr l ↦
                let len = length-drop r.position r.buffer in
                let len' = length-append (drop r.position r.buffer) (b ∷ bs) in
                let all = IsScanned-all b'\n' (drop r.position r.buffer) no_line in
                rw
                  (
                    e,
                    l,
                    read_from,
                    v.socket,
                    sym (append_assoc (drop r.position r.buffer) (b ∷ bs) (data_of rest)),
                  )
                  (read_from-Reads max_len (buffered r)
                    (record {
                      inner = rest;
                      buffer = drop r.position r.buffer ++ (b ∷ bs);
                      position = 0;
                    })
                    rest
                    (record {
                      ready = record {
                        data_only = (rw v.socket at v.ready.data_only).1;
                        within = omega arith;
                      };
                      socket = refl;
                      clean = IsScanned-append b'\n' _ _ (b ∷ bs) (rw len at all) (omega arith);
                      within = omega arith;
                    })
                    h)
          ]
    ]

-- From a ready reader, `read_line` returns the next line of the stream behind it, however the
-- network has cut that stream into reads: the bytes before the next line feed, without a carriage
-- return right before it, or all bytes up to the end of the stream where no line feed is left;
-- `too_long` when these exceed the limit; `eof` when nothing is left. It leaves a ready reader at
-- the first byte behind that line. The limit and two more stay below 2^64.
pub read_line-next_line :
    (max_len : ℕ) (r : LineReader)
    → IsReady r
    → max_len + 2 < u64_mod
    → Reads max_len (stream r) (read_line max_len r)
unfolding read_line
read_line-next_line max_len r v h =
    read_from-Reads max_len 0 r r.inner
      (record { ready = v; socket = refl; clean = tt; within = omega arith }) h
