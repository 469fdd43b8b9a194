-- ===== src/Smtp/Lines.antt =====
-- src/smtp/lines.rs: the bounded line reader. The socket is the list of what its next reads give;
-- the end of the list is the end of the stream. A read that stalls stands for the timeout with which
-- every caller bounds `read_line`. `position` is an index of `buffer`, as in the source.
pub mod Splitting
pub mod Streams
pub mod Discarding
pub mod Reading
use smtp_relay.Prelude.{
  ℕ, zero, suc, ◌+◌, ◌-◌, min, Bool, true, false, ◌&&◌, Option, none, some, List, [], ◌∷◌, ◌++◌,
  length, get_elem?, ltb, leb, ◌==◌, if◌then◌else◌, is_empty, u64_mod,
}
use smtp_relay.Util.Strings.{take}

pub data Chunk : Type 0 where
  bytes : List ℕ → Chunk
  failure stall : Chunk

pub data ReadLine : Type 0 where
  line : List ℕ → ReadLine
  too_long eof : ReadLine

-- `timeout(…, read_line(…))`: a line, an I/O error, or the elapsed timer.
pub data Outcome : Type 0 where
  read : ReadLine → Outcome
  failed elapsed : Outcome

pub record LineReader : Type 0 where
  pub inner : List Chunk
  pub buffer : List ℕ
  pub position : ℕ

abbrev pub drop {ℓ} : {A : Type ℓ} → ℕ → List A → List A
drop zero xs = xs
drop (suc n) [] = []
drop (suc n) (x ∷ xs) = drop n xs

unfoldable pub new : List Chunk → LineReader
new inner = record { inner = inner; buffer = []; position = 0 }

-- `CHUNK`.
abbrev pub chunk_size : ℕ
chunk_size = 16384

-- The room `fill` makes behind the buffer, which stays there when the timer drops the read.
abbrev pub zeros : ℕ → List ℕ
zeros zero = []
zeros (suc n) = 0 ∷ zeros n

abbrev pub buffered : LineReader → ℕ
buffered r = length r.buffer - r.position

-- `iter().position(|&byte| byte == b)`.
unfoldable pub position_of : ℕ → List ℕ → Option ℕ
position_of b [] = none
position_of b (c ∷ s) =
    if c == b then some 0 else (elim (position_of b s) [ none ↦ none | some i ↦ some (suc i) ])

abbrev pub byte_at : List ℕ → ℕ → ℕ
byte_at [] i = 0
byte_at (c ∷ s) zero = c
byte_at (c ∷ s) (suc i) = byte_at s i

unfoldable pub compact_if_drained : LineReader → LineReader
compact_if_drained r =
    if r.position == length r.buffer then record r { buffer = []; position = 0 } else r

-- The buffer after `fill` has dropped what was consumed.
abbrev pub compacted : LineReader → LineReader
compacted r = record r { buffer = drop r.position r.buffer; position = 0 }

abbrev pub sized : ℕ → List ℕ → ReadLine
sized max_len l = if ltb max_len (length l) then too_long else line l

-- Where the line ends whose line feed stands at offset `newline`: before a carriage return.
abbrev pub line_end : LineReader → ℕ → ℕ
line_end r newline =
    if ltb 0 newline && byte_at r.buffer (r.position + newline - 1) == b'\r'
    then newline - 1
    else newline

-- The branch of `read_line` that has found a line feed.
unfoldable pub complete : ℕ → LineReader → ℕ → LineReader × Outcome
unfolding compact_if_drained
complete max_len r newline =
    let l = take (line_end r newline) (drop r.position r.buffer) in
    (compact_if_drained (record r { position = r.position + newline + 1 }), read (sized max_len l))

-- The branch at the end of the stream.
unfoldable pub finish : ℕ → LineReader → LineReader × Outcome
unfolding compact_if_drained
finish max_len r =
    let consumed = compact_if_drained (record r { position = length r.buffer }) in
    if buffered r == 0
    then (r, read eof)
    else (consumed, read (sized max_len (drop r.position r.buffer)))

-- `discard_line`, which reads on through the socket. Its result is always `too_long`.
unfoldable pub discard_line : LineReader → List Chunk → LineReader × Outcome
unfolding compact_if_drained
discard_line r [] = elim (position_of b'\n' (drop r.position r.buffer)) [
  | some i ↦
      (compact_if_drained (record r { inner = []; position = r.position + i + 1 }), read too_long)
  | none ↦ (record { inner = []; buffer = []; position = 0 }, read too_long)
]
discard_line r (chunk ∷ rest) = elim (position_of b'\n' (drop r.position r.buffer)) [
  | some i ↦ (
    compact_if_drained (record r { inner = chunk ∷ rest; position = r.position + i + 1 }),
    read too_long,
  )
  | none ↦ elim chunk [
    | bytes [] ↦ (record { inner = rest; buffer = []; position = 0 }, read too_long)
    | bytes (b ∷ bs) ↦ discard_line (record { inner = rest; buffer = b ∷ bs; position = 0 }) rest
    | failure ↦ (record { inner = rest; buffer = []; position = 0 }, failed)
    | stall ↦ (record { inner = rest; buffer = zeros chunk_size; position = 0 }, elapsed)
  ]
]

-- The loop of `read_line`: `scanned` bytes behind `position` are known to hold no line feed.
unfoldable pub read_from : ℕ → ℕ → LineReader → List Chunk → LineReader × Outcome
unfolding complete finish discard_line
read_from max_len scanned r [] = elim (position_of b'\n' (drop (r.position + scanned) r.buffer)) [
  | some index ↦ complete max_len r (scanned + index)
  | none ↦
      if ltb (min (max_len + 2) (u64_mod - 1)) (buffered r)
      then discard_line r []
      else finish max_len (compacted r)
]
read_from max_len scanned r (chunk ∷ rest) =
    elim (position_of b'\n' (drop (r.position + scanned) r.buffer)) [
      | some index ↦ complete max_len r (scanned + index)
      | none ↦
          let filled = record (compacted r) { inner = rest } in
          let go_on : LineReader × Outcome = elim chunk [
            | bytes [] ↦ finish max_len filled
            | bytes (b ∷ bs) ↦
                read_from max_len (buffered r)
                  (record filled { buffer = drop r.position r.buffer ++ (b ∷ bs) }) rest
            | failure ↦ (filled, failed)
            | stall ↦
                (record filled { buffer = drop r.position r.buffer ++ zeros chunk_size }, elapsed)
          ] in
          if ltb (min (max_len + 2) (u64_mod - 1)) (buffered r)
          then discard_line r (chunk ∷ rest)
          else go_on
    ]

unfoldable pub read_line : ℕ → LineReader → LineReader × Outcome
unfolding read_from
read_line max_len r = read_from max_len 0 r r.inner
