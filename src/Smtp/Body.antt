-- ===== src/Smtp/Body.antt =====
-- src/smtp/session.rs: `read_body`, which reads a DATA payload and undoes the dot stuffing. The loop
-- is recursion on fuel. The lengths of vectors stay below half a machine word, so that the source's
-- sums of two of them do not wrap around.
pub mod Wire
pub mod Returns
use smtp_relay.Prelude.{
  ℕ, zero, suc, ◌+◌, ◌-◌, min, Bool, true, false, Option, none, some, List, [], ◌∷◌, ◌++◌, length,
  ltb, ◌==◌, if◌then◌else◌, text_eq, u64_mod,
}
use smtp_relay.Smtp.Lines.{
  LineReader, line, too_long, eof, Outcome, read, failed, elapsed, read_line,
}

pub data BodyResult : Type 0 where
  complete : List ℕ → BodyResult
  too_large : ℕ → BodyResult
  aborted : Bool → BodyResult

-- What `read_body` returns: its result, or the I/O error of the reader.
pub data Received : Type 0 where
  finished : BodyResult → Received
  io_error : Received

-- `MAX_COMMAND_LINE`.
abbrev pub max_command_line : ℕ
max_command_line = 4096

-- `limit.saturating_add(MAX_COMMAND_LINE)`.
abbrev pub line_limit : ℕ → ℕ
line_limit limit = min (limit + max_command_line) (u64_mod - 1)

-- `payload`: the line without the dot that the client has put before a leading dot.
unfoldable pub unstuffed : List ℕ → List ℕ
unstuffed [] = []
unstuffed (c ∷ l) = if c == b'.' then l else c ∷ l

-- What a body line does to `raw` and `over_size`.
unfoldable pub accumulate : ℕ → List ℕ → Bool → List ℕ → List ℕ × Bool
unfolding unstuffed
accumulate limit raw over_size l =
    if over_size
    then (raw, true)
    else (if ltb limit (length raw + length (unstuffed l) + 2)
        then ([], true)
        else (raw ++ unstuffed l ++ (b'\r' ∷ b'\n' ∷ []), false))

-- The loop's body behind a call of `read_line`; `go` is the rest of the loop.
unfoldable pub after_read :
    ℕ
    → (List ℕ → Bool → LineReader → LineReader × Option Received)
    → List ℕ
    → Bool
    → LineReader × Outcome
    → LineReader × Option Received
unfolding accumulate
after_read limit go raw over_size (r, read (line l)) =
    let (raw', over') = accumulate limit raw over_size l in
    if text_eq l (b'.' ∷ [])
    then (r, some (finished (if over_size then too_large limit else complete raw)))
    else go raw' over' r
after_read limit go raw over_size (r, read too_long) = go raw true r
after_read limit go raw over_size (r, read eof) = (r, some (finished (aborted false)))
after_read limit go raw over_size (r, failed) = (r, some io_error)
after_read limit go raw over_size (r, elapsed) = (r, some (finished (aborted true)))

unfoldable pub read_lines : ℕ → ℕ → List ℕ → Bool → LineReader → LineReader × Option Received
unfolding after_read read_line
read_lines zero limit raw over_size r = (r, none)
read_lines (suc fuel) limit raw over_size r =
    after_read limit (read_lines fuel limit) raw over_size (read_line (line_limit limit) r)

-- `none` when the fuel has run out.
unfoldable pub read_body : ℕ → ℕ → LineReader → LineReader × Option Received
unfolding read_lines
read_body fuel limit r = read_lines fuel limit [] false r
