-- ===== src/Output/Capture.antt =====
-- `_BoundedStreamCapture` and `_count_lines`.
pub mod Windows
use chatgpt_web_oauth_mcp.Prelude.{
  ℕ, zero, suc, ◌+◌, ◌-◌, ◌/◌, min, Bool, true, false, ◌&&◌, ◌||◌, not, Option, none, some, List,
  [], ◌∷◌, ◌++◌, length, take, drop, ltb, ◌==◌, if◌then◌else◌,
}
use chatgpt_web_oauth_mcp.FileSystem.{Bytes}

-- `max_bytes` is `max(0, int(max_bytes))`.
pub record Capture : Type 0 where
  pub max_bytes : ℕ
  pub head_limit : ℕ
  pub tail_limit : ℕ
  pub head : Bytes
  pub tail : Bytes
  pub total_bytes : ℕ
  pub line_breaks : ℕ
  pub last_byte : Option ℕ

unfoldable pub new_capture : ℕ → Capture
new_capture max_bytes =
    let head_limit = (max_bytes + 1) / 2 in
    record {
      max_bytes = max_bytes;
      head_limit = head_limit;
      tail_limit = max_bytes - head_limit;
      head = [];
      tail = [];
      total_bytes = 0;
      line_breaks = 0;
      last_byte = none;
    }

-- `data.count(byte)`
unfoldable pub count_byte : ℕ → Bytes → ℕ
count_byte b [] = 0
count_byte b (c ∷ raw) = (if b == c then 1 else 0) + count_byte b raw

-- `data[0]` and `data[-1]`, where there is one.
abbrev pub first_byte : Bytes → Option ℕ
first_byte [] = none
first_byte (c ∷ raw) = some c

unfoldable pub last_of : Option ℕ → Bytes → Option ℕ
last_of before [] = before
last_of before (c ∷ raw) = last_of (some c) raw

abbrev pub is_byte : ℕ → Option ℕ → Bool
is_byte b none = false
is_byte b (some c) = b == c

-- A carriage return in front of a line feed.
abbrev pub straddles : Option ℕ → Option ℕ → ℕ
straddles a b = if is_byte 13 a && is_byte 10 b then 1 else 0

-- `data.count(b"\r\n")`
unfoldable pub count_crlf : Bytes → ℕ
count_crlf [] = 0
count_crlf (c ∷ raw) = straddles (some c) (first_byte raw) + count_crlf raw

-- `data.count(b"\n") + data.count(b"\r") - data.count(b"\r\n")`
unfoldable pub count_breaks : Bytes → ℕ
unfolding count_byte count_crlf
count_breaks raw = count_byte 10 raw + count_byte 13 raw - count_crlf raw

-- `int(last not in {"\n", "\r"})`; there is a last byte wherever it is used.
abbrev pub open_line : Option ℕ → ℕ
open_line last = if is_byte 10 last || is_byte 13 last then 0 else 1

unfoldable pub count_lines : Bytes → ℕ
unfolding count_breaks last_of
count_lines [] = 0
count_lines (c ∷ raw) = count_breaks (c ∷ raw) + open_line (last_of none (c ∷ raw))

abbrev is_nil : Bytes → Bool
is_nil [] = true
is_nil (c ∷ raw) = false

-- The counters of `add`.
count_chunk : Bytes → Capture → Capture
unfolding count_breaks last_of
count_chunk chunk s = record s {
  total_bytes = s.total_bytes + length chunk;
  line_breaks = s.line_breaks + count_breaks chunk - straddles s.last_byte (first_byte chunk);
  last_byte = last_of s.last_byte chunk;
}

-- The bytes of the chunk that are not kept in the head.
abbrev beyond_head : Capture → Bytes → Bytes
beyond_head s chunk =
    if ltb (length s.head) s.head_limit then drop (s.head_limit - length s.head) chunk else chunk

fill_head : Bytes → Capture → Capture
fill_head chunk s =
    if ltb (length s.head) s.head_limit
    then record s { head = s.head ++ take (s.head_limit - length s.head) chunk }
    else s

-- `self._tail.extend(chunk)` and the removal of the overflow.
fill_tail : Bytes → Capture → Capture
fill_tail chunk s =
    let tail = s.tail ++ chunk in
    let overflow = length tail - s.tail_limit in
    if is_nil chunk || (s.tail_limit == 0)
    then s
    else record s { tail = if ltb 0 overflow then drop overflow tail else tail }

unfoldable pub add : Bytes → Capture → Capture
unfolding count_chunk fill_head fill_tail
add [] s = s
add (c ∷ chunk) s =
    let counted = count_chunk (c ∷ chunk) s in
    fill_tail (beyond_head s (c ∷ chunk)) (fill_head (c ∷ chunk) counted)

-- A stream in chunks.
unfoldable pub add_all : List Bytes → Capture → Capture
add_all [] s = s
add_all (chunk ∷ chunks) s = add_all chunks (add chunk s)

unfoldable pub retained_bytes : Capture → ℕ
retained_bytes s = length s.head + length s.tail

unfoldable pub dropped_bytes : Capture → ℕ
unfolding retained_bytes
dropped_bytes s = s.total_bytes - retained_bytes s

unfoldable pub total_lines : Capture → ℕ
total_lines s = if s.total_bytes == 0 then 0 else s.line_breaks + open_line s.last_byte

unfoldable pub retained_lines : Capture → ℕ
unfolding dropped_bytes total_lines count_lines
retained_lines s =
    if dropped_bytes s == 0
    then total_lines s
    else min (total_lines s) (count_lines s.head + count_lines s.tail)
