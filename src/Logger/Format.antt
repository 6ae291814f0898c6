-- ===== src/Logger/Format.antt =====
-- `Logger::log` in log.h, up to the line that stands in `stack_buf`: the offsets that it writes at.
-- Of `snprintf` the model uses the length `w` that the full text would have, which is also what it
-- returns; it writes at most `size` bytes with the final zero, and nothing if `size` is 0.
use backend_common_component.Prelude.{
  ℕ, ◌+◌, ◌-◌, ◌%◌, ◌≤◌, ◌<◌, List, [], ◌∷◌, arith, leb, ltb, if◌then◌else◌,
}
use Prim.Native.Nat.{min, max}

abbrev pub stack_buf_size : ℕ
stack_buf_size = 4096

-- `size_t` subtraction wraps.
abbrev pub sub_size : ℕ → ℕ → ℕ
sub_size a b = (a + 18446744073709551616 - b) % 18446744073709551616

-- `offset`, and the end of the part of `stack_buf` that was written.
pub record Cursor : Type 0 where
  pub offset : ℕ
  pub touched : ℕ

-- `snprintf(buf + offset, size, ...)` and `offset += w`.
unfoldable pub print : ℕ → ℕ → Cursor → Cursor
print size w c = record {
  offset = c.offset + w;
  touched = max c.touched (c.offset + min (w + 1) size);
}

-- `write_arg`.
unfoldable pub write_arg : ℕ → ℕ → Cursor → Cursor
unfolding print
write_arg buf_size w c = if leb buf_size c.offset then c else print (buf_size - c.offset) w c

unfoldable pub append_args : ℕ → List ℕ → Cursor → Cursor
append_args buf_size [] c = c
append_args buf_size (w ∷ ws) c = append_args buf_size ws (write_arg buf_size w c)

-- The arguments of a call: texts to append, or a format that `vsnprintf` expands.
pub data Message : Type 0 where
  appended : List ℕ → Message
  formatted : ℕ → Message

unfoldable pub write_message : Message → Cursor → Cursor
unfolding print append_args
write_message (appended ws) c = append_args (sub_size stack_buf_size c.offset) ws c
write_message (formatted w) c = print (sub_size stack_buf_size c.offset) w c

-- The newline and the zero behind the text.
unfoldable pub finish : Cursor → Cursor
finish c =
    if ltb c.offset (stack_buf_size - 2)
    then record { offset = c.offset + 1; touched = max c.touched (c.offset + 2) }
    else record { offset = stack_buf_size - 1; touched = max c.touched stack_buf_size }

-- The whole line: time stamp, header (level, file and line), message, newline.
unfoldable pub format_line : ℕ → ℕ → Message → Cursor
unfolding print write_message finish
format_line stamp header message =
    let c = print stack_buf_size stamp (record { offset = 0; touched = 0 }) in
    let d = print (sub_size stack_buf_size c.offset) header c in finish (write_message message d)

append_args_bounds :
    (ws : List ℕ) (buf_size : ℕ) (c : Cursor)
    → buf_size ≤ stack_buf_size
    → c.touched ≤ stack_buf_size
    → (append_args buf_size ws c).touched ≤ stack_buf_size
unfolding append_args write_arg print
append_args_bounds [] buf_size c h t = t
append_args_bounds (w ∷ ws) buf_size c h t =
    append_args_bounds ws buf_size (write_arg buf_size w c) h (ground arith)

write_message_bounds :
    (message : Message) (c : Cursor)
    → c.offset ≤ stack_buf_size
    → c.touched ≤ stack_buf_size
    → (write_message message c).touched ≤ stack_buf_size
unfolding write_message print
write_message_bounds (appended ws) c h t =
    append_args_bounds ws (sub_size stack_buf_size c.offset) c (omega arith) t
write_message_bounds (formatted w) c h t = omega arith

-- If time stamp and header fit the buffer of 4096 bytes, every write of a log call, however long
-- its message, stays inside the buffer, and the line that results is not empty and has at most 4095
-- bytes.
pub format_line_bounds :
    (stamp header : ℕ) (message : Message)
    → stamp + header ≤ stack_buf_size
    → let c = format_line stamp header message in
      (c.touched ≤ stack_buf_size) × (0 < c.offset) × (c.offset < stack_buf_size)
unfolding format_line finish print
format_line_bounds stamp header message h =
    let c : Cursor = print stack_buf_size stamp (record { offset = 0; touched = 0 }) in
    let d = print (sub_size stack_buf_size c.offset) header c in
    ground (arith, write_message_bounds message d (omega arith) (omega arith))
