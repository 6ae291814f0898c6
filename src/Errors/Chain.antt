-- ===== src/Errors/Chain.antt =====
-- error.h and error.cpp: an error with its context and the chain of its causes. The decimal form of a
-- line number is a parameter, and so is the text that a format gives.
use backend_common_component.Prelude.{
  ℕ, zero, suc, Bool, true, false, List, ◌==◌, Option, none, some, [], ◌∷◌, ◌++◌, length, ltb,
  if◌then◌else◌, ℤ,
}
use backend_common_component.Ini.Reader.{Text}
use backend_common_component.Strings.{c_string, first}
use backend_common_component.Errors.Kinds.{ErrorInfo, ErrorLevel, level_name, lookup_error, unknown}

pub record SourceLocation : Type 0 where
  pub file : Text
  pub line : ℕ

-- The members of an `Error` but for `m_cause`; the buffer is its bytes up to the last one written.
pub record Frame : Type 0 where
  pub code : ℤ
  pub location : SourceLocation
  pub sbo_buf : List ℕ
  pub heap_buf : Text

-- `m_cause` is null, or owns an error.
pub data Error : Type 0 where
  alone : Frame → Error
  with_cause : Frame → Error → Error

unfoldable pub frame : Error → Frame
frame (alone f) = f
frame (with_cause f e) = f

-- `Error(code, loc)`.
unfoldable pub new_error : ℤ → SourceLocation → Error
new_error code loc = alone (record { code = code; location = loc; sbo_buf = 0 ∷ []; heap_buf = [] })

-- What `snprintf` leaves in a buffer of n + 1 bytes; it does not fail.
abbrev pub printed : ℕ → Text → List ℕ
printed n text = first n text ++ (0 ∷ [])

-- `m_sbo_buf[0] = 0`.
abbrev pub cut_off : List ℕ → List ℕ
cut_off [] = []
cut_off (c ∷ s) = 0 ∷ s

-- `Error(code, loc, fmt, args...)`, for the text that the format gives.
unfoldable pub format_error : ℤ → SourceLocation → Text → Error
format_error code loc text =
    if ltb (length text) 64
    then alone (record { code = code; location = loc; sbo_buf = printed 63 text; heap_buf = [] })
    else alone (record {
      code = code;
      location = loc;
      sbo_buf = cut_off (printed 63 text);
      heap_buf = c_string (printed (length text) text);
    })

-- The copy constructor and, of another object, the copy assignment: the chain is copied.
unfoldable pub copy : Error → Error
copy (alone f) =
    alone
      (record { code = f.code; location = f.location; sbo_buf = f.sbo_buf; heap_buf = f.heap_buf })
copy (with_cause f e) =
    with_cause
      (record { code = f.code; location = f.location; sbo_buf = f.sbo_buf; heap_buf = f.heap_buf })
      (copy e)

-- The move constructor and the move assignment leave the code, the place and the buffer.
unfoldable pub moved_from : Error → Error
unfolding frame
moved_from e = alone (record (frame e) { heap_buf = [] })

-- `caused_by` gives up a cause that was there.
unfoldable pub caused_by : Error → Error → Error
unfolding frame
caused_by e cause = with_cause (frame e) cause

unfoldable pub has_cause : Error → Bool
has_cause (alone f) = false
has_cause (with_cause f e) = true

unfoldable pub cause : Error → Option Error
cause (alone f) = none
cause (with_cause f e) = some e

-- `message` of a frame.
abbrev pub or_heap : List ℕ → Text → Text
or_heap [] heap = heap
or_heap (c ∷ s) heap = if c == 0 then heap else c_string (c ∷ s)

unfoldable pub frame_message : Frame → Text
frame_message f = or_heap f.sbo_buf f.heap_buf

unfoldable pub message : Error → Text
unfolding frame frame_message
message e = frame_message (frame e)

-- The information of a code, or that of an unknown one; a null pointer is not met.
abbrev pub info_of : Option ErrorInfo → ErrorInfo
info_of none = unknown
info_of (some info) = info

-- The empty message gives way to the description of the code.
abbrev pub said : Text → Text → Text
said [] what = what
said (c ∷ s) what = c ∷ s

abbrev pub caused_by_text : Text
caused_by_text =
    10 ∷ b' ' ∷ b' ' ∷ b'c' ∷ b'a' ∷ b'u' ∷ b's' ∷ b'e' ∷ b'd' ∷ b' ' ∷ b'b' ∷ b'y' ∷ b' ' ∷ b':'
    ∷ b' ' ∷ []

abbrev pub indent : ℕ → Text
indent zero = []
indent (suc dept) = caused_by_text

module _ (registered : Option (ℤ → Option ErrorInfo)) (to_text : ℕ → Text) where
  unfoldable pub info : Error → ErrorInfo
  unfolding lookup_error frame
  info e = info_of (lookup_error registered (frame e).code)

  -- `level`, `name` and `what`.
  unfoldable pub level : Error → ErrorLevel
  unfolding info
  level e = (info e).level

  unfoldable pub name : Error → Text
  unfolding info
  name e = (info e).name

  unfoldable pub what : Error → Text
  unfolding info
  what e = (info e).message

  -- `[Level]Name file:line message`.
  unfoldable pub line_of : Frame → Text
  unfolding lookup_error level_name frame_message
  line_of f =
      let i = info_of (lookup_error registered f.code) in
      (b'[' ∷ (level_name i.level ++ (b']' ∷ [])))
      ++ i.name
      ++ (b' ' ∷ [])
      ++ f.location.file
      ++ (b':' ∷ [])
      ++ to_text f.location.line
      ++ (b' ' ∷ [])
      ++ said (frame_message f) i.message

  unfoldable pub format : ℕ → Error → Text
  unfolding line_of
  format dept (alone f) = indent dept ++ line_of f
  format dept (with_cause f e) = indent dept ++ line_of f ++ format (suc dept) e

  unfoldable pub to_string : Error → Text
  unfolding format
  to_string e = format 0 e
