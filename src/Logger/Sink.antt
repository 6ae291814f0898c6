-- ===== src/Logger/Sink.antt =====
-- log.cpp, and the end of `Logger::log` in log.h: levels, the buffer of the file, rotation. A text is
-- the list of its bytes. The file system enters by the outcomes of its calls.
use backend_common_component.Prelude.{
  ℕ, ◌+◌, ◌≤◌, ◌<◌, ◌≡◌, Bool, true, false, not, ◌&&◌, ◌||◌, List, [], ◌∷◌, ◌++◌, ◌==◌, arith, leb,
  ltb, length, if◌then◌else◌, Option, none, some,
}
use mathlib.Core.List.{append-nil}

pub data LogLevel : Type 0 where
  debug info warning error fatal : LogLevel

-- `static_cast<int>(level)`.
abbrev pub rank : LogLevel → ℕ
rank debug = 0
rank info = 1
rank warning = 2
rank error = 3
rank fatal = 4

pub record LogConfig : Type 0 where
  pub has_file_name : Bool
  pub level : LogLevel
  pub console : Bool
  pub max_lines : ℕ

-- The state of the logger, with the text of the current file, the backups by the second in their
-- names, and what went to the console.
pub record Logger : Type 0 where
  pub config : LogConfig
  pub is_open : Bool
  pub buffer : List ℕ
  pub cur_lines : ℕ
  pub initialized : Bool
  pub file : List ℕ
  pub backups : List (ℕ × List ℕ)
  pub printed : List ℕ

-- `flush_buffer`.
unfoldable pub flush_buffer : Logger → Logger
flush_buffer l =
    if leb (length l.buffer) 0 || not l.is_open
    then l
    else record l { file = l.file ++ l.buffer; buffer = [] }

-- What the clock and the file system answer during a rotation: the second that names the backup,
-- `rename`, `remove`, and the opening of the new file.
pub record Rotation : Type 0 where
  pub second : ℕ
  pub renamed : Bool
  pub removed : Bool
  pub opened : Bool

-- `rename` to the name of a backup, which replaces one that has it.
unfoldable pub rename : ℕ → List ℕ → List (ℕ × List ℕ) → List (ℕ × List ℕ)
rename second text [] = (second, text) ∷ []
rename second text ((name, old) ∷ backups) =
    if name == second then (name, text) ∷ backups else (name, old) ∷ rename second text backups

-- `rotate`.
unfoldable pub rotate : Rotation → Logger → Logger
unfolding flush_buffer rename
rotate r l =
    if not l.config.has_file_name
    then l
    else let m = flush_buffer l in
      record m {
        is_open = r.opened;
        cur_lines = 0;
        backups = if r.renamed then rename r.second m.file m.backups else m.backups;
        file = if r.renamed || r.removed then [] else m.file;
      }

-- `init`: `old` is the number of lines of the file if it can be read.
unfoldable pub init : LogConfig → Option ℕ → Bool → List ℕ → Logger → Logger
unfolding flush_buffer
init config old opened text l =
    let m = if l.initialized then flush_buffer l else l in
    record m {
      config = config;
      is_open = config.has_file_name && opened;
      buffer = [];
      cur_lines = if config.has_file_name then elim old [ none ↦ 0 | some n ↦ n ] else 0;
      initialized = true;
      file = text;
    }

-- `shutdown`.
unfoldable pub shutdown : Logger → Logger
unfolding flush_buffer
shutdown l =
    if l.initialized then record (flush_buffer l) { is_open = false; initialized = false } else l

-- The last block of `log`: the line goes to the console, and to the buffer if the file is open. The
-- `memcpy` ends at the length of the buffer.
unfoldable pub make_room : List ℕ → Logger → Logger
unfolding flush_buffer
make_room line l = if ltb 4096 (length l.buffer + length line) then flush_buffer l else l

unfoldable pub store : LogLevel → List ℕ → Logger → Logger
unfolding make_room flush_buffer
store level line l =
    let m = make_room line l in
    let n : Logger = record m { buffer = m.buffer ++ line } in
    if leb 3 (rank level) || leb 2048 (length n.buffer) then flush_buffer n else n

unfoldable pub write_line : LogLevel → List ℕ → Logger → Logger
unfolding store
write_line level line l =
    let m : Logger = record l {
      printed = if l.config.console then l.printed ++ line else l.printed;
    } in
    let n = if m.is_open then store level line m else m in record n { cur_lines = n.cur_lines + 1 }

unfoldable pub rotate_if_full : Rotation → Logger → Logger
unfolding rotate
rotate_if_full r l =
    if ltb 0 l.config.max_lines && leb l.config.max_lines l.cur_lines then rotate r l else l

-- `log`, with the line that `format_line` is about.
unfoldable pub log : Rotation → LogLevel → List ℕ → Logger → Logger
unfolding rotate_if_full write_line
log r level line l =
    if ltb (rank level) (rank l.config.level) then l else write_line level line (rotate_if_full r l)

-- Between two calls the buffer is less than half full.
abbrev pub IsSettled : Logger → Type 0
IsSettled l = length l.buffer < 2048

-- What the open file and the buffer hold together.
abbrev pub contents : Logger → List ℕ
contents l = l.file ++ l.buffer

pub flush_buffer-contents : (l : Logger) → contents (flush_buffer l) ≡ contents l
unfolding flush_buffer
flush_buffer-contents l = ground (arith, append-nil (l.file ++ l.buffer))

pub flush_buffer-empty : (l : Logger) → l.is_open ≡ true → length (flush_buffer l).buffer ≡ 0
unfolding flush_buffer
flush_buffer-empty l o = ground arith

pub flush_buffer-open : (l : Logger) → (flush_buffer l).is_open ≡ l.is_open
unfolding flush_buffer
flush_buffer-open l = ground arith

-- The `memcpy` of a line of at most 4095 bytes stays in the buffer of 4096 bytes.
pub make_room_bounds :
    (line : List ℕ) (l : Logger)
    → l.is_open ≡ true
    → IsSettled l
    → length line < 4096
    → length (make_room line l).buffer + length line ≤ 4096
unfolding make_room
make_room_bounds line l o s h = ground (arith, flush_buffer-empty l o)
