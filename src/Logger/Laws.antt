-- ===== src/Logger/Laws.antt =====
-- What a sequence of log calls leaves in the files.
use backend_common_component.Prelude.{
  ℕ, ◌+◌, ◌≤◌, ◌<◌, ◌≡◌, refl, Bool, true, false, ◌&&◌, ◌||◌, ◌==◌, ltb, Bool-cases, inl, inr, List,
  [], ◌∷◌, ◌++◌, arith, leb, length, if◌then◌else◌, ◌∙◌, sym,
}
use mathlib.Core.List.{append_assoc, append-nil}
use backend_common_component.Logger.Sink.{
  LogLevel, rank, Logger, Rotation, flush_buffer, rename, rotate, make_room, store, write_line,
  rotate_if_full, log, IsSettled, contents, flush_buffer-empty,
}

-- The open logger between two calls.
pub record IsReady (l : Logger) : Type 0 where
  pub named : l.config.has_file_name ≡ true
  pub opened : l.is_open ≡ true
  pub settled : IsSettled l

abbrev pub backup_text : List (ℕ × List ℕ) → List ℕ
backup_text [] = []
backup_text ((second, text) ∷ backups) = text ++ backup_text backups

-- All text on its way to the disk: backups, the file and the buffer.
abbrev pub all_text : Logger → List ℕ
all_text l = backup_text l.backups ++ contents l

-- Whether there is a backup of a second.
abbrev pub present : ℕ → List (ℕ × List ℕ) → Bool
present second [] = false
present second ((name, _) ∷ backups) = name == second || present second backups

rename-text :
    (second : ℕ) (text : List ℕ) (backups : List (ℕ × List ℕ))
    → present second backups ≡ false
    → backup_text (rename second text backups) ≡ backup_text backups ++ text
unfolding rename
rename-text second text [] h = append-nil text
rename-text second text ((name, old) ∷ backups) h =
    ground (arith, rename-text second text backups, append_assoc old (backup_text backups) text)

-- A call that rotates does so in the second of a backup that exists.
abbrev pub clashes : Rotation → LogLevel → Logger → Bool
clashes r level l =
    leb (rank l.config.level) (rank level)
    && (ltb 0 l.config.max_lines
        && (leb l.config.max_lines l.cur_lines && present r.second l.backups))

-- What an operation that keeps the text and the settings leaves.
abbrev Extends : List ℕ → Logger → Logger → Type 0
Extends line l m =
    (contents m ≡ contents l ++ line)
    × (m.backups ≡ l.backups)
    × (m.config ≡ l.config)
    × (m.cur_lines ≡ l.cur_lines)
    × (m.is_open ≡ l.is_open)

flush_buffer-Extends : (l : Logger) → Extends [] l (flush_buffer l)
unfolding flush_buffer
flush_buffer-Extends l = ground (arith, append-nil (l.file ++ l.buffer))

make_room-Extends : (line : List ℕ) (l : Logger) → Extends [] l (make_room line l)
unfolding make_room
make_room-Extends line l = ground (arith, flush_buffer-Extends l, append-nil (l.file ++ l.buffer))

-- Storing a line appends exactly that line to the text of the file, and leaves the buffer less than
-- half full, empty for errors.
store-Extends :
    (level : LogLevel) (line : List ℕ) (l : Logger)
    → l.is_open ≡ true
    → Extends line l (store level line l)
      × (length (store level line l).buffer < 2048)
      × (3 ≤ rank level → length (store level line l).buffer ≡ 0)
unfolding store
store-Extends level line l o =
    let m = make_room line l in
    let (kept, b, c, d, e) = make_room-Extends line l in
    let n : Logger = record m { buffer = m.buffer ++ line } in
    ground (
      arith,
      kept,
      b,
      c,
      d,
      e,
      append-nil (contents l),
      append_assoc m.file m.buffer line,
      flush_buffer-Extends n,
      append-nil (contents n),
      flush_buffer-empty n,
    )

length-zero : (xs : List ℕ) → length xs ≡ 0 → xs ≡ []
length-zero [] h = refl
length-zero (x ∷ xs) h = absurd (omega arith)

-- A rotation whose renaming and opening succeed moves the text of file and buffer to a new backup.
rotate-text :
    (r : Rotation) (l : Logger)
    → IsReady l
    → present r.second l.backups ≡ false
    → r.renamed ≡ true
    → r.opened ≡ true
    → (all_text (rotate r l) ≡ all_text l)
      × IsReady (rotate r l)
      × ((rotate r l).cur_lines ≡ 0)
      × ((rotate r l).config ≡ l.config)
unfolding rotate
rotate-text r l v a n o =
    let (kept, b, c, d, e) = flush_buffer-Extends l in
    let m = flush_buffer l in
    ground (
      arith,
      v.named,
      v.opened,
      kept,
      b,
      c,
      flush_buffer-empty l v.opened,
      append-nil (contents l),
      append-nil m.file,
      append-nil (backup_text m.backups ++ m.file),
      length-zero m.buffer,
      rename-text r.second m.file m.backups,
      append_assoc (backup_text l.backups) l.file l.buffer,
      a,
    )

rotate_if_full-text :
    (r : Rotation) (l : Logger)
    → IsReady l
    → (ltb 0 l.config.max_lines
        && (leb l.config.max_lines l.cur_lines && present r.second l.backups))
      ≡ false
    → r.renamed ≡ true
    → r.opened ≡ true
    → (all_text (rotate_if_full r l) ≡ all_text l)
      × IsReady (rotate_if_full r l)
      × ((rotate_if_full r l).config ≡ l.config)
      × (0 < l.config.max_lines
          → l.cur_lines ≤ l.config.max_lines
          → (rotate_if_full r l).cur_lines < l.config.max_lines)
unfolding rotate_if_full
rotate_if_full-text r l v a n o =
    elim (Bool-cases (ltb 0 l.config.max_lines && leb l.config.max_lines l.cur_lines)) [
      | inl full ↦
          let absent : present r.second l.backups ≡ false = ground (arith, a, full) in
          ground (arith, v, full, rotate-text r l v absent n o)
      | inr room ↦ ground (arith, v, room)
    ]

write_line-text :
    (level : LogLevel) (line : List ℕ) (l : Logger)
    → IsReady l
    → let m = write_line level line l in
      (all_text m ≡ all_text l ++ line)
      × IsReady m
      × (m.config ≡ l.config)
      × (3 ≤ rank level → length m.buffer ≡ 0)
      × (m.cur_lines ≡ l.cur_lines + 1)
unfolding write_line
write_line-text level line l v =
    let p : Logger = record l {
      printed = if l.config.console then l.printed ++ line else l.printed;
    } in
    ground (
      arith,
      v.named,
      v.opened,
      store-Extends level line p,
      append_assoc (backup_text l.backups) (contents l) line,
    )

-- A call of `log` in the open logger, whose rotation, if it needs one, succeeds, in a second that no
-- backup has in its name: a line below the
-- level changes nothing, any other is appended to the text, exactly once; an error is on disk when
-- the call returns; the line count stays within the maximum.
pub log_lem :
    (r : Rotation) (level : LogLevel) (line : List ℕ) (l : Logger)
    → IsReady l
    → clashes r level l ≡ false
    → r.renamed ≡ true
    → r.opened ≡ true
    → let m = log r level line l in
      let shown = leb (rank l.config.level) (rank level) in
      (all_text m ≡ all_text l ++ (if shown then line else []))
      × IsReady m
      × (m.config ≡ l.config)
      × (shown ≡ true → 3 ≤ rank level → length m.buffer ≡ 0)
      × (0 < l.config.max_lines
          → l.cur_lines ≤ l.config.max_lines
          → m.cur_lines ≤ l.config.max_lines)
unfolding log
log_lem r level line l v a n o =
    let m = rotate_if_full r l in
    elim (Bool-cases (leb (rank l.config.level) (rank level))) [
      | inl shown ↦
          let (same, ready, config, room) =
            rotate_if_full-text r l v (ground (arith, a, shown)) n o in
          let (grown, w, c, e, k) = write_line-text level line m ready in
          ground (arith, v, same, config, room, grown, w, c, e, k, shown)
      | inr hidden ↦ ground (arith, v, hidden, append-nil (all_text l))
    ]

-- A sequence of calls, each with what the file system would answer to a rotation.
pub run : List (Rotation × LogLevel × List ℕ) → Logger → Logger
run [] l = l
run ((r, level, line) ∷ xs) l = run xs (log r level line l)

-- The lines of a sequence that are not below a level, one behind the other.
abbrev pub shown_text : LogLevel → List (Rotation × LogLevel × List ℕ) → List ℕ
shown_text least [] = []
shown_text least ((r, level, line) ∷ xs) =
    (if leb (rank least) (rank level) then line else []) ++ shown_text least xs

-- The rotations of a sequence succeed, each in a second that no backup has in its name.
abbrev pub RotationsSucceed : List (Rotation × LogLevel × List ℕ) → Logger → Type 0
RotationsSucceed [] l = Unit {0}
RotationsSucceed ((r, level, line) ∷ xs) l =
    (clashes r level l ≡ false)
    × (r.renamed ≡ true)
    × (r.opened ≡ true)
    × RotationsSucceed xs (log r level line l)

-- Through any sequence of calls of `log` in the open logger whose rotations succeed, each in a second
-- that no backup has in its name, no line at or above the level is lost, doubled or reordered:
-- backups, file and buffer together hold what they held, and then the lines.
pub run-text :
    (xs : List (Rotation × LogLevel × List ℕ)) (l : Logger)
    → IsReady l
    → RotationsSucceed xs l
    → (all_text (run xs l) ≡ all_text l ++ shown_text l.config.level xs) × IsReady (run xs l)
unfolding run
run-text [] l v h = (sym (append-nil (all_text l)), v)
run-text ((r, level, line) ∷ xs) l v (a, n, o, h) =
    let m = log r level line l in
    let (text, ready, config, e, k) = log_lem r level line l v a n o in
    let (later, still) = run-text xs m ready h in
    let shown = if leb (rank l.config.level) (rank level) then line else [] in
    (
      later ∙ (rw (config, text) (append_assoc (all_text l) shown (shown_text l.config.level xs))),
      still,
    )
