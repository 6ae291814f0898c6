-- ===== src/Logger/Levels.antt =====
-- log.cpp: the names of the levels, and the setters of the logger's level.
use backend_common_component.Prelude.{
  ◌≡◌, refl, ap, ◌∙◌, Bool, true, false, Option, none, some, List, [], ◌∷◌, if◌then◌else◌,
}
use backend_common_component.Ini.Reader.{Text, text_eq}
use backend_common_component.Logger.Sink.{LogLevel, debug, info, warning, error, fatal, Logger}

-- `LogLevel_to_cstr`, which reads `kLevelNames`.
unfoldable pub level_to_cstr : LogLevel → Text
level_to_cstr debug = b'D' ∷ b'E' ∷ b'B' ∷ b'U' ∷ b'G' ∷ []
level_to_cstr info = b'I' ∷ b'N' ∷ b'F' ∷ b'O' ∷ []
level_to_cstr warning = b'W' ∷ b'A' ∷ b'R' ∷ b'N' ∷ b'I' ∷ b'N' ∷ b'G' ∷ []
level_to_cstr error = b'E' ∷ b'R' ∷ b'R' ∷ b'O' ∷ b'R' ∷ []
level_to_cstr fatal = b'F' ∷ b'A' ∷ b'T' ∷ b'A' ∷ b'L' ∷ []

-- The levels in the order of their numbers.
abbrev levels : List LogLevel
levels = debug ∷ info ∷ warning ∷ error ∷ fatal ∷ []

-- The loop over the names: the first level of a name.
unfoldable pub find_level : Text → List LogLevel → Option LogLevel
unfolding level_to_cstr
find_level s [] = none
find_level s (l ∷ ls) = if text_eq s (level_to_cstr l) then some l else find_level s ls

-- `string_to_LogLevel`, with its default.
unfoldable pub string_to_level : Text → LogLevel
unfolding find_level
string_to_level s = elim (find_level s levels) [ none ↦ info | some l ↦ l ]

unfoldable pub set_level : LogLevel → Logger → Logger
set_level level l = record l { config = record (l.config) { level = level } }

-- `set_level_str`: a name that is none of the levels changes nothing.
unfoldable pub set_level_str : Text → Logger → Bool × Logger
unfolding find_level string_to_level set_level
set_level_str s l = elim (find_level s levels) [
  | none ↦ (false, l)
  | some _ ↦ (true, set_level (string_to_level s) l)
]

pub string_to_level-level_to_cstr : (l : LogLevel) → string_to_level (level_to_cstr l) ≡ l
unfolding string_to_level find_level level_to_cstr
string_to_level-level_to_cstr debug = refl
string_to_level-level_to_cstr info = refl
string_to_level-level_to_cstr warning = refl
string_to_level-level_to_cstr error = refl
string_to_level-level_to_cstr fatal = refl

pub set_level_str-level_to_cstr :
    (level : LogLevel) (l : Logger)
    → set_level_str (level_to_cstr level) l
      ≡ (true, record l { config = record (l.config) { level = level } })
unfolding set_level_str set_level string_to_level find_level level_to_cstr
set_level_str-level_to_cstr debug l = refl
set_level_str-level_to_cstr info l = refl
set_level_str-level_to_cstr warning l = refl
set_level_str-level_to_cstr error l = refl
set_level_str-level_to_cstr fatal l = refl

pub set_level_str-named :
    (s : Text) (level : LogLevel) (l : Logger)
    → s ≡ level_to_cstr level
    → (set_level_str s l).1.config.level ≡ level
set_level_str-named s level l e =
    ap (λ (t : Text). (set_level_str t l).1.config.level) e
    ∙ ap (λ (x : Bool × Logger). x.1.config.level) (set_level_str-level_to_cstr level l)
