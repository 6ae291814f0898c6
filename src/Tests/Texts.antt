-- ===== src/Tests/Texts.antt =====
-- The INI reader and the logger at small inputs.
use backend_common_component.Prelude.{
  negsuc, ◌≡◌, true, false, refl, ℕ, ◌≤◌, ◌<◌, some, List, [], ◌∷◌, ◌++◌, arith, length, leb,
  if◌then◌else◌,
}
use Prim.Native.Char.{code}
use Prim.Native.String.{String}
use backend_common_component.Ini.Values.{
  to_bool, from_bool, to_int, from_int, to_text, from_text, value-back,
}
use backend_common_component.Ini.Reader.{Text, Ini, find, load, take_line, header}
use backend_common_component.Ini.RoundTrip.{
  render, write, load-render, repeated_header, AreSections,
}
use backend_common_component.Logger.Sink.{LogLevel, debug, info, error, rank, Logger, Rotation, log}
use backend_common_component.Logger.Format.{
  appended, format_line, format_line_bounds, stack_buf_size,
}
use backend_common_component.Logger.Laws.{
  IsReady, all_text, log_lem, run, run-text, shown_text, RotationsSucceed,
}

abbrev codes : String → Text
codes String.[] = []
codes (String.◌∷◌ c s) = code c ∷ codes s

abbrev sample : Text
sample = codes "; a comment\n [db] \r\nhost = h \n\nport=3306"

abbrev db_section : Ini
db_section = (codes "db", (codes "host", codes "h") ∷ (codes "port", codes "3306") ∷ []) ∷ []

sample_loads : load (some sample) [] ≡ db_section
unfolding load
sample_loads = refl

-- An empty header sends the next entry to "Global", and erases what was there.
global_erased :
    load (some (codes "a=1\n[]\nb=2")) []
    ≡ (codes "Global", (codes "b", codes "2") ∷ []) ∷ ([], []) ∷ []
unfolding load
global_erased = refl

db_section-AreSections : AreSections [] db_section
unfolding find
db_section-AreSections = (
  (refl, refl, refl),
  refl,
  refl,
  (
    (refl, refl, refl),
    (refl, refl, refl),
    refl,
    refl,
    refl,
    ((refl, refl, refl), (refl, refl, refl), refl, refl, refl, tt),
  ),
  tt,
)

load-render_example : load (some (write (render db_section))) [] ≡ db_section
load-render_example = load-render db_section [] db_section-AreSections

repeated_header_example :
    find
      (codes "db")
      (take_line (header (codes "db")) (record { ini = db_section; current_section = [] })).ini
    ≡ some []
repeated_header_example = repeated_header db_section (codes "db") []

-- The time stamp has 23 bytes; the message is longer than the buffer.
format_line_bounds_example :
    let c = format_line 23 30 (appended (5000 ∷ 7 ∷ [])) in
    (c.touched ≤ stack_buf_size) × (0 < c.offset) × (c.offset < stack_buf_size)
format_line_bounds_example = format_line_bounds 23 30 (appended (5000 ∷ 7 ∷ [])) (omega arith)

abbrev open_logger : Logger
open_logger = record {
  config = record { has_file_name = true; level = info; console = false; max_lines = 2 };
  is_open = true;
  buffer = [];
  cur_lines = 2;
  initialized = true;
  file = 1 ∷ 10 ∷ 2 ∷ 10 ∷ [];
  backups = [];
  printed = [];
}

open_logger-IsReady : IsReady open_logger
open_logger-IsReady = record { named = refl; opened = refl; settled = omega arith }

abbrev works_well : Rotation
works_well = record { second = 0; renamed = true; removed = false; opened = true }

log_lem_example :
    let m = log works_well error (3 ∷ 10 ∷ []) open_logger in
    let shown = leb (rank info) (rank error) in
    (all_text m ≡ all_text open_logger ++ (if shown then 3 ∷ 10 ∷ [] else []))
    × IsReady m
    × (m.config ≡ open_logger.config)
    × (shown ≡ true → 3 ≤ rank error → length m.buffer ≡ 0)
    × (0 < 2 → 2 ≤ 2 → m.cur_lines ≤ 2)
log_lem_example =
    log_lem works_well error (3 ∷ 10 ∷ []) open_logger open_logger-IsReady refl refl refl

abbrev three_calls : List (Rotation × LogLevel × List ℕ)
three_calls =
    (works_well, info, 3 ∷ 10 ∷ [])
    ∷ (works_well, debug, 4 ∷ 10 ∷ [])
    ∷ (works_well, error, 5 ∷ 10 ∷ [])
    ∷ []

three_calls-RotationsSucceed : RotationsSucceed three_calls open_logger
unfolding log
three_calls-RotationsSucceed = (refl, refl, refl, (refl, refl, refl, (refl, refl, refl, tt)))

run-text_example :
    (all_text (run three_calls open_logger) ≡ all_text open_logger ++ shown_text info three_calls)
    × IsReady (run three_calls open_logger)
run-text_example = run-text three_calls open_logger open_logger-IsReady three_calls-RotationsSucceed

value-back_example :
    (to_bool (from_bool true) ≡ true)
    × (to_int (from_int (negsuc 2146)) ≡ negsuc 2146)
    × (to_text (from_text (codes "a b")) ≡ codes "a b")
value-back_example = value-back true (negsuc 2146) (codes "a b")

-- A number may stand behind blanks and before other characters.
number_in_text : to_int (from_text (codes " -12 ms")) ≡ negsuc 11
unfolding to_int from_text
number_in_text = refl

-- Only one spelling is true.
other_spelling : to_bool (from_text (codes "True")) ≡ false
unfolding to_bool from_text
other_spelling = refl
