-- ===== src/Ini/Reader.antt =====
-- ini.cpp: `trim`, `load` on the bytes of a file, and `operator[]`. A text is the list of its bytes;
-- `m_ini` and its sections are association lists, searched by `find`.
use backend_common_component.Prelude.{
  ℕ, Bool, true, false, ◌&&◌, ◌||◌, Option, none, some, List, [], ◌∷◌, ◌==◌, if◌then◌else◌,
}

abbrev pub Text : Type 0
Text = List ℕ

abbrev pub Section : Type 0
Section = List (Text × Text)

abbrev pub Ini : Type 0
Ini = List (Text × Section)

abbrev pub text_eq : Text → Text → Bool
text_eq [] [] = true
text_eq [] (_ ∷ _) = false
text_eq (_ ∷ _) [] = false
text_eq (a ∷ s) (b ∷ t) = a == b && text_eq s t

-- The characters of " \t\r\n".
abbrev pub is_blank : ℕ → Bool
is_blank c = c == 32 || (c == 9 || (c == 13 || c == 10))

-- `find_first_not_of` and `substr` from there; the same from the other end.
unfoldable pub trim_start : Text → Text
trim_start [] = []
trim_start (c ∷ s) = if is_blank c then trim_start s else c ∷ s

unfoldable pub trim_end : Text → Text
trim_end [] = []
trim_end (c ∷ s) = elim (trim_end s) [ [] ↦ if is_blank c then [] else c ∷ [] | d ∷ t ↦ c ∷ d ∷ t ]

unfoldable pub trim : Text → Text
unfolding trim_start trim_end
trim s = trim_end (trim_start s)

module _ {ℓ} {V : Type ℓ} where
  unfoldable pub find : Text → List (Text × V) → Option V
  find k [] = none
  find k ((j, v) ∷ m) = if text_eq j k then some v else find k m

  -- `m[k] = v`.
  unfoldable pub put : Text → V → List (Text × V) → List (Text × V)
  put k v [] = (k, v) ∷ []
  put k v ((j, w) ∷ m) = if text_eq j k then (j, v) ∷ m else (j, w) ∷ put k v m

-- `m_ini[section][key] = value`, where `operator[]` makes a section that is missing.
unfoldable pub put_in : Text → Text → Text → Ini → Ini
unfolding find put
put_in section key value ini = elim (find section ini) [
  | none ↦ put section ((key, value) ∷ []) ini
  | some s ↦ put section (put key value s) ini
]

-- What a trimmed line is.
pub data Line : Type 0 where
  skipped : Line
  header : Text → Line
  entry : Text → Text → Line

-- `line.find('=')` and the two `substr`s.
unfoldable pub split_eq : Text → Option (Text × Text)
split_eq [] = none
split_eq (c ∷ s) =
    if c == 61
    then some ([], s)
    else elim (split_eq s) [ none ↦ none | some (k, v) ↦ some (c ∷ k, v) ]

unfoldable pub last_is : ℕ → Text → Bool
last_is b [] = false
last_is b (c ∷ []) = c == b
last_is b (c ∷ d ∷ s) = last_is b (d ∷ s)

unfoldable pub drop_last : Text → Text
drop_last [] = []
drop_last (c ∷ []) = []
drop_last (c ∷ d ∷ s) = c ∷ drop_last (d ∷ s)

-- `line.substr(1, line.size() - 2)`: of "[" alone, whose back is no "]", this is never taken.
unfoldable pub classify : Text → Line
unfolding last_is drop_last split_eq trim
classify [] = skipped
classify (c ∷ s) =
    if c == 35 || c == 59
    then skipped
    else if c == 91 && last_is 93 (c ∷ s)
    then header (trim (drop_last s))
    else elim (split_eq (c ∷ s)) [ none ↦ skipped | some (k, v) ↦ entry (trim k) (trim v) ]

-- The state of `load` between two lines.
pub record State : Type 0 where
  pub ini : Ini
  pub current_section : Text

abbrev pub global_name : Text
global_name = 71 ∷ 108 ∷ 111 ∷ 98 ∷ 97 ∷ 108 ∷ []

unfoldable pub take_entry : Text → Text → Text → Ini → State
unfolding put put_in
take_entry [] key value ini = record {
  ini = put_in global_name key value (put global_name [] ini);
  current_section = global_name;
}
take_entry (c ∷ s) key value ini = record {
  ini = put_in (c ∷ s) key value ini;
  current_section = c ∷ s;
}

unfoldable pub take_line : Line → State → State
unfolding take_entry put
take_line skipped st = st
take_line (header name) st = record { ini = put name [] st.ini; current_section = name }
take_line (entry key value) st = take_entry st.current_section key value st.ini

unfoldable pub load_lines : List Text → State → State
unfolding take_line classify trim
load_lines [] st = st
load_lines (line ∷ lines) st = load_lines lines (take_line (classify (trim line)) st)

-- The lines that `getline` reads: a newline ends each, and the end of the file a last one that is not
-- empty.
unfoldable pub more : ℕ → List Text → List Text
more c [] = (c ∷ []) ∷ []
more c (line ∷ lines) = (c ∷ line) ∷ lines

unfoldable pub get_lines : Text → List Text
unfolding more
get_lines [] = []
get_lines (c ∷ s) = let rest = get_lines s in if c == 10 then [] ∷ rest else more c rest

-- `load`: a file that cannot be opened changes nothing; one that can is read into an empty map.
unfoldable pub load : Option Text → Ini → Ini
unfolding load_lines get_lines
load none ini = ini
load (some file) ini = (load_lines (get_lines file) (record { ini = []; current_section = [] })).ini

-- `operator[]`: `none` is the exception `std::out_of_range`.
unfoldable pub get_section : Text → Ini → Option Section
unfolding find
get_section name ini = find name ini
