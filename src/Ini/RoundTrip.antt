-- ===== src/Ini/RoundTrip.antt =====
-- Reading back what a well-formed configuration is written as. The library has no writer for files;
-- `render` is the standard form that its README describes: a header line for each section, a line
-- `key=value` for each entry; `write` is the file with these lines.
use backend_common_component.Prelude.{
  ◌≡◌, refl, Bool, true, false, not, ◌&&◌, none, some, List, [], ◌∷◌, ◌++◌, arith, ◌==◌, ◌∙◌, ap,
  sym,
}
use mathlib.Core.List.{append-nil, append_assoc}
use backend_common_component.Ini.Reader.{
  Text, Section, Ini, trim, find, put, put_in, header, entry, classify, State, take_entry,
  take_line, load_lines, more, get_lines, load,
}
use backend_common_component.Ini.Texts.{
  starts_clean, ends_clean, one_line, one_line-append, FitsLine, trim-clean, last_is-append,
  drop_last-append, plain, split_eq-append, ends_clean-append, find-append, find-put, put-fresh,
  put-last,
}

abbrev pub header_line : Text → Text
header_line name = 91 ∷ (name ++ (93 ∷ []))

abbrev pub entry_line : Text × Text → Text
entry_line (k, v) = k ++ (61 ∷ v)

abbrev pub entry_lines : Section → List Text
entry_lines [] = []
entry_lines (e ∷ s) = entry_line e ∷ entry_lines s

abbrev pub render : Ini → List Text
render [] = []
render ((name, s) ∷ ini) = header_line name ∷ (entry_lines s ++ render ini)

-- A key can be written: it fits a line, has no `=`, and does not look like a comment or a header.
abbrev pub starts_plain : Text → Bool
starts_plain [] = true
starts_plain (c ∷ _) = not (c == 35) && (not (c == 59) && not (c == 91))

-- The entries can follow those of `before`, all keys being different.
abbrev pub AreEntries : Section → Section → Type 0
AreEntries before [] = Unit {0}
AreEntries before ((k, v) ∷ s) =
    FitsLine k
    × FitsLine v
    × (plain k ≡ true)
    × (starts_plain k ≡ true)
    × (find k before ≡ none)
    × AreEntries (before ++ ((k, v) ∷ [])) s

abbrev pub is_empty : Text → Bool
is_empty [] = true
is_empty (_ ∷ _) = false

-- The sections can follow those of `before`: names fit a line, are not empty and different.
abbrev pub AreSections : Ini → Ini → Type 0
AreSections before [] = Unit {0}
AreSections before ((name, s) ∷ ini) =
    FitsLine name
    × (is_empty name ≡ false)
    × (find name before ≡ none)
    × AreEntries [] s
    × AreSections (before ++ ((name, s) ∷ [])) ini

header_line-FitsLine : (name : Text) → FitsLine name → FitsLine (header_line name)
header_line-FitsLine name h =
    (refl, ends_clean-append (91 ∷ name) 93 [] refl, one_line-append name (93 ∷ []) h.2 refl)

classify-header : (name : Text) → FitsLine name → classify (header_line name) ≡ header name
unfolding classify
classify-header name h =
    ground (arith, last_is-append 93 (91 ∷ name), drop_last-append 93 name, trim-clean name h)

ends_clean-cons_eq : (v : Text) → ends_clean v ≡ true → ends_clean (61 ∷ v) ≡ true
ends_clean-cons_eq [] h = refl
ends_clean-cons_eq (c ∷ v) h = h

starts_clean-entry : (k v : Text) → starts_clean k ≡ true → starts_clean (k ++ (61 ∷ v)) ≡ true
starts_clean-entry [] v h = refl
starts_clean-entry (c ∷ k) v h = h

entry_line-FitsLine : (k v : Text) → FitsLine k → FitsLine v → FitsLine (entry_line (k, v))
entry_line-FitsLine k v h g = (
  starts_clean-entry k v h.0,
  ends_clean-append k 61 v (ends_clean-cons_eq v g.1),
  one_line-append k (61 ∷ v) h.2 g.2,
)

classify-entry :
    (k v : Text)
    → FitsLine k
    → FitsLine v
    → plain k ≡ true
    → starts_plain k ≡ true
    → classify (entry_line (k, v)) ≡ entry k v
unfolding classify
classify-entry [] v h g p q =
    ground (arith, split_eq-append [] v refl, trim-clean v g, trim-clean [] h)
classify-entry (c ∷ k) v h g p q =
    ground (arith, split_eq-append (c ∷ k) v p, trim-clean v g, trim-clean (c ∷ k) h)

abbrev at_section : Ini → Text → Section → State
at_section before name s = record { ini = before ++ ((name, s) ∷ []); current_section = name }

take_entry-last :
    (before : Ini) (name : Text) (s : Section) (k v : Text)
    → is_empty name ≡ false
    → find name before ≡ none
    → find k s ≡ none
    → take_line (entry k v) (at_section before name s) ≡ at_section before name (s ++ ((k, v) ∷ []))
unfolding take_line take_entry put_in
take_entry-last before [] s k v e f g = cc
take_entry-last before (c ∷ name) s k v e f g = ground (
  arith,
  find-append (c ∷ name) s before f,
  put-last (c ∷ name) (put k v s) s before f,
  put-fresh k v s g,
)

load-cons :
    (line : Text) (lines : List Text) (st : State)
    → load_lines (line ∷ lines) st ≡ load_lines lines (take_line (classify (trim line)) st)
unfolding load_lines
load-cons line lines st = refl

load-entries :
    (before : Ini) (name : Text) (s es : Section) (rest : List Text)
    → is_empty name ≡ false
    → find name before ≡ none
    → AreEntries s es
    → load_lines (entry_lines es ++ rest) (at_section before name s)
      ≡ load_lines rest (at_section before name (s ++ es))
load-entries before name s [] rest e f h = rw (append-nil s) refl
load-entries before name s ((k, v) ∷ es) rest e f (tk, tv, p, q, g, h) =
    let line = trim-clean (entry_line (k, v)) (entry_line-FitsLine k v tk tv) in
    let step = take_entry-last before name s k v e f g in
    let ih = load-entries before name (s ++ ((k, v) ∷ [])) es rest e f h in
    load-cons (entry_line (k, v)) (entry_lines es ++ rest) (at_section before name s)
    ∙ rw (line, classify-entry k v tk tv p q, step)
        (ih
          ∙ ap (λ x. load_lines rest (at_section before name x)) (append_assoc s ((k, v) ∷ []) es))

header-step :
    (before : Ini) (name current : Text)
    → FitsLine name
    → find name before ≡ none
    → take_line
        (classify (trim (header_line name)))
        (record { ini = before; current_section = current })
      ≡ at_section before name []
unfolding take_line
header-step before name current t f = ground (
  arith,
  trim-clean (header_line name) (header_line-FitsLine name t),
  classify-header name t,
  put-fresh name [] before f,
)

load-sections :
    (before ini : Ini) (current : Text)
    → AreSections before ini
    → (load_lines (render ini) (record { ini = before; current_section = current })).ini
      ≡ before ++ ini
unfolding load_lines
load-sections before [] current h = sym (append-nil before)
load-sections before ((name, s) ∷ ini) current (t, n, f, es, h) =
    let rest = entry_lines s ++ render ini in
    let st : State = record { ini = before; current_section = current } in
    let read : load_lines (header_line name ∷ rest) st
        ≡ load_lines rest (at_section before name []) =
      load-cons (header_line name) rest st
      ∙ ap (load_lines rest) (header-step before name current t f) in
    ap (λ (x : State). x.ini) (read ∙ load-entries before name [] s (render ini) n f es)
    ∙ (load-sections (before ++ ((name, s) ∷ [])) ini name h
        ∙ append_assoc before ((name, s) ∷ []) ini)

-- The file with these lines.
abbrev pub write : List Text → Text
write [] = []
write (line ∷ lines) = line ++ (10 ∷ write lines)

get_lines-line :
    (line rest : Text)
    → one_line line ≡ true
    → get_lines (line ++ (10 ∷ rest)) ≡ line ∷ get_lines rest
unfolding get_lines more
get_lines-line [] rest h = refl
get_lines-line (c ∷ line) rest h = ground (arith, get_lines-line line rest)

get_lines-entries :
    (before es : Section) (rest : List Text)
    → AreEntries before es
    → get_lines (write rest) ≡ rest
    → get_lines (write (entry_lines es ++ rest)) ≡ entry_lines es ++ rest
get_lines-entries before [] rest h e = e
get_lines-entries before ((k, v) ∷ es) rest (tk, tv, p, q, g, h) e =
    let line = entry_line (k, v) in
    let later = get_lines-entries (before ++ ((k, v) ∷ [])) es rest h e in
    get_lines-line line (write (entry_lines es ++ rest)) (entry_line-FitsLine k v tk tv).2
    ∙ ap (λ (ls : List Text). line ∷ ls) later

get_lines-render :
    (before ini : Ini) → AreSections before ini → get_lines (write (render ini)) ≡ render ini
unfolding get_lines
get_lines-render before [] h = refl
get_lines-render before ((name, s) ∷ ini) (t, n, f, es, h) =
    let later = get_lines-render (before ++ ((name, s) ∷ [])) ini h in
    get_lines-line (header_line name) (write (entry_lines s ++ render ini))
      (header_line-FitsLine name t).2
    ∙ ap (λ (ls : List Text). header_line name ∷ ls) (get_lines-entries [] s (render ini) es later)

-- A configuration with different, non-empty section names, and in each section different keys without
-- `=` that do not begin like a comment or a header, where no name, key or value has a newline or blanks
-- at its ends, is read back as it is from the file in its standard form, whatever was loaded before.
pub load-render : (ini old : Ini) → AreSections [] ini → load (some (write (render ini))) old ≡ ini
unfolding load
load-render ini old h =
    ap (λ (ls : List Text). (load_lines ls (record { ini = []; current_section = [] })).ini)
      (get_lines-render [] ini h)
    ∙ load-sections [] ini [] h

-- A header that comes again erases what was read of its section so far.
pub repeated_header :
    (before : Ini) (name current : Text)
    → find name (take_line (header name) (record { ini = before; current_section = current })).ini
      ≡ some []
unfolding take_line
repeated_header before name current = find-put name [] before
