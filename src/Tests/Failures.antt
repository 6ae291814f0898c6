-- ===== src/Tests/Failures.antt =====
-- Errors of the program at concrete codes and texts.
use backend_common_component.Prelude.{ℕ, ◌≡◌, refl, Option, none, some, [], ◌∷◌, ◌++◌, map, ℤ, pos}
use backend_common_component.Ini.Reader.{Text}
use backend_common_component.Errors.Kinds.{ErrorInfo, lookup_error, warning}
use backend_common_component.Errors.Chain.{
  SourceLocation, Error, new_error, format_error, frame, message, line_of, to_string, caused_by,
}
use backend_common_component.Errors.Laws.{
  message-format_error, causes, flatten, cause_line, to_string-lines,
}

abbrev here : SourceLocation
here = record { file = b'a' ∷ b'.' ∷ b'c' ∷ []; line = 7 }

message-format_error_example :
    message (format_error (pos 4) here (b'n' ∷ b'o' ∷ [])) ≡ b'n' ∷ b'o' ∷ []
message-format_error_example = message-format_error (pos 4) here (b'n' ∷ b'o' ∷ []) refl

abbrev digit : ℕ → Text
digit _ = b'7' ∷ []

abbrev two_errors : Error
two_errors = caused_by (new_error (pos 6) here) (new_error (pos 4) here)

to_string-lines_example :
    to_string none digit two_errors
    ≡ line_of none digit (frame two_errors)
      ++ flatten (map (cause_line none digit) (causes two_errors))
to_string-lines_example = to_string-lines none digit two_errors

-- The program's own code 1001, and nothing else.
abbrev own_info : ErrorInfo
own_info = record { code = pos 1001; name = b'O' ∷ []; message = b'o' ∷ []; level = warning }

abbrev own_table : ℤ → Option ErrorInfo
own_table _ = some own_info

own_found : lookup_error (some own_table) (pos 1001) ≡ some own_info
unfolding lookup_error
own_found = refl

builtin_found :
    (info : ErrorInfo) × (lookup_error (some own_table) (pos 4) ≡ some info) × (info.code ≡ pos 4)
unfolding lookup_error
builtin_found = (_, refl, refl)
