-- ===== src/Errors/Kinds.antt =====
-- error_kind.h and error_kind.cpp: the levels and the table of the built-in error codes. A table that
-- the program registers for its own codes is a parameter, none where no function is registered.
use backend_common_component.Prelude.{
  Option, none, some, List, [], ◌∷◌, if◌then◌else◌, ℤ, pos, eq_ℤ,
}
use backend_common_component.Ini.Reader.{Text}

pub data ErrorLevel : Type 0 where
  avoid cbc warning fatal : ErrorLevel

unfoldable pub level_name : ErrorLevel → Text
level_name avoid = b'A' ∷ b'v' ∷ b'o' ∷ b'i' ∷ b'd' ∷ []
level_name cbc =
    b'C' ∷ b'a' ∷ b's' ∷ b'e' ∷ b' ' ∷ b'B' ∷ b'y' ∷ b' ' ∷ b'C' ∷ b'a' ∷ b's' ∷ b'e' ∷ []
level_name warning = b'W' ∷ b'a' ∷ b'r' ∷ b'n' ∷ b'i' ∷ b'n' ∷ b'g' ∷ []
level_name fatal = b'F' ∷ b'a' ∷ b't' ∷ b'a' ∷ b'l' ∷ []

pub record ErrorInfo : Type 0 where
  pub code : ℤ
  pub name : Text
  pub message : Text
  pub level : ErrorLevel

abbrev pub unknown : ErrorInfo
unknown = record {
  code = pos 1;
  name = b'U' ∷ b'n' ∷ b'k' ∷ b'n' ∷ b'o' ∷ b'w' ∷ b'n' ∷ [];
  message =
      b'U' ∷ b'n' ∷ b'k' ∷ b'n' ∷ b'o' ∷ b'w' ∷ b'n' ∷ b' ' ∷ b'e' ∷ b'r' ∷ b'r' ∷ b'o' ∷ b'r' ∷ [];
  level = avoid;
}

abbrev pub invalid_arg : ErrorInfo
invalid_arg = record {
  code = pos 2;
  name = b'I' ∷ b'n' ∷ b'v' ∷ b'a' ∷ b'l' ∷ b'i' ∷ b'd' ∷ b'A' ∷ b'r' ∷ b'g' ∷ [];
  message =
      b'I' ∷ b'n' ∷ b'v' ∷ b'a' ∷ b'l' ∷ b'i' ∷ b'd' ∷ b' ' ∷ b'a' ∷ b'r' ∷ b'g' ∷ b'u' ∷ b'm'
      ∷ b'e' ∷ b'n' ∷ b't' ∷ [];
  level = avoid;
}

abbrev pub not_supported : ErrorInfo
not_supported = record {
  code = pos 3;
  name = b'N' ∷ b'o' ∷ b't' ∷ b'S' ∷ b'u' ∷ b'p' ∷ b'p' ∷ b'o' ∷ b'r' ∷ b't' ∷ b'e' ∷ b'd' ∷ [];
  message =
      b'O' ∷ b'p' ∷ b'e' ∷ b'r' ∷ b'a' ∷ b't' ∷ b'i' ∷ b'o' ∷ b'n' ∷ b' ' ∷ b'n' ∷ b'o' ∷ b't'
      ∷ b' ' ∷ b's' ∷ b'u' ∷ b'p' ∷ b'p' ∷ b'o' ∷ b'r' ∷ b't' ∷ b'e' ∷ b'd' ∷ [];
  level = warning;
}

abbrev pub not_found : ErrorInfo
not_found = record {
  code = pos 4;
  name = b'N' ∷ b'o' ∷ b't' ∷ b'F' ∷ b'o' ∷ b'u' ∷ b'n' ∷ b'd' ∷ [];
  message =
      b'R' ∷ b'e' ∷ b's' ∷ b'o' ∷ b'u' ∷ b'r' ∷ b'c' ∷ b'e' ∷ b' ' ∷ b'n' ∷ b'o' ∷ b't' ∷ b' '
      ∷ b'f' ∷ b'o' ∷ b'u' ∷ b'n' ∷ b'd' ∷ [];
  level = warning;
}

abbrev pub already_exists : ErrorInfo
already_exists = record {
  code = pos 5;
  name =
      b'A' ∷ b'l' ∷ b'r' ∷ b'e' ∷ b'a' ∷ b'd' ∷ b'y' ∷ b'E' ∷ b'x' ∷ b'i' ∷ b's' ∷ b't' ∷ b's' ∷ [];
  message =
      b'R' ∷ b'e' ∷ b's' ∷ b'o' ∷ b'u' ∷ b'r' ∷ b'c' ∷ b'e' ∷ b' ' ∷ b'a' ∷ b'l' ∷ b'r' ∷ b'e'
      ∷ b'a' ∷ b'd' ∷ b'y' ∷ b' ' ∷ b'e' ∷ b'x' ∷ b'i' ∷ b's' ∷ b't' ∷ b's' ∷ [];
  level = warning;
}

abbrev pub timeout : ErrorInfo
timeout = record {
  code = pos 6;
  name = b'T' ∷ b'i' ∷ b'm' ∷ b'e' ∷ b'o' ∷ b'u' ∷ b't' ∷ [];
  message =
      b'O' ∷ b'p' ∷ b'e' ∷ b'r' ∷ b'a' ∷ b't' ∷ b'i' ∷ b'o' ∷ b'n' ∷ b' ' ∷ b't' ∷ b'i' ∷ b'm'
      ∷ b'e' ∷ b'd' ∷ b' ' ∷ b'o' ∷ b'u' ∷ b't' ∷ [];
  level = warning;
}

abbrev pub invalid_format : ErrorInfo
invalid_format = record {
  code = pos 7;
  name =
      b'I' ∷ b'n' ∷ b'v' ∷ b'a' ∷ b'l' ∷ b'i' ∷ b'd' ∷ b'F' ∷ b'o' ∷ b'r' ∷ b'm' ∷ b'a' ∷ b't' ∷ [];
  message =
      b'I' ∷ b'n' ∷ b'v' ∷ b'a' ∷ b'l' ∷ b'i' ∷ b'd' ∷ b' ' ∷ b'f' ∷ b'o' ∷ b'r' ∷ b'm' ∷ b'a'
      ∷ b't' ∷ [];
  level = warning;
}

abbrev pub overflow : ErrorInfo
overflow = record {
  code = pos 8;
  name = b'O' ∷ b'v' ∷ b'e' ∷ b'r' ∷ b'f' ∷ b'l' ∷ b'o' ∷ b'w' ∷ [];
  message =
      b'B' ∷ b'u' ∷ b'f' ∷ b'f' ∷ b'e' ∷ b'r' ∷ b' ' ∷ b'o' ∷ b'v' ∷ b'e' ∷ b'r' ∷ b'f' ∷ b'l'
      ∷ b'o' ∷ b'w' ∷ [];
  level = fatal;
}

abbrev pub out_of_range : ErrorInfo
out_of_range = record {
  code = pos 9;
  name = b'O' ∷ b'u' ∷ b't' ∷ b'O' ∷ b'f' ∷ b'R' ∷ b'a' ∷ b'n' ∷ b'g' ∷ b'e' ∷ [];
  message =
      b'I' ∷ b'n' ∷ b'd' ∷ b'e' ∷ b'x' ∷ b' ' ∷ b'o' ∷ b'u' ∷ b't' ∷ b' ' ∷ b'o' ∷ b'f' ∷ b' '
      ∷ b'r' ∷ b'a' ∷ b'n' ∷ b'g' ∷ b'e' ∷ [];
  level = fatal;
}

abbrev pub empty : ErrorInfo
empty = record {
  code = pos 10;
  name = b'E' ∷ b'm' ∷ b'p' ∷ b't' ∷ b'y' ∷ [];
  message =
      b'C' ∷ b'o' ∷ b'n' ∷ b't' ∷ b'a' ∷ b'i' ∷ b'n' ∷ b'e' ∷ b'r' ∷ b' ' ∷ b'i' ∷ b's' ∷ b' '
      ∷ b'e' ∷ b'm' ∷ b'p' ∷ b't' ∷ b'y' ∷ [];
  level = warning;
}

unfoldable pub builtin_error_table : List ErrorInfo
builtin_error_table =
    unknown ∷ invalid_arg ∷ not_supported ∷ not_found ∷ already_exists ∷ timeout ∷ invalid_format
    ∷ overflow ∷ out_of_range ∷ empty ∷ []

-- `LookupInTable`.
unfoldable pub lookup_in_table : List ErrorInfo → ℤ → Option ErrorInfo
lookup_in_table [] code = none
lookup_in_table (info ∷ table) code =
    if eq_ℤ info.code code then some info else lookup_in_table table code

-- `LookupExternalError`, for the function that `setExternalLookup` stored, if any.
unfoldable pub lookup_external_error : Option (ℤ → Option ErrorInfo) → ℤ → Option ErrorInfo
lookup_external_error none code = none
lookup_external_error (some lookup_func) code = lookup_func code

abbrev pub or_else : Option ErrorInfo → Option ErrorInfo → Option ErrorInfo
or_else none other = other
or_else (some info) other = some info

-- `LookupError`.
unfoldable pub lookup_error : Option (ℤ → Option ErrorInfo) → ℤ → Option ErrorInfo
unfolding lookup_in_table lookup_external_error builtin_error_table
lookup_error registered code =
    or_else (lookup_in_table builtin_error_table code) (
      or_else (lookup_external_error registered code) (lookup_in_table builtin_error_table (pos 1)))
