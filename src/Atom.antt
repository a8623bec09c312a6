-- ===== src/Atom.antt =====
-- crates/types/src/validation.rs: which package atoms the server forwards to `emerge`.
pub mod Grammar
mod Tests
use remerge.Prelude.{
  ℕ, Bool, true, false, not, ◌&&◌, ◌||◌, Option, none, some, List, [], ◌∷◌, Result, ok, err, ◌>>=◌,
  ◌>>◌, bail_if, ◌==◌, if◌then◌else◌, all, any,
}
use remerge.Prelude.Text.{
  Text, codes, text_beq, is_ascii_alphanumeric, is_empty, contains, strip_prefix, split_once,
  strip_first, unwrap_or,
}

-- The texts are the messages.
pub data AtomValidationError : Type 0 where
  empty dangerous_characters : AtomValidationError
  invalid_format : Text → AtomValidationError

-- `SHELL_CHARS`, by code point: ` $ \ " ' ; & | ( ) { } newline, carriage return, null
abbrev pub shell_chars : Text
shell_chars = 96 ∷ 36 ∷ 92 ∷ 34 ∷ 39 ∷ 59 ∷ 38 ∷ 124 ∷ 40 ∷ 41 ∷ 123 ∷ 125 ∷ 10 ∷ 13 ∷ 0 ∷ []

-- The characters of set names and of categories
unfoldable pub is_name_char : ℕ → Bool
is_name_char c = is_ascii_alphanumeric c || c == b'-' || c == b'_'

-- The characters of package names
unfoldable pub is_package_char : ℕ → Bool
unfolding is_name_char
is_package_char c = is_name_char c || c == b'.' || c == b'+' || c == b'*'

-- `validate_package_name`
unfoldable pub validate_package_name : Text → Result AtomValidationError Unit
validate_package_name name = do
  bail_if (is_empty name) (invalid_format (codes "empty package name"))
  bail_if (not (all is_package_char name))
      (invalid_format (codes "invalid package name characters"))
  ok tt

unfoldable pub validate_set_name : Text → Result AtomValidationError Unit
validate_set_name set_name = do
  bail_if (is_empty set_name) (invalid_format (codes "empty set name"))
  bail_if (not (all is_name_char set_name)) (invalid_format (codes "invalid set name characters"))
  ok tt

-- The version operators, in the order in which they are tried
abbrev pub operators : List Text
operators = codes ">=" ∷ codes "<=" ∷ codes "=" ∷ codes ">" ∷ codes "<" ∷ codes "~" ∷ []

-- The chain of `strip_prefix` calls that removes a version operator
unfoldable pub strip_operator : Text → Text
strip_operator atom = unwrap_or (strip_first operators atom) atom

unfoldable pub validate_qualified : Text → Text → Result AtomValidationError Unit
unfolding validate_package_name
validate_qualified category name = do
  bail_if (contains b'/' name) (invalid_format (codes "too many '/' separators"))
  bail_if (is_empty category) (invalid_format (codes "empty category"))
  bail_if (not (all is_name_char category)) (invalid_format (codes "invalid category characters"))
  bail_if (is_empty name) (invalid_format (codes "empty package name"))
  validate_package_name name

-- What `validate_atom` does behind the version operator; `whole` is the atom with it.
unfoldable pub validate_stripped : Text → Text → Result AtomValidationError Unit
unfolding validate_qualified validate_package_name
validate_stripped stripped whole = elim (split_once b'/' stripped) [
  | some (category, name) ↦ validate_qualified category name
  | none ↦ do
    bail_if (not (text_beq stripped whole))
        (invalid_format (codes "version operators require a qualified category/package atom"))
    validate_package_name stripped
]

-- `validate_atom`
unfoldable pub validate_atom : Text → Result AtomValidationError Unit
unfolding validate_set_name strip_operator validate_stripped
validate_atom atom = do
  bail_if (is_empty atom) empty
  bail_if (any (λ c. contains c shell_chars) atom) dangerous_characters
  elim (strip_prefix (codes "@") atom) [
    | some set_name ↦ validate_set_name set_name
    | none ↦ validate_stripped (strip_operator atom) atom
  ]
