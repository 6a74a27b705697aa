-- ===== src/Config/Validation.antt =====
-- src/config/domain/Validation.cpp: numbers and paths of a configuration, with their checks.
use btrfs_backup.Common.{
  Bool, true, false, not, ◌&&◌, ◌||◌, List, [], ◌∷◌, ◌++◌, Text, text, eqb, ltb, leb, ℕ, ◌+◌, ◌-◌,
  ◌*◌, any, all, ◌==◌, list_eq, nat_eq,
}
use btrfs_backup.Core.Errors.{Result, ok, ◌>>=◌, ◌>>◌, throw_if, validation_error}
use btrfs_backup.Config.Path.{FilePath, parse_path, lexically_normal, elements}

unfoldable pub is_digit : ℕ → Bool
is_digit c = leb b'0' c && leb c b'9'

-- The value that `std::stoull` reads from a text of digits, before its range check.
unfoldable pub digits_value : ℕ → Text → ℕ
digits_value acc [] = acc
digits_value acc (c ∷ cs) = digits_value (acc * 10 + (c - b'0')) cs

abbrev pub uint64_max : ℕ
uint64_max = 18446744073709551615

-- Both tests of the source throw the same error, and `stoull` reads every digit: `consumed`
-- is the size of the text. Past the range of 64 bits `stoull` throws, and that error is caught.
unfoldable pub parse_uint : Text → Text → ℕ → Result ℕ
unfolding is_digit digits_value
parse_uint value name maximum = do
  throw_if (value == [] || not (all is_digit value))
      (validation_error (name ++ text " must be a non-negative base-10 integer"))
  let result = digits_value 0 value
  throw_if (ltb uint64_max result)
      (validation_error (name ++ text " is outside the supported range"))
  throw_if (ltb maximum result) (validation_error (name ++ text " is outside the supported range"))
  ok result

unfoldable pub parse_positive_uint : Text → Text → ℕ → Result ℕ
parse_positive_uint value name maximum = do
  result ← parse_uint value name maximum
  throw_if (eqb result 0) (validation_error (name ++ text " must be greater than zero"))
  ok result

unfoldable pub has_newline : Text → Bool
has_newline = any (λ c. eqb c 10 || eqb c 13)

unfoldable pub front_is_separator : Text → Bool
front_is_separator [] = false
front_is_separator (c ∷ cs) = eqb c b'/'

unfoldable pub normalized_absolute_path : Text → Text → Result FilePath
unfolding has_newline front_is_separator
normalized_absolute_path value name = do
  throw_if (not (front_is_separator value))
      (validation_error (name ++ text " must be an absolute path"))
  throw_if (has_newline value) (validation_error (name ++ text " contains a newline"))
  let result = lexically_normal (parse_path value)
  throw_if (not result.absolute) (validation_error (name ++ text " is invalid"))
  ok result

unfoldable pub is_unsafe_part : Text → Bool
is_unsafe_part item = item == [] || item == text "." || item == text ".."

unfoldable pub normalized_relative_path : Text → Text → Result FilePath
unfolding has_newline is_unsafe_part
normalized_relative_path value name = do
  throw_if (value == []) (validation_error (name ++ text " must be a non-empty relative path"))
  throw_if (has_newline value) (validation_error (name ++ text " contains a newline"))
  let path = parse_path value
  throw_if path.absolute (validation_error (name ++ text " must be a safe relative path"))
  throw_if (any is_unsafe_part (elements path))
      (validation_error (name ++ text " must be a safe relative path"))
  ok (lexically_normal path)

-- The loop over both iterators: the base must be used up, element by element.
unfoldable pub is_prefix : List Text → List Text → Bool
is_prefix [] cs = true
is_prefix (b ∷ bs) [] = false
is_prefix (b ∷ bs) (c ∷ cs) = c == b && is_prefix bs cs

unfoldable pub path_is_within : FilePath → FilePath → Bool
unfolding is_prefix
path_is_within candidate base =
    is_prefix (elements (lexically_normal base)) (elements (lexically_normal candidate))
