-- ===== src/Core/Identifiers.antt =====
-- src/core/Identifiers.cpp: the identifiers of profiles, runs, operations, sessions and sources.
use btrfs_backup.Common.{
  Bool, false, ◌&&◌, ◌||◌, [], ◌∷◌, ◌++◌, Text, text, length, all, leb, eqb, ℕ, if◌then◌else◌,
}
use btrfs_backup.Core.Errors.{Result, ok, err, validation_error}

unfoldable pub is_alphanumeric : ℕ → Bool
is_alphanumeric c =
    (leb b'0' c && leb c b'9') || (leb b'A' c && leb c b'Z') || (leb b'a' c && leb c b'z')

-- `[A-Za-z0-9._-]`.
unfoldable pub is_identifier_char : ℕ → Bool
unfolding is_alphanumeric
is_identifier_char c = is_alphanumeric c || eqb c b'.' || eqb c b'_' || eqb c b'-'

-- `^[A-Za-z0-9][A-Za-z0-9._-]{0,63}$`.
unfoldable pub identifier_re : Text → Bool
identifier_re [] = false
identifier_re (c ∷ cs) = is_alphanumeric c && all is_identifier_char cs && leb (length cs) 63

-- `^[A-Za-z0-9][A-Za-z0-9._:-]*$`.
unfoldable pub run_id_re : Text → Bool
run_id_re [] = false
run_id_re (c ∷ cs) = is_alphanumeric c && all (λ d. is_identifier_char d || eqb d b':') cs

unfoldable pub validate_identifier : Text → Text → Result (Unit {0})
validate_identifier value field_name =
    if identifier_re value
    then ok tt
    else err (validation_error (field_name ++ text " contains unsupported characters"))

unfoldable pub validate_profile_id : Text → Result (Unit {0})
validate_profile_id profile_id = elim (validate_identifier profile_id (text "profileId")) [
  | ok u ↦ ok u
  | err e ↦ err (validation_error (text "invalid profile id: " ++ profile_id))
]

unfoldable pub validate_run_id : Text → Result (Unit {0})
validate_run_id run_id =
    if run_id_re run_id then ok tt else err (validation_error (text "invalid run id: " ++ run_id))

unfoldable pub validate_operation_id : Text → Result (Unit {0})
validate_operation_id operation_id = validate_identifier operation_id (text "operationId")

unfoldable pub validate_browse_session_id : Text → Result (Unit {0})
validate_browse_session_id id = validate_identifier id (text "browseSessionId")
