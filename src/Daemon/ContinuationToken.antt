-- ===== src/Daemon/ContinuationToken.antt =====
-- src/daemon/control/BrowseContinuationTokenCodec.cpp: the token that continues a directory page,
-- bound to its session and its directory.
pub mod Hex
pub mod Binding
use btrfs_backup.Common.{
  Bool, true, false, not, ◌&&◌, ◌||◌, ℕ, ◌+◌, ◌-◌, ◌*◌, ◌/◌, ◌%◌, if◌then◌else◌, eqb, ltb, leb, any,
  is_empty, length, drop, List, [], ◌∷◌, ◌++◌, Text, text, Option, none, some, ◌==◌, list_eq,
  nat_eq,
}
use btrfs_backup.Core.Errors.{Error, ErrorClass, other, Result, ok, err, throw_if, ◌>>=◌, ◌>>◌}
use btrfs_backup.Config.Path.{parse_path, lexically_normal, path_text}
use btrfs_backup.Backup.Snapshot.{starts_with}

-- `ManagerOperationError(ManagerErrorCode::InvalidRequest, ...)`.
abbrev pub invalid_request : Text → Error
invalid_request message = record { class = other; what = message }

unfoldable pub hex_digit : ℕ → ℕ
hex_digit value = if ltb value 10 then b'0' + value else b'a' + (value - 10)

unfoldable pub hex_encode : Text → Text
unfolding hex_digit
hex_encode [] = []
hex_encode (character ∷ value) =
    hex_digit (character / 16) ∷ hex_digit (character % 16) ∷ hex_encode value

-- -1 is `none`.
unfoldable pub hex_value : ℕ → Option ℕ
hex_value value =
    if leb b'0' value && leb value b'9'
    then some (value - b'0')
    else if leb b'a' value && leb value b'f'
    then some (value - b'a' + 10)
    else none

abbrev pub join_digits : Option ℕ → Option ℕ → Result Text → Result Text
join_digits (some high) (some low) rest = rest >>= λ decoded. ok ((high * 16 + low) ∷ decoded)
join_digits _ _ rest = err (invalid_request (text "invalid browse continuation token"))

-- The loop over the pairs of digits; the number of digits is even.
unfoldable pub hex_decode : Text → Result Text
unfolding hex_value
hex_decode (high ∷ low ∷ rest) = join_digits (hex_value high) (hex_value low) (hex_decode rest)
hex_decode _ = ok []

unfoldable pub maximum_token_size : ℕ
maximum_token_size = 32768

unfoldable pub directory_binding : Text → Text → Text
unfolding parse_path lexically_normal path_text
directory_binding session_id relative_path =
    session_id ++ (0 ∷ (path_text (lexically_normal (parse_path relative_path)) ++ 0 ∷ []))

unfoldable pub encode_bound_token : Text → Text → Result Text
unfolding hex_encode maximum_token_size
encode_bound_token binding cursor =
    let token = text "v1:" ++ hex_encode (binding ++ cursor) in
    if ltb maximum_token_size (length token)
    then err (invalid_request (text "browse continuation token is too large"))
    else ok token

unfoldable pub cursor_of : Text → Text → Result Text
unfolding starts_with
cursor_of binding decoded =
    if not (starts_with binding decoded)
    then err
        (invalid_request (text "browse continuation token does not match the session and query"))
    else ok (drop (length binding) decoded)

unfoldable pub decode_bound_token : Text → Text → Result Text
unfolding hex_decode maximum_token_size cursor_of
decode_bound_token binding token =
    if is_empty token
    then ok []
    else if not (starts_with (text "v1:") token)
        || ltb maximum_token_size (length token)
        || not (eqb ((length token - 3) % 2) 0)
    then err (invalid_request (text "invalid browse continuation token"))
    else hex_decode (drop 3 token) >>= cursor_of binding

unfoldable pub directory_token : Text → Text → Text → Result Text
unfolding encode_bound_token directory_binding
directory_token session_id relative_path last_name =
    encode_bound_token (directory_binding session_id relative_path) last_name

-- A name that no directory entry has.
unfoldable pub is_no_name : Text → Bool
is_no_name name =
    is_empty name
    || name == text "."
    || name == text ".."
    || any (eqb b'/') name
    || any (eqb 0) name

unfoldable pub checked_name : Text → Result Text
unfolding is_no_name
checked_name name =
    if is_no_name name
    then err (invalid_request (text "invalid browse continuation token"))
    else ok name

unfoldable pub directory_cursor : Text → Text → Text → Result Text
unfolding decode_bound_token directory_binding checked_name
directory_cursor session_id relative_path token =
    if is_empty token
    then ok []
    else decode_bound_token (directory_binding session_id relative_path) token >>= checked_name
