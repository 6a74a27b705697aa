-- ===== src/Tests/Browsing.antt =====
-- Pages of a directory and their tokens at sample inputs.
use btrfs_backup.Common.{
  length, Bool, true, false, ℕ, ◌+◌, ◌≤◌, List, [], ◌∷◌, Text, text, ◌≡◌, ◌≢◌, refl, inl, inr,
  arith,
}
use btrfs_backup.Core.Errors.{ok, err}
use btrfs_backup.Daemon.ContinuationToken.{invalid_request, directory_token, directory_cursor}
use btrfs_backup.Daemon.ContinuationToken.Binding.{
  normal_text, directory_cursor-directory_token, directory_cursor-IsBound,
}
use btrfs_backup.Daemon.PageCollector.{
  BrowseEntryInfo, BrowseDirectoryPageCollector, finish, retained_entries, pushed,
}
use btrfs_backup.Daemon.PageCollector.Page.{collect, page_of, finish-page_of}

abbrev session_id : Text
session_id = 3 ∷ []

abbrev relative_path : Text
relative_path = 4 ∷ []

abbrev name : Text
name = 5 ∷ 6 ∷ []

abbrev token : Text
token = text "v1:030004000506"

token_made : directory_token session_id relative_path name ≡ ok token
unfolding directory_token text btrfs_backup.Common.list_beq
token_made = refl

directory_cursor-directory_token_example : directory_cursor session_id relative_path token ≡ ok name
unfolding btrfs_backup.Daemon.ContinuationToken.directory_binding btrfs_backup.Common.list_beq text
    btrfs_backup.Daemon.ContinuationToken.is_no_name btrfs_backup.Common.any directory_token
directory_cursor-directory_token_example =
    directory_cursor-directory_token session_id relative_path name token (omega arith) refl refl

directory_cursor-IsBound_example :
    (session_id ≡ session_id)
    × (normal_text relative_path ≡ normal_text relative_path)
    × (name ≡ name)
unfolding btrfs_backup.Daemon.ContinuationToken.directory_binding btrfs_backup.Common.list_beq text
    directory_token directory_cursor btrfs_backup.Common.any
directory_cursor-IsBound_example =
    directory_cursor-IsBound session_id relative_path name token session_id relative_path name
      (omega arith) (omega arith) (omega arith) (omega arith) (omega arith) refl refl

-- In another session the token opens nothing.
other_session :
    directory_cursor (2 ∷ []) relative_path token
    ≡ err (invalid_request (text "browse continuation token does not match the session and query"))
unfolding directory_cursor text
other_session = refl

abbrev entry : ℕ → BrowseEntryInfo
entry n = record { name = n ∷ []; directory = false; size = n; mode = 0; modified_at = 0 }

abbrev added : List BrowseEntryInfo
added = entry 2 ∷ entry 9 ∷ entry 4 ∷ entry 1 ∷ []

abbrev collector : BrowseDirectoryPageCollector
collector = record { maximum_entries = 2; entries = [] }

finish-page_of_example :
    (finish (collect collector added) ≡ page_of 2 added)
    × (retained_entries (collect collector added) ≤ 2 + 1)
    × ((entry : BrowseEntryInfo) → length (pushed (collect collector added) entry) ≤ 2 + 2)
unfolding btrfs_backup.Daemon.PageCollector.new_collector
finish-page_of_example = finish-page_of 2 added collector refl

first_page :
    finish (collect collector added)
    ≡ record { entries = entry 1 ∷ entry 2 ∷ []; continuation_token = 2 ∷ [] }
unfolding finish btrfs_backup.Daemon.PageCollector.add
first_page = refl
