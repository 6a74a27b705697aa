-- ===== src/Tests/Paths.antt =====
-- Sample paths and error codes.
use btrfs_backup.Common.{
  map, ◌≡◌, refl, ◌↔◌, text, Text, list_beq, List, [], ◌∷◌, ◌++◌, true, false, some,
}
use btrfs_backup.Core.ErrorCode.{
  transfer_failed, error_code_name, error_code_from_name, error_code_name-from_name,
  error_code_from_name-name,
}
use btrfs_backup.Config.Path.{FilePath, parse_path, path_text, lexically_normal, elements}
use btrfs_backup.Config.Validation.{path_is_within}
use btrfs_backup.Config.Containment.{IsCanonical, path_is_within_iff, path_is_within_trans}
use btrfs_backup.Tests.Samples.{at}

abbrev normal : Text → Text
normal s = path_text (lexically_normal (parse_path s))

normals :
    map normal (
      text "/a/./b/.."
      ∷ text "a/.."
      ∷ text "a/../"
      ∷ text "../x/"
      ∷ text "/../a//b"
      ∷ text "./"
      ∷ text "../../"
      ∷ text "/a/.."
      ∷ [])
    ≡ text "/a/"
      ∷ text "."
      ∷ text "."
      ∷ text "../x/"
      ∷ text "/a/b"
      ∷ text "."
      ∷ text "../.."
      ∷ text "/"
      ∷ []
unfolding parse_path path_text lexically_normal text list_beq elements
normals = refl

-- A base that keeps a trailing separator has nothing within it but paths spelled with one.
trailing_base : path_is_within (parse_path (text "/mnt/b/x")) (parse_path (text "/mnt/b/")) ≡ false
unfolding path_is_within parse_path path_text lexically_normal text list_beq elements
trailing_base = refl

abbrev outer : FilePath
outer = at ((b'm' ∷ []) ∷ [])

abbrev middle : FilePath
middle = at ((b'm' ∷ []) ∷ (b'b' ∷ []) ∷ [])

abbrev inner : FilePath
inner = at ((b'm' ∷ []) ∷ (b'b' ∷ []) ∷ (b'c' ∷ []) ∷ [])

outer-IsCanonical : IsCanonical outer
unfolding btrfs_backup.Config.Validation.is_unsafe_part list_beq text
outer-IsCanonical = record { rooted = refl; safe = (refl, tt) }

inner-IsCanonical : IsCanonical inner
unfolding btrfs_backup.Config.Validation.is_unsafe_part list_beq text
inner-IsCanonical = record { rooted = refl; safe = (refl, (refl, (refl, tt))) }

inner_in_middle : path_is_within inner middle ≡ true
unfolding path_is_within elements lexically_normal list_beq text
inner_in_middle = refl

middle_in_outer : path_is_within middle outer ≡ true
unfolding path_is_within elements lexically_normal list_beq text
middle_in_outer = refl

path_is_within_iff_example :
    (path_is_within inner outer ≡ true) ↔ ((rest : List Text) × (inner.names ≡ outer.names ++ rest))
path_is_within_iff_example = path_is_within_iff inner outer inner-IsCanonical outer-IsCanonical

path_is_within_trans_example : path_is_within inner outer ≡ true
path_is_within_trans_example =
    path_is_within_trans inner middle outer inner_in_middle middle_in_outer

read_code : error_code_from_name (text "transfer.failed") ≡ some transfer_failed
unfolding error_code_from_name list_beq text
read_code = refl

error_code_name-from_name_example : error_code_name transfer_failed ≡ text "transfer.failed"
error_code_name-from_name_example =
    error_code_name-from_name (text "transfer.failed") transfer_failed read_code

error_code_from_name-name_example :
    error_code_from_name (error_code_name transfer_failed) ≡ some transfer_failed
error_code_from_name-name_example = error_code_from_name-name transfer_failed
