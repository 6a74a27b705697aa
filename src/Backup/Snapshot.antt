-- ===== src/Backup/Snapshot.antt =====
-- src/backup/model/SnapshotInventory.hpp and .cpp: snapshots, their names and their order, and the
-- inventory of a directory.
pub mod Order
use btrfs_backup.Common.{
  Bool, true, false, not, ◌&&◌, ◌||◌, ℕ, ◌+◌, eqb, leb, ltb, if◌then◌else◌, List, [], ◌∷◌, ◌++◌,
  Text, text, text_lt, Option, none, some, take, drop, length, all, sort, map, ◌==◌, list_eq,
  nat_eq,
}
use btrfs_backup.Core.Errors.{Result, ok, err, ◌>>=◌, ◌>>◌, throw_if, validation_error}
use btrfs_backup.Core.Time.{RuntimeTimePoint, parse_utc_timestamp, substr, char_at}
use btrfs_backup.Config.Path.{FilePath, path_text, child}
use btrfs_backup.Config.Validation.{is_prefix, is_digit, digits_value}

pub data SnapshotSide : Type 0 where
  local_side remote_side : SnapshotSide

abbrev pub SourceId : Type 0
SourceId = Text

abbrev pub RunId : Type 0
RunId = Text

abbrev pub ProfileId : Type 0
ProfileId = Text

pub record SnapshotUuid : Type 0 where
  pub value : Text

pub record ReceivedSnapshotUuid : Type 0 where
  pub value : Text

-- `std::tolower` in the C locale.
unfoldable pub to_lower : ℕ → ℕ
to_lower c = if leb b'A' c && leb c b'Z' then c + 32 else c

unfoldable pub normalized_uuid : Text → Text
unfolding to_lower
normalized_uuid value = map to_lower value

-- The constructors of both classes.
unfoldable pub snapshot_uuid : Text → SnapshotUuid
unfolding normalized_uuid
snapshot_uuid value = record { value = normalized_uuid value }

unfoldable pub received_snapshot_uuid : Text → ReceivedSnapshotUuid
unfolding normalized_uuid
received_snapshot_uuid value = record { value = normalized_uuid value }

unfoldable pub uuid_matches : SnapshotUuid → ReceivedSnapshotUuid → Bool
uuid_matches snapshot received =
    not (snapshot.value == []) && not (received.value == []) && snapshot.value == received.value

pub record SnapshotName : Type 0 where
  pub source_id : SourceId
  pub timestamp : RuntimeTimePoint
  pub sequence : ℕ
  pub name : Text

pub record SnapshotMetadata : Type 0 where
  pub is_subvolume : Bool
  pub readonly : Bool
  pub uuid : SnapshotUuid
  pub received_uuid : ReceivedSnapshotUuid

pub record SnapshotInfo : Type 0 where
  pub side : SnapshotSide
  pub source_id : SourceId
  pub name : Text
  pub timestamp : RuntimeTimePoint
  pub sequence : ℕ
  pub path : FilePath
  pub readonly : Bool
  pub uuid : SnapshotUuid
  pub received_uuid : ReceivedSnapshotUuid

-- `text.rfind(prefix, 0) == 0`.
unfoldable pub starts_with : Text → Text → Bool
starts_with [] cs = true
starts_with (b ∷ bs) [] = false
starts_with (b ∷ bs) (c ∷ cs) = eqb b c && starts_with bs cs

-- The two digits behind the time stamp, if there are any: `none` where the name is refused.
unfoldable pub parse_sequence : Text → Option ℕ
unfolding is_digit digits_value
parse_sequence rest =
    let sequence = digits_value 0 (substr rest 19 2) in
    if not (eqb (length rest) 21)
    then some 0
    else if not (eqb (char_at rest 18) b'-') || not (all is_digit (substr rest 19 2))
    then none
    else if leb sequence 0
    then none
    else some sequence

unfoldable pub named_at : SourceId → Text → Option RuntimeTimePoint → Option ℕ → Option SnapshotName
named_at source_id name none sequence = none
named_at source_id name (some timestamp) none = none
named_at source_id name (some timestamp) (some sequence) =
    some (record { source_id = source_id; timestamp = timestamp; sequence = sequence; name = name })

unfoldable pub parse_snapshot_name : Text → SourceId → Option SnapshotName
unfolding starts_with parse_sequence named_at
parse_snapshot_name name source_id =
    let prefix = source_id ++ b'-' ∷ [] in
    let rest = drop (length prefix) name in
    if not (starts_with prefix name)
    then none
    else if not (eqb (length rest) 18) && not (eqb (length rest) 21)
    then none
    else named_at source_id name (parse_utc_timestamp (substr rest 0 18)) (parse_sequence rest)

unfoldable pub metadata_sort_key_less : SnapshotInfo → SnapshotInfo → Bool
metadata_sort_key_less left right =
    if not (eqb left.timestamp right.timestamp)
    then ltb left.timestamp right.timestamp
    else if not (eqb left.sequence right.sequence)
    then ltb left.sequence right.sequence
    else text_lt (path_text left.path) (path_text right.path)

-- What the file system says of an entry, without following a link.
pub data EntryStatus : Type 0 where
  unreadable symlink directory other_file : EntryStatus

pub record DirectoryEntry : Type 0 where
  pub filename : Text
  pub status : EntryStatus

pub data ScannedDirectory : Type 0 where
  missing : ScannedDirectory
  not_a_directory : ScannedDirectory
  scanned : List DirectoryEntry → ScannedDirectory

abbrev pub SnapshotMetadataReader : Type 0
SnapshotMetadataReader = FilePath → Result (Option SnapshotMetadata)

unfoldable pub snapshot_info :
    FilePath → SnapshotSide → SnapshotName → SnapshotMetadata → SnapshotInfo
snapshot_info reported_directory side parsed metadata = record {
  side = side;
  source_id = parsed.source_id;
  name = parsed.name;
  timestamp = parsed.timestamp;
  sequence = parsed.sequence;
  path = child reported_directory parsed.name;
  readonly = metadata.readonly;
  uuid = metadata.uuid;
  received_uuid = metadata.received_uuid;
}

-- An entry with a name of this source: it is listed if it is a subvolume.
unfoldable pub listed :
    FilePath → SnapshotSide → SnapshotName → Option SnapshotMetadata → Option SnapshotInfo
unfolding snapshot_info
listed reported_directory side parsed none = none
listed reported_directory side parsed (some metadata) =
    if metadata.is_subvolume
    then some (snapshot_info reported_directory side parsed metadata)
    else none

module _ (scan_directory reported_directory : FilePath) (source_id : SourceId) (side : SnapshotSide)
    (metadata_reader : SnapshotMetadataReader) where
  unfoldable pub inspect_parsed : Text → Option SnapshotName → Result (Option SnapshotInfo)
  unfolding listed
  inspect_parsed name none = ok none
  inspect_parsed name (some parsed) = do
    metadata ← metadata_reader (child scan_directory name)
    ok (listed reported_directory side parsed metadata)

  unfoldable pub inspect_entry : Text → EntryStatus → Result (Option SnapshotInfo)
  unfolding inspect_parsed
  inspect_entry name unreadable = err (
      validation_error (
        text "could not inspect snapshot inventory entry: "
        ++ path_text (child scan_directory name)))
  inspect_entry name symlink = err (
      validation_error (
        text "symbolic link is forbidden in snapshot inventory: "
        ++ path_text (child reported_directory name)))
  inspect_entry name directory = inspect_parsed name (parse_snapshot_name name source_id)
  inspect_entry name other_file = ok none

  abbrev pub push_listed : Option SnapshotInfo → List SnapshotInfo → List SnapshotInfo
  push_listed none rest = rest
  push_listed (some snapshot) rest = snapshot ∷ rest

  -- The loop over the entries, in the order of the directory.
  unfoldable pub collect_snapshots : List DirectoryEntry → Result (List SnapshotInfo)
  unfolding inspect_entry
  collect_snapshots [] = ok []
  collect_snapshots (entry ∷ entries) = do
    snapshot ← inspect_entry entry.filename entry.status
    rest ← collect_snapshots entries
    ok (push_listed snapshot rest)

  unfoldable pub list_scanned : ScannedDirectory → Result (List SnapshotInfo)
  unfolding collect_snapshots
  list_scanned missing = ok []
  list_scanned not_a_directory = err (
      validation_error
        (text "snapshot inventory path is not a directory: " ++ path_text reported_directory))
  list_scanned (scanned entries) = do
    snapshots ← collect_snapshots entries
    ok (sort metadata_sort_key_less snapshots)

-- An empty `std::function` is no reader.
unfoldable pub list_snapshot_inventory_at :
    FilePath
    → FilePath
    → SourceId
    → SnapshotSide
    → Option SnapshotMetadataReader
    → ScannedDirectory
    → Result (List SnapshotInfo)
unfolding list_scanned
list_snapshot_inventory_at scan_directory reported_directory source_id side none found =
    err (validation_error (text "snapshot metadata reader is required"))
list_snapshot_inventory_at scan_directory reported_directory source_id side (some reader) found =
    list_scanned scan_directory reported_directory source_id side reader found

unfoldable pub list_snapshot_inventory :
    FilePath
    → SourceId
    → SnapshotSide
    → Option SnapshotMetadataReader
    → ScannedDirectory
    → Result (List SnapshotInfo)
unfolding list_snapshot_inventory_at
list_snapshot_inventory where_at source_id side reader found =
    list_snapshot_inventory_at where_at where_at source_id side reader found
