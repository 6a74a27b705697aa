-- ===== src/Tests/Commits.antt =====
-- The commit of a received snapshot over a small store.
use btrfs_backup.Common.{
  true, false, if◌then◌else◌, Option, none, some, [], ◌∷◌, ◌≡◌, ◌≢◌, refl, sym, ap, ◌∙◌, arith,
  ◌==◌, ==_iff, ==_refl, list_eq, nat_eq, list_beq,
}
use btrfs_backup.Core.Errors.{Error, Result, ok, err, validation_error}
use btrfs_backup.Config.Path.{FilePath, path_eq, path_beq}
use btrfs_backup.Backup.Snapshot.{SnapshotUuid, SnapshotMetadata}
use btrfs_backup.Backup.SnapshotTransfer.{CommitCalls, commit_received_snapshot}
use btrfs_backup.Backup.SnapshotTransfer.Commit.{
  metadata_of, CommitLaws, Commits, commit_received_snapshot-Commits,
}
use btrfs_backup.Restore.Tree.{is_some}
use btrfs_backup.Tests.Samples.{at}

-- What stands at each path; `some none` is a file or a directory that is no subvolume.
abbrev Store : Type 0
Store = FilePath → Option (Option SnapshotMetadata)

abbrev put : FilePath → Option (Option SnapshotMetadata) → Store → Store
put p found w q = if q == p then found else w q

put-here :
    (p : FilePath) (found : Option (Option SnapshotMetadata)) (w : Store) → put p found w p ≡ found
put-here p found w = ground (arith, ==_refl p)

put-elsewhere :
    (p : FilePath) (found : Option (Option SnapshotMetadata)) (w : Store) (q : FilePath)
    → q ≢ p
    → put p found w q ≡ w q
put-elsewhere p found w q h = ground (arith, ==_iff q p)

abbrev expected : SnapshotUuid
expected = record { value = b'u' ∷ [] }

abbrev received : SnapshotMetadata
received = record {
  is_subvolume = true;
  readonly = true;
  uuid = record { value = b'w' ∷ [] };
  received_uuid = record { value = b'u' ∷ [] };
}

abbrev metadata : Option SnapshotMetadata → Option SnapshotMetadata
metadata found = found

abbrev calls : CommitCalls Store
calls = record {
  exists = λ p w. ok (is_some (w p));
  create_readonly_snapshot = λ p q w. (ok tt, put q (w p) w);
  read_snapshot_metadata = λ p w. ok (metadata_of metadata (w p));
  delete_subvolume = λ p w. (ok tt, put p none w);
}

abbrev entry_at : Store → FilePath → Option (Option SnapshotMetadata)
entry_at w p = w p

-- This store has no paths within others.
abbrev Watched : FilePath → Type 0
Watched p = Unit

ended : {e : Error} {w w' : Store} → ◌≡◌ {A = Result (Unit {0}) × Store} (ok tt, w) (err e, w') → ⊥
ended h = cc

is_some-none : {A : Type 0} (found : Option A) → ok (is_some found) ≡ ok false → found ≡ none
is_some-none none h = refl
is_some-none (some a) h = cc

read_value : (found found' : Option SnapshotMetadata) → ok found ≡ ok found' → found' ≡ found
read_value found found' h = cc

calls_lem : CommitLaws calls Watched entry_at metadata
calls_lem = record {
  exists_not = λ p w u e. is_some-none (w p) e;
  read_ok = λ p w found u e. read_value (metadata_of metadata (w p)) found e;
  create_frame = λ p q r w u v h. put-elsewhere q (w p) w r h;
  create_failed = λ p q w w' e u eq. elim (ended eq) [ ];
  delete_frame = λ p r w u v h. put-elsewhere p none w r h;
  delete_done =
      λ p w w' u e. sym (ap (λ (x : Result (Unit {0}) × Store). x.1 p) e) ∙ put-here p none w;
}

abbrev received_path : FilePath
received_path = at ((b'i' ∷ []) ∷ [])

abbrev final_path : FilePath
final_path = at ((b'f' ∷ []) ∷ [])

abbrev start : Store
start = put received_path (some (some received)) (λ p. none)

commit_received_snapshot-Commits_example :
    Commits calls Watched entry_at metadata received_path final_path expected start
      (commit_received_snapshot calls received_path final_path expected start)
commit_received_snapshot-Commits_example =
    commit_received_snapshot-Commits calls Watched entry_at metadata received_path final_path
      expected start calls_lem tt

-- It returns.
committed : (commit_received_snapshot calls received_path final_path expected start).0 ≡ ok tt
unfolding commit_received_snapshot path_beq list_beq
committed = refl

-- Where the metadata of the new snapshot cannot be read.
abbrev unreadable : CommitCalls Store
unreadable = record calls { read_snapshot_metadata = λ p w. err (validation_error (b'x' ∷ [])) }

-- The commit fails as it would if nothing had been made, and the snapshot is there.
left_unread :
    ((commit_received_snapshot unreadable received_path final_path expected start).0
      ≡ err (validation_error (b'x' ∷ [])))
    × ((commit_received_snapshot unreadable received_path final_path expected start).1 final_path
        ≡ some (some received))
unfolding commit_received_snapshot path_beq list_beq
left_unread = (refl, refl)
