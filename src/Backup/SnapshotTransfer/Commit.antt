-- ===== src/Backup/SnapshotTransfer/Commit.antt =====
-- src/backup/transfer/SnapshotTransfer.cpp: what the commit of a received snapshot leaves.
use btrfs_backup.Common.{
  Bool, true, false, Bool-cases, inl, inr, Option, none, some, ◌≡◌, ◌≢◌, ◌⊎◌, ◌↔◌, refl, sym, ap,
  ◌∙◌, arith,
}
use btrfs_backup.Core.ErrorCode.{repository_recovery_required}
use btrfs_backup.Core.Errors.{Error, recovery_required, Result, ok, err}
use btrfs_backup.Config.Path.{FilePath}
use btrfs_backup.Backup.Snapshot.{SourceId, SnapshotUuid, SnapshotMetadata, uuid_matches}
use btrfs_backup.Backup.SnapshotTransfer.{
  verify_received_snapshot, CommitCalls, is_verified, rejection, after_creation, discard_unverified,
  check_committed, create_committed, commit_received_snapshot,
}

-- What a received snapshot is that passes the check.
pub record IsReceived (local_snapshot received_snapshot : SnapshotMetadata) : Type 0 where
  pub is_subvolume : received_snapshot.is_subvolume ≡ true
  pub readonly : received_snapshot.readonly ≡ true
  pub uuid : uuid_matches local_snapshot.uuid received_snapshot.received_uuid ≡ true

-- A received snapshot passes the check exactly when it is a read-only subvolume that was received
-- from the local snapshot.
pub verify_received_snapshot-IsReceived :
    (source_id : SourceId) (local_snapshot received_snapshot : SnapshotMetadata)
    → (verify_received_snapshot source_id local_snapshot received_snapshot ≡ ok tt)
      ↔ IsReceived local_snapshot received_snapshot
unfolding verify_received_snapshot
verify_received_snapshot-IsReceived source_id local_snapshot received_snapshot = (
  (λ h. record { is_subvolume = ground arith; readonly = ground arith; uuid = ground arith }),
  (λ r. ground (arith, r.is_subvolume, r.readonly, r.uuid)),
)

-- The metadata of what stands at a path: none of nothing, and none of what is no subvolume.
abbrev pub metadata_of :
    {Entry : Type 0} → (Entry → Option SnapshotMetadata) → Option Entry → Option SnapshotMetadata
metadata_of metadata none = none
metadata_of metadata (some entry) = metadata entry

-- The calls as they are documented, at the watched paths, of which none lies within another or is
-- a second name of it. A file that is found not to exist is not there; what is read is what
-- stands at the path, where it can be read; creating and deleting change one path, and creating
-- changes nothing where it fails.
pub record CommitLaws {World Entry : Type 0} (calls : CommitCalls World)
    (Watched : FilePath → Type 0) (entry_at : World → FilePath → Option Entry)
    (metadata : Entry → Option SnapshotMetadata) : Type 0 where
  pub exists_not :
      (p : FilePath) (w : World) → Watched p → calls.exists p w ≡ ok false → entry_at w p ≡ none
  pub read_ok :
      (p : FilePath) (w : World) (found : Option SnapshotMetadata)
      → Watched p
      → calls.read_snapshot_metadata p w ≡ ok found
      → found ≡ metadata_of metadata (entry_at w p)
  pub create_frame :
      (p q r : FilePath) (w : World)
      → Watched q
      → Watched r
      → r ≢ q
      → entry_at (calls.create_readonly_snapshot p q w).1 r ≡ entry_at w r
  pub create_failed :
      (p q : FilePath) (w w' : World) (e : Error)
      → Watched q
      → calls.create_readonly_snapshot p q w ≡ (err e, w')
      → entry_at w' q ≡ entry_at w q
  pub delete_frame :
      (p r : FilePath) (w : World)
      → Watched p
      → Watched r
      → r ≢ p
      → entry_at (calls.delete_subvolume p w).1 r ≡ entry_at w r
  pub delete_done :
      (p : FilePath) (w w' : World)
      → Watched p
      → calls.delete_subvolume p w ≡ (ok tt, w')
      → entry_at w' p ≡ none

module _ {World Entry : Type 0} (calls : CommitCalls World) (Watched : FilePath → Type 0)
    (entry_at : World → FilePath → Option Entry) (metadata : Entry → Option SnapshotMetadata)
    (received_path final_path : FilePath) (expected : SnapshotUuid) (start : World) where
  abbrev Frames : World → Type 0
  Frames w = (r : FilePath) → Watched r → r ≢ final_path → entry_at w r ≡ entry_at start r

  -- The snapshot was made where nothing was, and stays, since reading it threw the error.
  pub record IsUnread (e : Error) (w : World) : Type 0 where
    pub empty : entry_at start final_path ≡ none
    pub made : calls.create_readonly_snapshot received_path final_path start ≡ (ok tt, w)
    pub unread : calls.read_snapshot_metadata final_path w ≡ err e

  -- What a commit has done, by how it ended.
  abbrev pub Commits : Result (Unit {0}) × World → Type 0
  Commits (ok done, w) =
      (entry_at start final_path ≡ none)
      × (is_verified expected (metadata_of metadata (entry_at w final_path)) ≡ true)
      × Frames w
  Commits (err e, w) =
      ((entry_at w final_path ≡ entry_at start final_path)
        ⊎ ((e.class ≡ recovery_required repository_recovery_required) ⊎ IsUnread e w))
      × Frames w

  module _ (laws : CommitLaws calls Watched entry_at metadata) (watched : Watched final_path) where
    rejected-Commits :
        (end_ : Result (Unit {0}) × World)
        → Frames end_.1
        → ((w : World) → end_ ≡ (ok tt, w) → entry_at w final_path ≡ none)
        → entry_at start final_path ≡ none
        → Commits (err (rejection final_path end_.0), end_.1)
    unfolding rejection
    rejected-Commits (ok done, w) frames deleted empty = (inl (deleted w refl ∙ sym empty), frames)
    rejected-Commits (err e, w) frames deleted empty = (inr (inl refl), frames)

    check_committed-Commits :
        (found : Result (Option SnapshotMetadata)) (w : World)
        → calls.read_snapshot_metadata final_path w ≡ found
        → calls.create_readonly_snapshot received_path final_path start ≡ (ok tt, w)
        → entry_at start final_path ≡ none
        → Frames w
        → Commits (check_committed calls final_path expected found w)
    unfolding check_committed discard_unverified
    check_committed-Commits (err e) w read made empty frames =
        (inr (inr (record { empty = empty; made = made; unread = read })), frames)
    check_committed-Commits (ok found) w read made empty frames =
        elim (Bool-cases (is_verified expected found)) [
          | inl verified ↦ rw verified (
            empty,
            ap (is_verified expected) (sym (laws.read_ok final_path w found watched read))
                ∙ verified,
            frames,
          )
          | inr unverified ↦ rw unverified (
              rejected-Commits (calls.delete_subvolume final_path w)
                (λ r v h. laws.delete_frame final_path r w watched v h ∙ frames r v h)
                (λ w' e. laws.delete_done final_path w w' watched e) empty)
        ]

    after_creation-Commits :
        (end_ : Result (Unit {0}) × World)
        → calls.create_readonly_snapshot received_path final_path start ≡ end_
        → Frames end_.1
        → entry_at start final_path ≡ none
        → Commits (after_creation calls final_path expected end_)
    unfolding after_creation
    after_creation-Commits (err e, w) made frames empty =
        (inl (laws.create_failed received_path final_path start w e watched made), frames)
    after_creation-Commits (ok done, w) made frames empty =
        check_committed-Commits (calls.read_snapshot_metadata final_path w) w refl made empty frames

    create_committed-Commits :
        (there : Result Bool)
        → calls.exists final_path start ≡ there
        → Commits (create_committed calls received_path final_path expected there start)
    unfolding create_committed
    create_committed-Commits (err e) h = (inl refl, λ r _ _. refl)
    create_committed-Commits (ok true) h = (inl refl, λ r _ _. refl)
    create_committed-Commits (ok false) h =
        after_creation-Commits (calls.create_readonly_snapshot received_path final_path start) refl
          (λ r v k. laws.create_frame received_path final_path r start watched v k)
          (laws.exists_not final_path start watched h)

    -- A commit that returns has made a snapshot at a path where nothing was, and its received UUID
    -- is the expected one. A commit that throws leaves what was at that path, nothing or what is in
    -- the way, or says that the repository requires recovery, or has made the snapshot there and
    -- throws the error with which its metadata could not be read. The other watched paths are
    -- not changed. So far as the path is watched and the calls obey their laws.
    pub commit_received_snapshot-Commits :
        Commits (commit_received_snapshot calls received_path final_path expected start)
    unfolding commit_received_snapshot
    commit_received_snapshot-Commits = create_committed-Commits (calls.exists final_path start) refl
