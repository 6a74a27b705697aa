-- ===== src/Backup/Recovery/Effects.antt =====
-- What the recovery plan of src/backup/model/PendingRecovery.cpp deletes, and when.
use btrfs_backup.Common.{
  Bool, true, false, not, ◌&&◌, List, [], ◌∷◌, ◌++◌, text, ◌≡◌, ◌≢◌, inl, inr, refl, Option, none,
  some, find-some, any, In, Bool-cases, ◌==◌, ==_iff, list_eq, nat_eq, arith,
}
use btrfs_backup.Config.Path.{FilePath, child, lexically_normal, filename, path_eq}
use btrfs_backup.Config.Validation.{path_is_within}
use btrfs_backup.Backup.Snapshot.{
  SourceId, SnapshotInfo, SnapshotMetadata, SnapshotUuid, starts_with, uuid_matches,
}
use btrfs_backup.Backup.Recovery.{
  PendingRecoveryEffect, delete_pending_remote_snapshot, delete_pending_local_snapshot,
  clear_pending_marker, PendingMarker, PendingRecoveryPlan, remote_contains_received_uuid,
  marker_path_is_valid, remote_snapshot_at_path, is_unverified, plan_present, plan_valid,
  plan_marker, plan_pending_recovery,
}

-- Deletions, and after them the clearing of the marker, once.
abbrev pub ClearsLast : FilePath → List PendingRecoveryEffect → Type 0
ClearsLast marker_path [] = ⊥
ClearsLast marker_path (clear_pending_marker p ∷ []) = p ≡ marker_path
ClearsLast marker_path (clear_pending_marker p ∷ e ∷ es) = ⊥
ClearsLast marker_path (delete_pending_remote_snapshot p ∷ es) = ClearsLast marker_path es
ClearsLast marker_path (delete_pending_local_snapshot p ∷ es) = ClearsLast marker_path es

-- What holds of a marker whose snapshots may be deleted.
pub record IsOwnMarker (source_id : SourceId) (local_dir remote_dir : FilePath)
    (marker : PendingMarker) : Type 0 where
  pub source : marker.source_id ≡ source_id
  pub local_within : path_is_within (lexically_normal marker.local_snapshot_path) local_dir ≡ true
  pub remote_within : path_is_within (lexically_normal marker.final_snapshot_path) remote_dir ≡ true
  pub named :
      starts_with (source_id ++ b'-' ∷ []) (filename (lexically_normal marker.local_snapshot_path))
      ≡ true
  pub same_name :
      filename (lexically_normal marker.final_snapshot_path)
      ≡ filename (lexically_normal marker.local_snapshot_path)

marker_path_is_valid-IsOwnMarker :
    (source_id : SourceId) (local_dir remote_dir : FilePath) (marker : PendingMarker)
    → marker_path_is_valid marker source_id local_dir remote_dir ≡ true
    → IsOwnMarker source_id local_dir remote_dir marker
unfolding marker_path_is_valid
marker_path_is_valid-IsOwnMarker source_id local_dir remote_dir marker h = ground (
  arith,
  ==_iff marker.source_id source_id,
  ==_iff (filename (lexically_normal marker.final_snapshot_path))
      (filename (lexically_normal marker.local_snapshot_path)),
)

module _ (source_id : SourceId) (local_dir remote_dir : FilePath) (remotes : List SnapshotInfo)
    (keep : Bool) where
  -- When the local snapshot of a marker is deleted.
  pub record DeletesLocal (marker : PendingMarker) (pending : Option SnapshotMetadata)
      (p : FilePath) : Type 0 where
    pub path : p ≡ marker.local_snapshot_path
    pub own : IsOwnMarker source_id local_dir remote_dir marker
    pub not_kept : keep ≡ false
    pub snapshot : SnapshotMetadata
    pub there : pending ≡ some snapshot
    pub is_subvolume : snapshot.is_subvolume ≡ true
    pub not_received : remote_contains_received_uuid remotes source_id snapshot.uuid ≡ false

  no_uuid_not_received :
      (uuid : SnapshotUuid) (rs : List SnapshotInfo)
      → uuid.value ≡ []
      → remote_contains_received_uuid rs source_id uuid ≡ false
  unfolding remote_contains_received_uuid uuid_matches any
  no_uuid_not_received uuid [] e = refl
  no_uuid_not_received uuid (r ∷ rs) e =
      ground (arith, no_uuid_not_received uuid rs, ==_iff uuid.value [])

  present_local :
      (mp : FilePath) (marker : PendingMarker) (uuid : SnapshotUuid) (p : FilePath)
      → In
          (delete_pending_local_snapshot p)
          (plan_present source_id local_dir remote_dir remotes keep mp marker uuid).effects
      → (p ≡ marker.local_snapshot_path)
        × (keep ≡ false)
        × (remote_contains_received_uuid remotes source_id uuid ≡ false)
  unfolding plan_present
  present_local mp marker uuid p m =
      ground (arith, no_uuid_not_received uuid remotes, ==_iff uuid.value [])

  present_remote :
      (mp : FilePath) (marker : PendingMarker) (uuid : SnapshotUuid) (p : FilePath)
      → In
          (delete_pending_remote_snapshot p)
          (plan_present source_id local_dir remote_dir remotes keep mp marker uuid).effects
      → (p ≡ marker.final_snapshot_path)
        × (is_unverified (remote_snapshot_at_path remotes marker.final_snapshot_path) uuid ≡ true)
  unfolding plan_present
  present_remote mp marker uuid p m = ground arith

  present-ClearsLast :
      (mp : FilePath) (marker : PendingMarker) (uuid : SnapshotUuid)
      → ClearsLast mp
          (plan_present source_id local_dir remote_dir remotes keep mp marker uuid).effects
  unfolding plan_present
  present-ClearsLast mp marker uuid = elim (Bool-cases unverified) [
    | inl a ↦ elim (Bool-cases (not keep && not contained)) [
      | inl b ↦ rw (a, b)
      | inr b ↦ rw (a, b)
    ]
    | inr a ↦ elim (Bool-cases (not (uuid.value == []) && contained)) [
      | inl b ↦ rw (a, b)
      | inr b ↦ elim (Bool-cases keep) [ inl c ↦ rw (a, b, c) | inr c ↦ rw (a, b, c) ]
    ]
  ]
    where
      contained : Bool
      contained = remote_contains_received_uuid remotes source_id uuid

      unverified : Bool
      unverified = is_unverified (remote_snapshot_at_path remotes marker.final_snapshot_path) uuid

  valid-ClearsLast :
      (mp : FilePath) (marker : PendingMarker) (pending : Option SnapshotMetadata)
      → ClearsLast mp
          (plan_valid source_id local_dir remote_dir remotes keep mp marker pending).effects
  unfolding plan_valid
  valid-ClearsLast mp marker none = refl
  valid-ClearsLast mp marker (some s) = elim (Bool-cases s.is_subvolume) [
    | inl v ↦ rw v (present-ClearsLast mp marker s.uuid)
    | inr v ↦ rw v
  ]

  valid_local :
      (mp : FilePath) (marker : PendingMarker) (pending : Option SnapshotMetadata) (p : FilePath)
      → IsOwnMarker source_id local_dir remote_dir marker
      → In
          (delete_pending_local_snapshot p)
          (plan_valid source_id local_dir remote_dir remotes keep mp marker pending).effects
      → DeletesLocal marker pending p
  unfolding plan_valid
  valid_local mp marker none p own m = absurd (ground arith)
  valid_local mp marker (some s) p own m = elim (Bool-cases s.is_subvolume) [
    | inr v ↦ absurd (ground arith)
    | inl v ↦
        let (path, not_kept, not_received) = present_local mp marker s.uuid p (rw v at m) in
        record {
          path = path;
          own = own;
          not_kept = not_kept;
          snapshot = s;
          there = refl;
          is_subvolume = v;
          not_received = not_received;
        }
  ]

  -- When the snapshot at the final path on the target is deleted.
  pub record DeletesRemote (marker : PendingMarker) (pending : Option SnapshotMetadata)
      (p : FilePath) : Type 0 where
    pub path : p ≡ marker.final_snapshot_path
    pub own : IsOwnMarker source_id local_dir remote_dir marker
    pub snapshot : SnapshotMetadata
    pub there : pending ≡ some snapshot
    pub final : SnapshotInfo
    pub final_in : In final remotes
    pub final_path : lexically_normal final.path ≡ lexically_normal p
    pub has_uuid : snapshot.uuid.value ≢ []
    pub unverified : uuid_matches snapshot.uuid final.received_uuid ≡ false

  unverified_final :
      (p : FilePath) (uuid : SnapshotUuid) (o : Option SnapshotInfo)
      → remote_snapshot_at_path remotes p ≡ o
      → is_unverified o uuid ≡ true
      → (final : SnapshotInfo) × In final remotes
        × (lexically_normal final.path ≡ lexically_normal p)
        × (uuid.value ≢ [])
        × (uuid_matches uuid final.received_uuid ≡ false)
  unfolding is_unverified remote_snapshot_at_path
  unverified_final p uuid none e h = cc
  unverified_final p uuid (some f) e h =
      let (m, t) =
        find-some (λ (r : SnapshotInfo). lexically_normal r.path == lexically_normal p) f remotes
          e in
      (
        f,
        m,
        (==_iff (lexically_normal f.path) (lexically_normal p)).0 t,
        (λ n. ground (arith, ==_iff uuid.value [])),
        ground arith,
      )

  valid_remote :
      (mp : FilePath) (marker : PendingMarker) (pending : Option SnapshotMetadata) (p : FilePath)
      → IsOwnMarker source_id local_dir remote_dir marker
      → In
          (delete_pending_remote_snapshot p)
          (plan_valid source_id local_dir remote_dir remotes keep mp marker pending).effects
      → DeletesRemote marker pending p
  unfolding plan_valid
  valid_remote mp marker none p own m = absurd (ground arith)
  valid_remote mp marker (some s) p own m = elim (Bool-cases s.is_subvolume) [
    | inr v ↦ absurd (ground arith)
    | inl v ↦
        let (path, t) = present_remote mp marker s.uuid p (rw v at m) in
        let (f, fm, fp, hu, un) = unverified_final marker.final_snapshot_path s.uuid _ refl t in
        record {
          path = path;
          own = own;
          snapshot = s;
          there = refl;
          final = f;
          final_in = fm;
          final_path = rw path fp;
          has_uuid = hu;
          unverified = un;
        }
  ]

  module _ (state_dir : FilePath) (marker : PendingMarker) (pending : Option SnapshotMetadata) where
    abbrev plan : PendingRecoveryPlan
    plan =
        plan_pending_recovery source_id state_dir local_dir remote_dir (some marker) pending remotes
          keep

    abbrev marker_path : FilePath
    marker_path = child state_dir (text "pending-" ++ source_id)

    -- Whatever the marker says, the plan clears it, as its last effect.
    pub plan_pending_recovery-ClearsLast : ClearsLast marker_path plan.effects
    unfolding plan_pending_recovery plan_marker
    plan_pending_recovery-ClearsLast =
        elim (Bool-cases (marker_path_is_valid marker source_id local_dir remote_dir)) [
          | inl v ↦ rw v (valid-ClearsLast marker_path marker pending)
          | inr v ↦ rw v
        ]

    -- A local snapshot is deleted only if it is the one of a marker of this source, within the
    -- local snapshot directory and named after the source, if it is still a subvolume, if failed
    -- snapshots are not kept and if no snapshot of the target was received from it.
    pub plan_pending_recovery-DeletesLocal :
        (p : FilePath)
        → In (delete_pending_local_snapshot p) plan.effects
        → DeletesLocal marker pending p
    unfolding plan_pending_recovery plan_marker
    plan_pending_recovery-DeletesLocal p m =
        elim (Bool-cases (marker_path_is_valid marker source_id local_dir remote_dir)) [
          | inr v ↦ absurd (ground arith)
          | inl v ↦
              valid_local marker_path marker pending p
                (marker_path_is_valid-IsOwnMarker source_id local_dir remote_dir marker v)
                (ground arith)
        ]

    -- A snapshot of the target is deleted only if it is the one that a marker of this source
    -- names, within the snapshot directory of the target, if the inventory has a snapshot at that
    -- path and if its received UUID is not the UUID of the local snapshot, which is known.
    pub plan_pending_recovery-DeletesRemote :
        (p : FilePath)
        → In (delete_pending_remote_snapshot p) plan.effects
        → DeletesRemote marker pending p
    unfolding plan_pending_recovery plan_marker
    plan_pending_recovery-DeletesRemote p m =
        elim (Bool-cases (marker_path_is_valid marker source_id local_dir remote_dir)) [
          | inr v ↦ absurd (ground arith)
          | inl v ↦
              valid_remote marker_path marker pending p
                (marker_path_is_valid-IsOwnMarker source_id local_dir remote_dir marker v)
                (ground arith)
        ]
