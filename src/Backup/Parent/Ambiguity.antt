-- ===== src/Backup/Parent/Ambiguity.antt =====
-- When the first loop of src/backup/model/IncrementalParent.cpp refuses the target's snapshots.
use btrfs_backup.Common.{
  Bool, true, List, [], ◌∷◌, ◌≡◌, ◌≢◌, inl, inr, refl, Option, none, some, find, In, ==_iff,
  list_eq, nat_eq, arith, Bool-cases, find-some, ap,
}
use btrfs_backup.Core.Errors.{Result, Error, ok, err, >>=-eq-err}
use btrfs_backup.Config.Path.{path_eq}
use btrfs_backup.Backup.Snapshot.{SourceId, SnapshotInfo}
use btrfs_backup.Backup.Parent.{
  RemoteTable, index_remote, index_remotes, insert_remote, is_entry_of,
}
use btrfs_backup.Backup.Parent.Table.{is_usable, index_remote-Extends, is_entry_of-eq, Entry}

module _ (source_id : SourceId) (remotes : List SnapshotInfo) where
  -- Two snapshots of the target that both could be a parent, with one received UUID at two paths.
  pub record IsAmbiguous : Type 0 where
    pub first : SnapshotInfo
    pub second : SnapshotInfo
    pub first_in : In first remotes
    pub second_in : In second remotes
    pub first_usable : is_usable source_id first ≡ true
    pub second_usable : is_usable source_id second ≡ true
    pub same_uuid : first.received_uuid.value ≡ second.received_uuid.value
    pub other_path : first.path ≢ second.path

  abbrev AreUsable : RemoteTable → Type 0
  AreUsable table =
      (e : Entry)
      → In e table
      → In e.1 remotes × (e.0 ≡ e.1.received_uuid) × (is_usable source_id e.1 ≡ true)

  insert-IsAmbiguous :
      (table : RemoteTable) (remote : SnapshotInfo) (o : Option Entry) (x : Error)
      → AreUsable table
      → In remote remotes
      → is_usable source_id remote ≡ true
      → find (is_entry_of remote) table ≡ o
      → insert_remote source_id table remote o ≡ err x
      → IsAmbiguous
  unfolding insert_remote
  insert-IsAmbiguous table remote none x us m u f h = absurd (ground arith)
  insert-IsAmbiguous table remote (some d) x us m u f h =
      let (k, t) = find-some (is_entry_of remote) d table f in
      let (dm, du, dv) = us d k in
      record {
        first = d.1;
        second = remote;
        first_in = dm;
        second_in = m;
        first_usable = dv;
        second_usable = u;
        same_uuid = rw du at (is_entry_of-eq remote d t);
        other_path = λ e. ground (arith, ==_iff d.1.path remote.path);
      }

  index_remote-IsAmbiguous :
      (seen : Bool × RemoteTable) (remote : SnapshotInfo) (x : Error)
      → AreUsable seen.1
      → In remote remotes
      → index_remote source_id seen remote ≡ err x
      → IsAmbiguous
  unfolding index_remote is_usable
  index_remote-IsAmbiguous (exist, table) remote x us m h =
      elim (Bool-cases (is_usable source_id remote)) [
        | inl u ↦
            elim (>>=-eq-err
              (insert_remote source_id table remote (find (is_entry_of remote) table)) finish
              {e = x} (ground arith)) [
                | inl f ↦ insert-IsAmbiguous table remote _ x us m u refl f
                | inr (t, _, f) ↦ absurd (ground arith)
              ]
        | inr u ↦ absurd (ground arith)
      ]
    where
      finish : RemoteTable → Result (Bool × RemoteTable)
      finish t = ok (true, t)

  pub index_remotes-IsAmbiguous :
      (seen : Bool × RemoteTable) (rest : List SnapshotInfo) (x : Error)
      → AreUsable seen.1
      → ((r : SnapshotInfo) → In r rest → In r remotes)
      → index_remotes source_id seen rest ≡ err x
      → IsAmbiguous
  unfolding index_remotes
  index_remotes-IsAmbiguous seen [] x us ms h = absurd (ground arith)
  index_remotes-IsAmbiguous seen (r ∷ rest) x us ms h =
      elim (>>=-eq-err (index_remote source_id seen r) (λ s. index_remotes source_id s rest) h) [
        | inl f ↦ index_remote-IsAmbiguous seen r x us (ms r (inl refl)) f
        | inr (mid, o, f) ↦
            let ext = index_remote-Extends source_id seen mid r o in
            index_remotes-IsAmbiguous mid rest x
              (λ e m. elim (ext.added e m) [
                | inl old ↦ us e old
                | inr (new, u) ↦
                    (rw (ap (λ (p : Entry). p.1) new) (ms r (inl refl)), ground arith, ground arith)
              ])
              (λ s m. ms s (inr m)) f
      ]
