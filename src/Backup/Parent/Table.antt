-- ===== src/Backup/Parent/Table.antt =====
-- What the first loop of src/backup/model/IncrementalParent.cpp leaves in its table.
use btrfs_backup.Common.{
  Bool, true, not, ◌&&◌, ◌||◌, List, [], ◌∷◌, ◌++◌, ◌≡◌, ◌⊎◌, inl, inr, refl, Option, none, some,
  find, any, In, In-append, In-append_left, In-append_right, ◌==◌, ==_iff, list_eq, nat_eq, arith,
  Bool-cases, find-some,
}
use btrfs_backup.Core.Errors.{Result, ok, >>=-eq-ok}
use btrfs_backup.Config.Path.{path_eq}
use btrfs_backup.Backup.Snapshot.{SourceId, SnapshotInfo, ReceivedSnapshotUuid}
use btrfs_backup.Backup.Parent.{
  RemoteTable, index_remotes, index_remote, insert_remote, is_entry_of,
}

-- A snapshot of the target that can be a parent.
unfoldable pub is_usable : SourceId → SnapshotInfo → Bool
is_usable source_id remote =
    remote.source_id == source_id && remote.readonly && not (remote.received_uuid.value == [])

abbrev pub Entry : Type 0
Entry = ReceivedSnapshotUuid × SnapshotInfo

-- An entry that stands for a snapshot: the same received UUID, at the same path.
pub record Represents (remote : SnapshotInfo) (entry : Entry) : Type 0 where
  pub same_uuid : entry.0.value ≡ remote.received_uuid.value
  pub same_path : entry.1.path ≡ remote.path

-- What one round adds.
pub record Extends (source_id : SourceId) (remote : SnapshotInfo) (seen seen' : Bool × RemoteTable)
    : Type 0 where
  pub exist : seen'.0 ≡ (seen.0 || remote.source_id == source_id)
  pub kept : (e : Entry) → In e seen.1 → In e seen'.1
  pub added :
      (e : Entry)
      → In e seen'.1
      → In e seen.1 ⊎ (e ≡ (remote.received_uuid, remote)) × (is_usable source_id remote ≡ true)
  pub found : is_usable source_id remote ≡ true → (e : Entry) × In e seen'.1 × Represents remote e

In_of-last : (e x : Entry) (table : RemoteTable) → In e (table ++ x ∷ []) → In e table ⊎ (e ≡ x)
In_of-last e x table m = elim (In-append e table (x ∷ []) m) [
  | inl old ↦ inl old
  | inr (inl new) ↦ inr new
  | inr (inr none_left) ↦ elim none_left [ ]
]

pub is_entry_of-eq :
    (remote : SnapshotInfo) (e : Entry)
    → is_entry_of remote e ≡ true
    → e.0.value ≡ remote.received_uuid.value
unfolding is_entry_of
is_entry_of-eq remote e t = (==_iff e.0.value remote.received_uuid.value).0 t

insert-Extends :
    (source_id : SourceId) (exist : Bool) (table table' : RemoteTable) (remote : SnapshotInfo)
    (o : Option Entry)
    → is_usable source_id remote ≡ true
    → find (is_entry_of remote) table ≡ o
    → insert_remote source_id table remote o ≡ ok table'
    → Extends source_id remote (exist, table) (true, table')
unfolding insert_remote is_usable
insert-Extends source_id exist table table' remote none u f h =
    let e : table ++ (remote.received_uuid, remote) ∷ [] ≡ table' = ground arith in
    rw (← e) (record {
      exist = ground arith;
      kept = λ x m. In-append_left x table _ m;
      added = λ x m. elim (In_of-last x (remote.received_uuid, remote) table m) [
        | inl old ↦ inl old
        | inr new ↦ inr (new, u)
      ];
      found = λ _. (
        (remote.received_uuid, remote),
        In-append_right _ table _ (inl refl),
        record { same_uuid = refl; same_path = refl },
      );
    })
insert-Extends source_id exist table table' remote (some d) u f h =
    let e : table ≡ table' = ground arith in
    let same : d.1.path ≡ remote.path = ground (arith, ==_iff d.1.path remote.path) in
    let (m, t) = find-some (is_entry_of remote) d table f in
    rw (← e) (record {
      exist = ground arith;
      kept = λ x m. m;
      added = λ x m. inl m;
      found = λ _. (d, m, record { same_uuid = is_entry_of-eq remote d t; same_path = same });
    })

pub index_remote-Extends :
    (source_id : SourceId) (seen seen' : Bool × RemoteTable) (remote : SnapshotInfo)
    → index_remote source_id seen remote ≡ ok seen'
    → Extends source_id remote seen seen'
unfolding index_remote is_usable
index_remote-Extends source_id (exist, table) seen' remote h =
    elim (Bool-cases (is_usable source_id remote)) [
      | inl u ↦
          let (t, f, e) =
            >>=-eq-ok (insert remote) (λ t. ok (true, t)) {b = seen'} (ground arith) in
          let new : seen' ≡ (true, t) = ground arith in
          rw new (
            insert-Extends source_id exist table t remote (find (is_entry_of remote) table) u refl
              f)
      | inr u ↦
          let e : seen' ≡ (exist || remote.source_id == source_id, table) = ground arith in
          rw e (record {
            exist = refl;
            kept = λ x m. m;
            added = λ x m. inl m;
            found = λ v. absurd (ground arith);
          })
    ]
  where
    insert : SnapshotInfo → Result RemoteTable
    insert r = insert_remote source_id table r (find (is_entry_of r) table)

-- What the whole loop leaves: whether the source has a snapshot, entries that are usable
-- snapshots, and an entry for every usable snapshot.
pub record IsTableOf (source_id : SourceId) (remotes : List SnapshotInfo)
    (seen seen' : Bool × RemoteTable) : Type 0 where
  pub exist : seen'.0 ≡ (seen.0 || any (λ r. r.source_id == source_id) remotes)
  pub kept : (e : Entry) → In e seen.1 → In e seen'.1
  pub sound :
      (e : Entry)
      → In e seen'.1
      → In e seen.1 ⊎ In e.1 remotes × (e.0 ≡ e.1.received_uuid) × (is_usable source_id e.1 ≡ true)
  pub complete :
      (r : SnapshotInfo)
      → In r remotes
      → is_usable source_id r ≡ true
      → (e : Entry) × In e seen'.1 × Represents r e

pub index_remotes-IsTableOf :
    (source_id : SourceId) (seen seen' : Bool × RemoteTable) (remotes : List SnapshotInfo)
    → index_remotes source_id seen remotes ≡ ok seen'
    → IsTableOf source_id remotes seen seen'
unfolding index_remotes any
index_remotes-IsTableOf source_id seen seen' [] h =
    let e : seen ≡ seen' = ground arith in
    rw (← e) (record {
      exist = ground arith;
      kept = λ x m. m;
      sound = λ x m. inl m;
      complete = λ r m u. elim m [ ];
    })
index_remotes-IsTableOf source_id seen seen' (remote ∷ rest) h =
    let (mid, one, more) = >>=-eq-ok (index_remote source_id seen remote) _ {b = seen'} h in
    let x = index_remote-Extends source_id seen mid remote one in
    let t = index_remotes-IsTableOf source_id mid seen' rest more in
    record {
      exist = ground (arith, x.exist, t.exist);
      kept = λ e m. t.kept e (x.kept e m);
      sound = λ e m. elim (t.sound e m) [
        | inl old ↦ elim (x.added e old) [
          | inl older ↦ inl older
          | inr (new, u) ↦ inr (inl (ground arith), ground arith, ground arith)
        ]
        | inr (later, u, v) ↦ inr (inr later, u, v)
      ];
      complete = λ r m u. elim m [
        | inl e ↦ let (d, k, rep) = x.found (rw (← e) u) in (d, t.kept d k, rw e rep)
        | inr later ↦ t.complete r later u
      ];
    }
