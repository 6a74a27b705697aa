-- ===== src/Lib.antt =====
-- btrfs-backup: planning and running backups of btrfs subvolumes.
--
-- A run of the program goes from a profile to a plan and from the plan to its execution. The
-- profile names a target and the sources. The inventories list the snapshots of each source on
-- both sides; a marker tells of a run that was interrupted. From these a plan is built for each
-- enabled source: what to recover, the name of the new snapshot, the parent of an incremental
-- transfer, what retention deletes, and the actions in their order. The executor carries the
-- actions out one by one, tells an event sink of each step, writes a checkpoint after each action
-- and stops when it is cancelled or when an action fails.
--
-- Which file models which part:
--   Core/ErrorCode, Core/Errors: src/core/ErrorCode.cpp, Errors.hpp. Code that throws gives a
--     Result; an exception is its class and its text.
--   Core/Identifiers: src/core/Identifiers.cpp.
--   Core/Calendar, Core/Time: src/core/RuntimeTime.cpp. A time point counts nanoseconds from
--     March of the year -400 and is not negative; a year has the four digits of the source. The
--     overflow of the 64-bit count for years outside 1677 to 2262 is not modelled.
--   Config/Path: what the code uses of std::filesystem::path, a path being its names and whether
--     it is absolute, an empty last name standing for a trailing separator.
--   Config/Validation, Config/Containment, Config/Profile: src/config/domain/Validation.cpp and
--     Profile.hpp.
--   Backup/Snapshot: src/backup/model/SnapshotInventory.cpp; the directory that is scanned and
--     the reader of metadata are parameters.
--   Backup/Parent: src/backup/model/IncrementalParent.cpp. The table of the first loop is a list
--     of entries in the order in which they were put in.
--   Backup/Retention: src/backup/model/RetentionPlan.cpp.
--   Backup/Recovery: src/backup/model/PendingRecovery.cpp.
--   Backup/Actions, Backup/RunPlan: src/backup/model/BackupRunActions.cpp and BackupRunPlan.cpp. A
--     std::map from sources is a list of pairs.
--   Backup/Events: src/backup/model/BackupRunEvent.hpp.
--   Backup/Execution: src/backup/execution/BackupRunExecutor.cpp and
--     BackupRunCheckpointPolicy.cpp. The event sink, the cancellation token, the executor of one
--     action and the checkpoint store are parameters over a world of their own, each of which may
--     throw; a part of the run gives the calls that it made, its result and the world after it.
--   Backup/Transfer: src/backup/transfer/TransferResult.cpp.
--   Backup/SnapshotTransfer: src/backup/transfer/SnapshotTransfer.cpp. The calls of a commit are a
--     parameter over a world; the variant beneath a directory root has the calls of that root.
--   State/RunStatus, State/Serialization: src/state/model/RunStatus.cpp and the names of actions in
--     src/state/persistence/BackupRunSerialization.cpp.
--   State/EventData, State/StatusBuilder, State/Status: src/state/projection/RunStatusBuilder.cpp.
--     A percentage or a duration of -1 is none; the clock and the percentage that is computed in
--     long doubles are parameters. The map of details is a list of pairs.
--   State/Publication, State/Projection: src/state/projection/StatusPublicationPolicy.cpp and
--     RunStatusProjection.cpp. The two functions that write a document are a parameter over a world
--     and may throw. State/Valid, Percent, Monotone, Attribution have the proofs.
--   Restore/Failure, Operations, Plan, Engine: src/restore/RestoreError.hpp, RestoreOperations.hpp,
--     RestorePlan.hpp and RestoreEngine.cpp. A step of the transaction gives its result, the local
--     flags and the world. Restore/Tree has the laws that the engine relies on, for paths of which
--     none is within another: each call changes the tree at one of them, and a move is a rename.
--     Restore/Staging, Outcome, Commit, Rollback and Guarantee have the proofs.
--   Restore/Catalog: src/restore/RepositoryCatalog.cpp.
--   Provisioning/Topology, Plan, Builder, Inspector: src/provisioning/StorageTopology.hpp,
--     DevicePreparationPlan.cpp, DevicePreparationPlanBuilder.cpp and StorageSafetyInspector.cpp.
--     Provisioning/Approval, Safety, Erasure and Layout have the proofs.
--   Daemon/ContinuationToken, Daemon/PageCollector: src/daemon/control/
--     BrowseContinuationTokenCodec.cpp and BrowseDirectoryPageCollector.cpp. The heap of the
--     collector is the sorted list of its elements.
--
-- Texts are lists of bytes. Counters of 64 bits that are added up keep their wrap-around; sizes
-- and indices that count elements of a list in memory do not reach their bounds and are natural
-- numbers. No definition runs on fuel: the loops go over lists, and the search for a free snapshot
-- name over the 99 numbers that the source tries.
--
-- Not modelled: the handlers of the single actions, the processes of a transfer, preflight checks,
-- the state files, the execution of device preparations, the restore planner, the
-- services of the daemon, the command line, the calls of the Linux platform and the KDE integration.
pub mod Common
pub mod Core
pub mod Config
pub mod Backup
pub mod State
pub mod Restore
pub mod Provisioning
pub mod Daemon
mod Tests
