-- ===== src/Backup/RunPlan/Order.antt =====
-- The order of the actions of a source in src/backup/model/BackupRunPlan.cpp.
use btrfs_backup.Common.{
  Bool, List, [], ◌∷◌, ◌++◌, map, ◌≡◌, refl, ap, any, ==_refl, list_eq, nat_eq, Bool-cases, inl,
  inr, if◌then◌else◌,
}
use btrfs_backup.Core.Errors.{ok}
use btrfs_backup.Config.Profile.{ProfileSource, ProfileHookCommand}
use btrfs_backup.Backup.Snapshot.{SourceId}
use btrfs_backup.Backup.Parent.{IncrementalParentSelection}
use btrfs_backup.Backup.Retention.{RetentionPlan}
use btrfs_backup.Backup.Recovery.{PendingRecoveryPlan, required}
use btrfs_backup.Backup.Actions.{
  BackupRunAction, BackupRunActionKind, recover_pending, cleanup_incoming, create_snapshot,
  send_receive, verify_received, commit_received, apply_remote_retention, apply_local_retention,
  cleanup_source, HookPhase, before_snapshot, after_snapshot, hook_kind, backup_run_action_kind,
  backup_run_action_source_id, same_kind,
}
use btrfs_backup.Backup.RunPlan.{check_actions, is_hook, make_source_run_plan}
use btrfs_backup.Backup.RunPlan.SourcePlan.{
  SourcePlanContext, PlannedSourcePaths, hook_actions, recovery_actions, ordered_source_actions,
}

-- One hook kind for each hook.
abbrev pub hook_kinds : HookPhase → List ProfileHookCommand → List BackupRunActionKind
hook_kinds phase hooks = map (λ _. hook_kind phase) hooks

-- The order of the phases of a source, with the recovery if there is something to recover.
abbrev pub phases :
    Bool → List ProfileHookCommand → List ProfileHookCommand → List BackupRunActionKind
phases recovering before after =
    (if recovering then recover_pending ∷ [] else [])
    ++ cleanup_incoming
      ∷ (hook_kinds before_snapshot before
          ++ create_snapshot
            ∷ (hook_kinds after_snapshot after
                ++ send_receive ∷ verify_received ∷ commit_received ∷ apply_remote_retention
                  ∷ apply_local_retention ∷ cleanup_source ∷ []))

hook_actions-kinds :
    (source_id : SourceId) (phase : HookPhase) (hooks : List ProfileHookCommand)
    (rest : List BackupRunAction)
    → map backup_run_action_kind (hook_actions source_id phase hooks ++ rest)
      ≡ hook_kinds phase hooks ++ map backup_run_action_kind rest
unfolding hook_actions backup_run_action_kind
hook_actions-kinds source_id phase [] rest = refl
hook_actions-kinds source_id phase (h ∷ hooks) rest =
    ap (◌∷◌ (hook_kind phase)) (hook_actions-kinds source_id phase hooks rest)

check_actions-hooks :
    (source_id : SourceId) (seen : List BackupRunActionKind) (phase : HookPhase)
    (hooks : List ProfileHookCommand) (rest : List BackupRunAction)
    → check_actions source_id seen (hook_actions source_id phase hooks ++ rest)
      ≡ check_actions source_id seen rest
unfolding check_actions hook_actions backup_run_action_kind backup_run_action_source_id is_hook
check_actions-hooks source_id seen phase [] rest = refl
check_actions-hooks source_id seen before_snapshot (h ∷ hooks) rest =
    rw (==_refl source_id) (check_actions-hooks source_id seen before_snapshot hooks rest)
check_actions-hooks source_id seen after_snapshot (h ∷ hooks) rest =
    rw (==_refl source_id) (check_actions-hooks source_id seen after_snapshot hooks rest)

module _ (source : ProfileSource) (context : SourcePlanContext) (paths : PlannedSourcePaths)
    (recovery : PendingRecoveryPlan) (parent : IncrementalParentSelection)
    (local_retention remote_retention : RetentionPlan) where
  abbrev actions : List BackupRunAction
  actions =
      ordered_source_actions source context paths recovery parent local_retention remote_retention

  -- The kinds of the actions of a source are the phases in their order, whatever the plan of the
  -- source holds: the recovery, if there is one, the cleanup of the incoming directory, the hooks
  -- before the snapshot, the snapshot, the hooks after it, the transfer, its verification and its
  -- commit, both retentions, and the cleanup of the source.
  pub ordered_source_actions-kinds :
      map backup_run_action_kind actions
      ≡ phases
          (required recovery)
          context.profile.hooks.before_snapshot
          context.profile.hooks.after_snapshot
  unfolding ordered_source_actions recovery_actions backup_run_action_kind
  ordered_source_actions-kinds = elim (Bool-cases (required recovery)) [
    | inl e ↦ rw (e, hook_actions-kinds, hook_actions-kinds)
    | inr e ↦ rw (e, hook_actions-kinds, hook_actions-kinds)
  ]

  -- The constructor of a source's plan accepts the actions that are made for the source, whatever
  -- the hooks, the recovery and the retentions are.
  pub make_source_run_plan-ordered :
      make_source_run_plan source.id actions
      ≡ ok (record { source_id = source.id; actions = actions })
  unfolding make_source_run_plan ordered_source_actions recovery_actions backup_run_action_kind
      check_actions backup_run_action_source_id is_hook same_kind any
  make_source_run_plan-ordered = elim (Bool-cases (required recovery)) [
    | inl e ↦ rw e (simp (==_refl, check_actions-hooks))
    | inr e ↦ rw e (simp (==_refl, check_actions-hooks))
  ]
