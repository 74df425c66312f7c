-- ===== src/Restore/Watchdog.antt =====
-- The watchdog of the queue in app/web/sync.py: `_recover_stuck_restores`, `_reap_orphans`,
-- `_kick_restore_queue`, `_should_drain_now`, `_restore_queue_watchdog`, and
-- `reconcile_and_resume_restores`. The executor of one slot is an interface.
use backup_sentinel.Prelude.{
  if◌then◌else◌, ◌==◌, is_empty, ℕ, zero, suc, Bool, true, false, not, ◌&&◌, Option, none, some,
  List, [], ◌∷◌, nat_eq, string_eq,
}
use backup_sentinel.Restore.Recover.{recover_stuck_runs}
use backup_sentinel.Restore.Runs.{has_active_run, has_queued_runs}
use backup_sentinel.Restore.Effect.{Act, pure, query, transact, attempt, ◌>>=◌, ◌>>◌}
use backup_sentinel.Restore.Planner.{Config}
use backup_sentinel.Restore.Types.{Run}
use backup_sentinel.Restore.Worker.{owned_vmids}
use backup_sentinel.Restore.Worker.Held.{listed_running, reconcile_on_startup}
use backup_sentinel.Restore.Worker.Resume.{resume_run}
use backup_sentinel.Restore.Planner.Again.{plan_from_run}
use backup_sentinel.Restore.Planner.Build.{Orchestra}

-- The slot: whether a future is there and is done, and the submission of `run_restore_queue` or of
-- the runs to resume, which does not wait for them.
pub record Slot (H : Type 0) : Type 0 where
  pub is_done : Act H (Option Bool)
  pub submit_queue : Act H Unit
  pub submit_resume : Config → List Run → Act H Unit
  -- `restore_config.load()`
  pub configuration : Act H (Option Config)
  -- `ensure_host_key_pinned` and `build_server`
  pub pin_host_key : Config → Act H Config

unfoldable pub should_drain_now : Bool → Bool → Bool → Bool
should_drain_now has_active paused has_queued = has_queued && not has_active && not paused

-- `_restore_future is not None and not _restore_future.done()`
abbrev pub is_occupied : Option Bool → Bool
is_occupied none = false
is_occupied (some done) = not done

abbrev is_there : Option Config → Bool
is_there none = false
is_there (some _) = true

module _ {H : Type 0} (o : Orchestra H) (slot : Slot H) where
  unfoldable pub kick_restore_queue : Act H Unit
  kick_restore_queue = do
    future ← slot.is_done
    active ← query has_active_run
    if is_occupied future && active then pure tt else slot.submit_queue

  unfoldable pub recover_with_config : Option Config → Act H Unit
  recover_with_config none = pure tt
  recover_with_config (some config) = do
    pinned ← slot.pin_host_key config
    recovered ← recover_stuck_runs o pinned
    if recovered == 0 then pure tt else kick_restore_queue

  unfoldable pub recover_stuck_restores : Act H Unit
  recover_stuck_restores = do
    runs ← query listed_running
    if is_empty runs then pure tt else slot.configuration >>= recover_with_config

  unfoldable pub reap_with_config : Option Config → Act H Unit
  reap_with_config none = pure tt
  reap_with_config (some config) = attempt tt do
    slot.pin_host_key config
    hosts ← o.production_endpoints
    o.server.verify_host_identity hosts
    owned ← query owned_vmids
    o.server.reap owned
    pure tt

  unfoldable pub reap_orphans : Act H Unit
  reap_orphans = do
    active ← query has_active_run
    if active then pure tt else slot.configuration >>= reap_with_config

  unfoldable pub drain_check : Act H Unit
  drain_check = do
    active ← query has_active_run
    paused ← o.queue_paused
    waiting ← query has_queued_runs
    if should_drain_now active paused waiting then kick_restore_queue else pure tt

  unfoldable pub restore_queue_watchdog : Act H Unit
  restore_queue_watchdog = do recover_stuck_restores; reap_orphans; attempt tt drain_check

  -- the first fifty of the running runs
  abbrev first_runs : ℕ → List Run → List Run
  first_runs zero runs = []
  first_runs (suc n) [] = []
  first_runs (suc n) (run ∷ runs) = run ∷ first_runs n runs

  unfoldable pub resume_with_config : Option Config → Act H Unit
  resume_with_config none = pure tt
  resume_with_config (some config) = do
    runs ← query listed_running
    let resume = do
      pinned ← slot.pin_host_key config
      slot.submit_resume pinned (first_runs 50 runs)
    if is_empty runs then pure tt else resume

  unfoldable pub reconcile_and_resume_restores : Act H Unit
  reconcile_and_resume_restores = attempt tt do
    before ← slot.configuration
    transact (reconcile_on_startup (is_there before))
    found ← slot.configuration
    resume_with_config found

  -- `_resume_all`, in the slot
  unfoldable pub resume_all : Config → List Run → Act H Unit
  resume_all config [] = pure tt
  resume_all config (run ∷ runs) = do
    attempt tt
        do plan ← plan_from_run o config run; resume_run o.server plan run.id run.task_upid; pure tt
    resume_all config runs
