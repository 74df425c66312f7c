-- ===== src/Restore/Worker/Resume.antt =====
-- `resume_run` of app/services/restore_worker.py: the rest of a run after the application started
-- again. `none` stands for a restore that goes on, whose run stays running.
pub mod Ends
use backup_sentinel.Prelude.{
  if◌then◌else◌, ◌==◌, ℕ, ◌-◌, String, Bool, true, false, not, Option, none, some, nat_eq,
  string_eq,
}
use backup_sentinel.Restore.Runs.{get_run}
use backup_sentinel.Restore.Effect.{
  Fault, restore_cancelled, failure, Act, pure, raise, query, try_except, track, ◌>>◌, attempt,
  ◌>>=◌,
}
use backup_sentinel.Restore.Pack.{start}
use backup_sentinel.Restore.Types.{
  Result, cancelled, Status, running, network, booting, probing, note, error_text, Run,
}
use backup_sentinel.Restore.Worker.{RunPlan, qemu, lxc, Server, now}
use backup_sentinel.Restore.Worker.Probing.{probe_loop}
use backup_sentinel.Restore.Worker.Progress.{on_progress, fresh_tracker}
use backup_sentinel.Restore.Worker.Ending.{finalize}
use backup_sentinel.Restore.Worker.Pipeline.{Ran, cancel_asked, set_phase, provision}

module _ {H : Type 0} (s : Server H) (plan : RunPlan) (run_id : ℕ) where
  abbrev has_upid : Option String → Bool
  has_upid none = false
  has_upid (some upid) = not (upid == "")

  -- the task recorded, or else the one that runs on the host
  unfoldable pub find_task : Option String → Act H (Option String)
  find_task upid =
      if has_upid upid
      then pure upid
      else attempt upid (s.find_running_restore_upid plan.restore_vmid)

  unfoldable pub reattach : Option String → Act H Unit
  reattach none = pure tt
  reattach (some upid) = if upid == "" then pure tt else (do
    track fresh_tracker
    s.poll_task upid (on_progress s run_id plan.restore_vmid) (cancel_asked s plan run_id))

  -- only a cancellation is raised again
  unfoldable pub unless_cancelled : Fault → Act H Bool
  unless_cancelled (restore_cancelled message) = raise (restore_cancelled message)
  unless_cancelled (failure message) = pure false

  unfoldable pub is_unlocked : Act H Bool
  is_unlocked = try_except (s.wait_unlocked plan.restore_vmid >> pure true) unless_cancelled

  unfoldable pub ensure_helper : Act H Unit
  ensure_helper = do
    there ← s.exists plan.helper_vmid lxc
    if there then pure tt else provision s plan run_id

  unfoldable pub ensure_booted : Bool → Act H Unit
  ensure_booted running_now = if running_now then pure tt else (do
    set_phase s plan run_id network
    s.rewrite_nics plan.restore_vmid plan.vlan_tag plan.guest_vlan plan.label
    set_phase s plan run_id booting
    attempt tt (s.start plan.restore_vmid))

  unfoldable pub finish_tail : Act H Ran
  finish_tail = do
    running_now ← s.is_running plan.restore_vmid
    ensure_helper
    ensure_booted running_now
    set_phase s plan run_id probing
    (result, checks) ← probe_loop s plan run_id (cancel_asked s plan run_id)
    pure (record { result = result; checks = checks; log_text = "" })

  unfoldable pub resume_body : Option String → Act H (Option Ran)
  resume_body upid = do
    reattach upid
    unlocked ← is_unlocked
    if unlocked then finish_tail >>= (λ ran. pure (some ran)) else pure none

  unfoldable pub still_locked : Act H Bool
  still_locked = attempt false do
    there ← s.exists plan.restore_vmid qemu
    if there then s.vm_locked plan.restore_vmid else pure false

  unfoldable pub resume_failed : Fault → Act H (Option Ran)
  resume_failed (restore_cancelled _) =
      pure
        (some (record { result = cancelled; checks = note "cancelled by operator"; log_text = "" }))
  resume_failed (failure message) = do
    locked ← still_locked
    if locked
        then pure none
        else pure
            (some (record { result = Result.error; checks = error_text message; log_text = "" }))

  abbrev started_at_of : Option Run → Option ℕ
  started_at_of none = none
  started_at_of (some run) = run.started_at

  -- `_seconds_since`, or the time since the resume
  abbrev duration_of : ℕ → Option ℕ → ℕ → ℕ
  duration_of clock none since = since
  duration_of clock (some started) since = clock - started

  unfoldable pub end_resume : ℕ → Option Ran → Act H Status
  end_resume start none = pure running
  end_resume start (some ran) = do
    run ← query (get_run run_id)
    clock ← query (λ db. db.clock)
    t ← now s
    finalize s plan run_id ran.result ran.checks (duration_of clock (started_at_of run) (t - start))
        ""

  unfoldable pub resume_run : Option String → Act H Status
  resume_run upid = do
    start ← now s
    attempt tt s.ensure_sandbox_bridge
    task ← find_task upid
    ran ← try_except (resume_body task) resume_failed
    end_resume start ran
