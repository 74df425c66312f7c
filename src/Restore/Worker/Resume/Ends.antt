-- ===== src/Restore/Worker/Resume/Ends.antt =====
-- How a resumed run ends.
use backup_sentinel.Prelude.{
  ◌==◌, ℕ, ◌≤◌, String, ◌≡◌, refl, ap, ◌⊎◌, inl, inr, Bool, true, false, Option, none, some, nat_eq,
  string_eq,
}
use backup_sentinel.Restore.Effect.{
  Fault, restore_cancelled, failure, Outcome, returned, World, pure, query, try_except, continue,
  attempt, ◌>>=◌,
}
use backup_sentinel.Restore.Runs.{get_run, cancel_requested}
use backup_sentinel.Restore.Pack.{start}
use backup_sentinel.Restore.Types.{Status, running, network, booting, probing, Run, is_queued}
use backup_sentinel.Restore.Worker.{RunPlan, qemu, lxc, Server, now}
use backup_sentinel.Restore.Effect.Runs.{
  Runs, pure-Runs, raise-Runs, query-Runs, if-Runs, try_except-Runs, attempt-Runs, bind-Runs,
}
use backup_sentinel.Restore.Effect.Returns.{
  Returns, pure-Returns, if-Returns, try_except-Returns, attempt-Returns, bind-Returns, after-bind,
}
use backup_sentinel.Restore.Worker.Resume.{
  find_task, reattach, unless_cancelled, is_unlocked, ensure_helper, ensure_booted, finish_tail,
  resume_body, still_locked, resume_failed, end_resume, resume_run,
}
use backup_sentinel.Restore.Worker.Laws.{IsSteady, IsServer, IsLocal-Runs, track-Runs}
use backup_sentinel.Restore.Worker.Pipeline.{Ran, cancel_asked}
use backup_sentinel.Restore.Worker.Pipeline.Steady.{set_phase-Runs, provision-Runs}
use backup_sentinel.Restore.Worker.Pipeline.Ends.{
  Underway, Underway-IsSteady, IsEnded, now-returns, finalize-IsEnded,
}
use backup_sentinel.Restore.Worker.Probing.Ends.{probe_loop-Runs}
use backup_sentinel.Restore.Worker.Progress.Steady.{on_progress-Runs}

module _ {H : Type 0} {s : Server H} {run_id : ℕ} {P : World H → Type 0} (laws : IsServer s)
    (p : IsSteady s run_id P) (plan : RunPlan) where
  find_task-Returns : (upid : Option String) → Returns P (find_task s plan run_id upid)
  unfolding find_task
  find_task-Returns upid =
      if-Returns _ _ _ (pure-Returns upid)
        (attempt-Returns _ _ (IsLocal-Runs _ p (laws.find_running_restore_upid plan.restore_vmid)))

  reattach-Runs : (upid : Option String) → Runs P (reattach s plan run_id upid)
  unfolding reattach cancel_asked
  reattach-Runs none = pure-Runs tt
  reattach-Runs (some upid) = if-Runs (upid == "") _ _ (pure-Runs tt) (
      bind-Runs _ _ (track-Runs _ p) λ _.
        laws.poll_task P run_id upid _ _ p (on_progress-Runs laws p plan.restore_vmid)
          (query-Runs (cancel_requested run_id)))

  unless_cancelled-Runs : (f : Fault) → Runs P (unless_cancelled s plan run_id f)
  unfolding unless_cancelled
  unless_cancelled-Runs (restore_cancelled message) = raise-Runs _
  unless_cancelled-Runs (failure message) = pure-Runs false

  is_unlocked-Runs : Runs P (is_unlocked s plan run_id)
  unfolding is_unlocked
  is_unlocked-Runs =
      try_except-Runs _ _
        (bind-Runs _ _ (IsLocal-Runs _ p (laws.wait_unlocked plan.restore_vmid))
          λ _. pure-Runs true)
        unless_cancelled-Runs

  ensure_helper-Runs : Runs P (ensure_helper s plan run_id)
  unfolding ensure_helper
  ensure_helper-Runs =
      bind-Runs _ _ (IsLocal-Runs _ p (laws.exists plan.helper_vmid lxc))
        λ there. if-Runs there _ _ (pure-Runs tt) (provision-Runs laws p plan)

  ensure_booted-Runs : (running_now : Bool) → Runs P (ensure_booted s plan run_id running_now)
  unfolding ensure_booted
  ensure_booted-Runs running_now = if-Runs running_now _ _ (pure-Runs tt) (
      bind-Runs _ _ (set_phase-Runs laws p plan network) λ _.
        bind-Runs _ _ (IsLocal-Runs _ p (laws.rewrite_nics _ _ _ _)) λ _.
          bind-Runs _ _ (set_phase-Runs laws p plan booting)
            λ _. attempt-Runs _ _ (IsLocal-Runs _ p (laws.start plan.restore_vmid)))

  finish_tail-Runs : 1 ≤ plan.interval → Runs P (finish_tail s plan run_id)
  unfolding finish_tail cancel_asked
  finish_tail-Runs positive =
      bind-Runs _ _ (IsLocal-Runs _ p (laws.is_running plan.restore_vmid)) λ running_now.
        bind-Runs _ _ ensure_helper-Runs λ _. bind-Runs _ _ (ensure_booted-Runs running_now) λ _.
          bind-Runs _ _ (set_phase-Runs laws p plan probing) λ _.
            bind-Runs _ _ (probe_loop-Runs laws plan (cancel_requested run_id) positive p)
              λ r. pure-Runs _

  resume_body-Runs :
      (upid : Option String) → 1 ≤ plan.interval → Runs P (resume_body s plan run_id upid)
  unfolding resume_body
  resume_body-Runs upid positive = bind-Runs _ _ (reattach-Runs upid) λ _.
      bind-Runs _ _ is_unlocked-Runs λ unlocked.
        if-Runs unlocked _ _ (bind-Runs _ _ (finish_tail-Runs positive) λ ran. pure-Runs _)
          (pure-Runs none)

  resume_failed-Returns : (f : Fault) → Returns P (resume_failed s plan run_id f)
  unfolding resume_failed still_locked
  resume_failed-Returns (restore_cancelled _) = pure-Returns _
  resume_failed-Returns (failure message) =
      bind-Returns _ _
        (attempt-Returns _ _ (
          bind-Runs _ _ (IsLocal-Runs _ p (laws.exists plan.restore_vmid qemu)) λ there.
            if-Runs there _ _ (IsLocal-Runs _ p (laws.vm_locked plan.restore_vmid))
              (pure-Runs false)))
        λ locked. if-Returns locked _ _ (pure-Returns none) (pure-Returns _)

  resume-Returns :
      (upid : Option String)
      → 1 ≤ plan.interval
      → Returns P (try_except (resume_body s plan run_id upid) (resume_failed s plan run_id))
  resume-Returns upid positive =
      try_except-Returns _ _ (resume_body-Runs upid positive) resume_failed-Returns

-- The run goes on, and its row is there and does not wait in the queue.
pub record IsLeft {H : Type 0} (run_id : ℕ) (out : World H × Outcome Status) : Type 0 where
  pub run : Run
  pub found : get_run run_id out.0.db ≡ some run
  pub has_started : is_queued run.status ≡ false
  pub returns : out.1 ≡ returned running

module _ {H : Type 0} {s : Server H} {run_id : ℕ} (laws : IsServer s) (plan : RunPlan) where
  end_resume-Ends :
      (start : ℕ) (ran : Option Ran) (w : World H)
      → Underway run_id w
      → IsLeft run_id (end_resume s plan run_id start ran w)
        ⊎ IsEnded plan run_id (end_resume s plan run_id start ran w)
  unfolding end_resume pure query now ◌>>=◌ continue get_run
  end_resume-Ends start none w u =
      inl (record { run = u.0; found = u.1; has_started = u.2; returns = refl })
  end_resume-Ends start (some ran) w u =
      inr (finalize-IsEnded laws plan ran.result ran.checks _ "" w u)

  -- Where every method of the server ends, its polls too, and meanwhile no other process deletes the
  -- row of the run or puts a run that has started back in the queue, a run that had started, once
  -- resumed with an interval of at least a second, is either reported as still running, with its row
  -- there and not in the queue, or has ended like any executed run.
  pub resume_run-Ends :
      (upid : Option String) (w : World H) (r : Run)
      → 1 ≤ plan.interval
      → get_run run_id w.db ≡ some r
      → is_queued r.status ≡ false
      → IsLeft run_id (resume_run s plan run_id upid w)
        ⊎ IsEnded plan run_id (resume_run s plan run_id upid w)
  unfolding resume_run get_run
  resume_run-Ends upid w r positive found has_started =
      let p = Underway-IsSteady s run_id in
      let Q : World H × Outcome Status → Type 0 =
        λ out. IsLeft run_id out ⊎ IsEnded plan run_id out in
      let u : Underway run_id w = (r, found, has_started) in
      let (u1, (_, bridged)) =
        (attempt-Returns tt _ (IsLocal-Runs _ p laws.ensure_sandbox_bridge)).at w u in
      let w1 = (attempt tt s.ensure_sandbox_bridge w).0 in
      let (u2, (task, looked)) = (find_task-Returns laws p plan upid).at w1 u1 in
      let w2 = (find_task s plan run_id upid w1).0 in
      let (u3, (ran, over)) = (resume-Returns laws p plan task positive).at w2 u2 in
      after-bind Q (now s) _ w (s.monotonic w.host) (ap (λ x. x.1) (now-returns s w)) (
        rw (now-returns s w) (
          after-bind Q _ _ w tt bridged (
            after-bind Q _ _ w1 task looked
              (after-bind Q _ _ w2 ran over (end_resume-Ends (s.monotonic w.host) ran _ u3)))))
