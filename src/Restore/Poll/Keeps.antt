-- ===== src/Restore/Poll/Keeps.antt =====
-- What the loop over a task keeps, whatever the task does.
use backup_sentinel.Prelude.{
  ◌==◌, ℕ, zero, suc, String, Bool, true, false, Option, none, some, List, [], ◌∷◌, nat_eq,
  string_eq,
}
use backup_sentinel.Restore.Effect.{World, Act, pure, ◌>>◌}
use backup_sentinel.Restore.Poll.{
  abort, TaskStatus, going_on, stopped, LogLine, TaskApi, Poll, heard, exit_of, raise_if,
  await_stopped, stop_task, progressed, read_lines, fetch, judge, blip, pass_on, poll_pass,
}
use backup_sentinel.Restore.Worker.{ProgressLine, Server}
use backup_sentinel.Restore.Effect.Runs.{
  Runs, pure-Runs, raise-Runs, if-Runs, attempt-Runs, bind-Runs,
}
use backup_sentinel.Restore.Worker.Laws.{IsSteady, IsLocal, IsServer, IsLocal-Runs, now-Runs}

-- The requests act on the host only and end.
pub record IsTaskApi {H : Type 0} (s : Server H) (api : TaskApi H) : Type 0 where
  pub node : IsLocal s api.node
  pub delete_task : (node upid : String) → IsLocal s (api.delete_task node upid)
  pub get_task : (node upid : String) → IsLocal s (api.get_task node upid)
  pub get_log : (node upid : String) (seen : ℕ) → IsLocal s (api.get_log node upid seen)

-- The callbacks keep what others keep.
pub record AreCallbacks {H : Type 0} (s : Server H) (run_id : ℕ) (on : ProgressLine → Act H Unit)
    (cancel : Act H Bool) : Type 1 where
  pub on_progress :
      (P : World H → Type 0) (line : ProgressLine) → IsSteady s run_id P → Runs P (on line)
  pub should_cancel : (P : World H → Type 0) → IsSteady s run_id P → Runs P cancel

pub raise_if-Runs :
    {H : Type 0} {P : World H → Type 0} (b : Bool) (message : String) → Runs P (raise_if b message)
raise_if-Runs b message = if-Runs b _ _ (raise-Runs _) (pure-Runs tt)

pub exit_of-Runs :
    {H : Type 0} {P : World H → Type 0} (e : Option String) (lines : List String)
    → Runs P (exit_of e lines)
unfolding exit_of
exit_of-Runs none lines = pure-Runs tt
exit_of-Runs (some e) lines = if-Runs (e == "OK") _ _ (pure-Runs tt) (raise-Runs _)

module _ {H : Type 0} {s : Server H} {api : TaskApi H} {run_id : ℕ} {on : ProgressLine → Act H Unit}
    {cancel : Act H Bool} (laws : IsServer s) (tasks : IsTaskApi s api)
    (calls : AreCallbacks s run_id on cancel) (node upid : String) (factor interval : ℕ)
    {P : World H → Type 0} (p : IsSteady s run_id P) where
  await_stopped-Runs : (attempts : ℕ) → Runs P (await_stopped s api node upid attempts)
  unfolding await_stopped
  await_stopped-Runs zero = pure-Runs tt
  await_stopped-Runs (suc attempts) =
      bind-Runs _ _ (attempt-Runs _ _ (IsLocal-Runs _ p (tasks.get_task node upid))) λ status.
        elim status
          as (λ st. Runs {A = Unit} P (elim st [
            | stopped _ ↦ pure tt
            | going_on ↦ s.sleep 1 >> await_stopped s api node upid attempts
          ])) [
            | stopped e ↦ pure-Runs tt
            | going_on ↦
                bind-Runs _ _ (IsLocal-Runs _ p (laws.sleep 1)) (λ _. await_stopped-Runs attempts)
          ]

  stop_task-Runs : Runs P (stop_task s api node upid)
  unfolding stop_task
  stop_task-Runs =
      bind-Runs _ _ (IsLocal-Runs _ p (tasks.delete_task node upid)) λ _. await_stopped-Runs 30

  pub abort-Runs : Runs P (abort s api node upid factor interval on cancel)
  unfolding abort
  abort-Runs = bind-Runs _ _ (attempt-Runs tt _ stop_task-Runs) λ _. raise-Runs _

  progressed-Runs :
      (q : Poll) (l : Option ProgressLine)
      → Runs P (progressed s api node upid factor interval on cancel q l)
  progressed-Runs q none = pure-Runs q
  progressed-Runs q (some line) =
      bind-Runs _ _ (now-Runs s) λ t. bind-Runs _ _ (calls.on_progress P _ p) λ _. pure-Runs _

  pub read_lines-Runs :
      (q : Poll) (lines : List LogLine)
      → Runs P (read_lines s api node upid factor interval on cancel q lines)
  unfolding read_lines
  read_lines-Runs q [] = pure-Runs q
  read_lines-Runs q (l ∷ lines) =
      bind-Runs _ _ (progressed-Runs (heard q l) l.progress) λ r. read_lines-Runs r lines

  pub fetch-Runs : (q : Poll) → Runs P (fetch s api node upid factor interval on cancel q)
  unfolding fetch
  fetch-Runs q = attempt-Runs none _ (
      bind-Runs _ _ (IsLocal-Runs _ p (tasks.get_task node upid)) λ status.
        bind-Runs _ _ (IsLocal-Runs _ p (tasks.get_log node upid q.seen_log_lines))
          λ lines. pure-Runs _)

  judge-Runs :
      (began : ℕ) (q : Poll) (status : TaskStatus)
      → Runs P (judge s api node upid factor interval on cancel began q status)
  unfolding judge
  judge-Runs began q (stopped e) =
      bind-Runs _ _ (exit_of-Runs e q.recent_lines) λ _. pure-Runs false
  judge-Runs began q going_on = bind-Runs _ _ (now-Runs s) λ t.
      bind-Runs _ _ (raise_if-Runs _ _)
        λ _. bind-Runs _ _ (IsLocal-Runs _ p (laws.sleep interval)) λ _. pure-Runs true

  blip-Runs :
      (began : ℕ) (q : Poll) → Runs P (blip s api node upid factor interval on cancel began q)
  unfolding blip
  blip-Runs began q =
      bind-Runs _ _ (IsLocal-Runs _ p (laws.sleep interval))
        λ _. bind-Runs _ _ (now-Runs s) λ t. raise_if-Runs _ _

  pass_on-Runs :
      (began : ℕ) (q : Poll) (r : Option (TaskStatus × List LogLine))
      → Runs P (pass_on s api node upid factor interval on cancel began q r)
  unfolding pass_on
  pass_on-Runs began q none = bind-Runs _ _ (blip-Runs began q) λ _. pure-Runs _
  pass_on-Runs began q (some (status, lines)) =
      bind-Runs _ _ (read_lines-Runs q lines)
        λ r. bind-Runs _ _ (judge-Runs began _ status) λ more. pure-Runs _

  pub poll_pass-Runs :
      (began : ℕ) (q : Poll) → Runs P (poll_pass s api node upid factor interval on cancel began q)
  unfolding poll_pass
  poll_pass-Runs began q = bind-Runs _ _ (calls.should_cancel P p) λ stop.
      if-Runs stop _ _ (bind-Runs _ _ abort-Runs λ _. pure-Runs none)
        (bind-Runs _ _ (fetch-Runs q) λ r. pass_on-Runs began q r)
