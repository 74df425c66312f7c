-- ===== src/Restore/Poll/Followed.antt =====
-- A task is followed to its end: the fuel of the loop is enough.
use backup_sentinel.Prelude.{
  ℕ, zero, suc, ◌+◌, ◌≤◌, ◌<◌, String, ◌≡◌, Bool, Option, none, some, arith,
}
use backup_sentinel.Restore.Poll.{TaskApi, Poll, poll_pass, poll_from, poll_task, fresh_poll}
use backup_sentinel.Restore.Worker.{ProgressLine, Server, known}
use backup_sentinel.Restore.Worker.Laws.{IsSteady, IsServer, IsLocal-Runs}
use backup_sentinel.Restore.Worker.Probing.Ends.{now-RunsAt}
use backup_sentinel.Restore.Effect.{Outcome, returned, raised, diverged, World, Act, pure}
use backup_sentinel.Restore.Poll.Ends.{StopsBy, poll_pass-Leads, From, Passed}
use backup_sentinel.Restore.Poll.Keeps.{IsTaskApi, AreCallbacks, poll_pass-Runs}
use backup_sentinel.Restore.Effect.Runs.{RunsAt, bind-RunsAt}
use backup_sentinel.Restore.Effect.Leads.{Post}

Post-returned :
    {H A : Type 0} (Q : A → World H → Type 0) (r : World H × Outcome A) (a : A)
    → Post Q r
    → r.1 ≡ returned a
    → Q a r.0
Post-returned Q (w, returned b) a h e = let same : b ≡ a = cc e in rw same at h
Post-returned Q (w, raised f) a h e = absurd (cc e)
Post-returned Q (w, diverged) a h e = absurd h

module _ {H : Type 0} {s : Server H} {api : TaskApi H} {run_id : ℕ} {on : ProgressLine → Act H Unit}
    {cancel : Act H Bool} {P : World H → Type 0} (laws : IsServer s) (tasks : IsTaskApi s api)
    (calls : AreCallbacks s run_id on cancel) (upid : String) (factor interval time : ℕ)
    (p : IsSteady s run_id P) (stops : (node : String) → StopsBy s api node upid time) where
  follow :
      (node : String) (began fuel t : ℕ) (next : Option Poll) (w : World H)
      → Passed laws tasks calls node upid factor interval time (stops node) t next w
      → P w
      → ((q : Poll)
          → From s (t + interval) w
          → t < time
          → RunsAt P (poll_from s api node upid factor interval on cancel fuel began q) w)
      → RunsAt P
          (elim next [
            | none ↦ pure tt
            | some q ↦ poll_from s api node upid factor interval on cancel fuel began q
          ])
          w
  unfolding pure
  follow node began fuel t none w known h k = (h, tt)
  follow node began fuel t (some q) w known h k = k q known.0 known.1

  -- one pass, and what comes after it
  pass-RunsAt :
      (node : String) (began fuel : ℕ) (q : Poll) (w : World H)
      → P w
      → ((r : Poll) (w' : World H)
          → P w'
          → From s (s.monotonic w.host + interval) w'
          → s.monotonic w.host < time
          → RunsAt P (poll_from s api node upid factor interval on cancel fuel began r) w')
      → RunsAt P (poll_from s api node upid factor interval on cancel (suc fuel) began q) w
  unfolding poll_from
  pass-RunsAt node began fuel q w h k =
      let pass = poll_pass s api node upid factor interval on cancel began q in
      let leads =
        poll_pass-Leads laws tasks calls node upid factor interval time (stops node) began q w in
      bind-RunsAt P pass _ w
        ((poll_pass-Runs laws tasks calls node upid factor interval p began q).at w h)
        λ next e h1.
          follow node began fuel (s.monotonic w.host) next (pass w).0
            (Post-returned
              (Passed laws tasks calls node upid factor interval time (stops node)
                (s.monotonic w.host))
              (pass w) next leads e)
            h1 (λ r. k r (pass w).0 h1)

  poll_from-RunsAt :
      (node : String) (began fuel : ℕ) (q : Poll) (w : World H)
      → 1 ≤ interval
      → P w
      → time ≤ s.monotonic w.host + fuel
      → RunsAt P (poll_from s api node upid factor interval on cancel (suc fuel) began q) w
  poll_from-RunsAt node began zero q w positive h enough =
      pass-RunsAt node began zero q w h λ r w' h' later early. absurd (omega (arith, enough, early))
  poll_from-RunsAt node began (suc fuel) q w positive h enough =
      pass-RunsAt node began (suc fuel) q w h λ r w' h' later early.
        poll_from-RunsAt node began fuel r w' positive h' (omega (arith, enough, later, positive))

  -- The interface that the worker relies on: where the requests end and are answered from the time at
  -- which the task has stopped, following it ends too, with as much fuel as seconds are left until
  -- then and one more, and keeps what the callbacks and others keep.
  pub poll_task-RunsAt :
      (fuel : ℕ) (w : World H)
      → 1 ≤ interval
      → P w
      → time ≤ s.monotonic w.host + fuel
      → RunsAt P (poll_task s api (suc fuel) factor interval upid on cancel) w
  unfolding poll_task
  poll_task-RunsAt fuel w positive h enough =
      bind-RunsAt P api.node _ w ((IsLocal-Runs api.node p tasks.node).at w h) λ node e h1.
        now-RunsAt P s _ (api.node w).0 (
          poll_from-RunsAt node (s.monotonic (api.node w).0.host) fuel
            (fresh_poll (s.monotonic (api.node w).0.host)) (api.node w).0 positive h1
            (omega (arith, enough, tasks.node.clock w)))
