-- ===== src/Restore/Destroy/Laws.antt =====
-- The order of the calls of `destroy`: the deletion comes last.
use backup_sentinel.Prelude.{
  if◌then◌else◌, ℕ, zero, suc, ◌+◌, String, ◌≡◌, refl, ◌⊎◌, inl, inr, Bool, true, false, Option,
  arith,
}
use backup_sentinel.Restore.Effect.{
  Outcome, returned, raised, diverged, World, pure, handled, try_except, continue, attempt, ◌>>=◌,
  ◌>>◌,
}
use backup_sentinel.Restore.Destroy.{HostApi, says_running, unlock, is_running, await_down, destroy}
use backup_sentinel.Restore.Worker.{Guest}
use backup_sentinel.Restore.Effect.Runs.{IsOver}
use backup_sentinel.Restore.Effect.Returns.{bind-returned, after-bind}

-- How far the calls have got: before the first, when the unlock was tried, when the stop was asked for
-- and a number of seconds waited, and when the guest was read as not running.
pub data Stage : Type 0 where
  at_start unlock_tried seen_down : Stage
  waited : ℕ → Stage

abbrev pub stage_if : Bool → ℕ → Stage
stage_if still n = if still then waited n else seen_down

-- A read that fails counts as not running.
abbrev pub Reads :
    {H : Type 0} → (Stage → World H → Type 0) → ℕ → World H × Outcome (Option String) → Type 0
Reads At n (w, returned status) = At (stage_if (says_running status) n) w
Reads At n (w, raised f) = At seen_down w
Reads At n (w, diverged) = ⊥

-- Each call of the host ends and takes the world from one stage to the next; no other call does.
pub record IsStaged {H : Type 0} (api : HostApi H) (vmid : ℕ) (kind : Guest) (place : String)
    (At : Stage → World H → Type 0) : Type 0 where
  pub node :
      (stage : Stage) (w : World H)
      → At stage w
      → At stage (api.node w).0 × ((api.node w).1 ≡ returned place)
  pub shell_unlock :
      (w : World H)
      → At at_start w
      → At unlock_tried (api.shell_unlock kind vmid w).0 × IsOver (api.shell_unlock kind vmid w).1
  pub post_stop :
      (w : World H)
      → At unlock_tried w
      → At (waited 0) (api.post_stop place kind vmid w).0
        × IsOver (api.post_stop place kind vmid w).1
  pub get_status :
      (n : ℕ) (w : World H) → At (waited n) w → Reads At n (api.get_status place kind vmid w)
  pub sleep :
      (n : ℕ) (w : World H)
      → At (waited n) w
      → At (waited (suc n)) (api.sleep 1 w).0 × ((api.sleep 1 w).1 ≡ returned tt)

-- `r` is what the deletion makes of a world in which the guest was read as not running, or was waited
-- for thirty seconds.
pub record Deletes {H : Type 0} (api : HostApi H) (vmid : ℕ) (kind : Guest) (place : String)
    (At : Stage → World H → Type 0) (r : World H × Outcome Unit) : Type 0 where
  pub before : World H
  pub ready : At seen_down before ⊎ At (waited 30) before
  pub deletes : r ≡ api.delete_guest place kind vmid before

module _ {H : Type 0} where
  -- what is tried goes on, from where it ended
  tried :
      (P : World H → Type 0) (r : World H × Outcome Unit)
      → P r.0
      → IsOver r.1
      → P (handled (λ _. pure tt) r).0 × ((handled (λ _. pure tt) r).1 ≡ returned tt)
  unfolding handled pure
  tried P (w, returned a) h o = (h, refl)
  tried P (w, raised f) h o = (h, refl)
  tried P (w, diverged) h o = absurd o

  abbrev Answers : (Stage → World H → Type 0) → ℕ → World H × Outcome Bool → Type 0
  Answers At n r = (still : Bool) × ((r.1 ≡ returned still) × At (stage_if still n) r.0)

  status-Answers :
      (At : Stage → World H → Type 0) (n : ℕ) (r : World H × Outcome (Option String))
      → Reads At n r
      → Answers At n (handled (λ _. pure false) (continue (λ status. pure (says_running status)) r))
  unfolding handled pure continue
  status-Answers At n (w, returned status) h = (says_running status, (refl, h))
  status-Answers At n (w, raised f) h = (false, (refl, h))
  status-Answers At n (w, diverged) h = absurd h

module _ {H : Type 0} {api : HostApi H} {vmid : ℕ} {kind : Guest} {place : String}
    {At : Stage → World H → Type 0} (staged : IsStaged api vmid kind place At) where
  is_running-Answers :
      (n : ℕ) (w : World H) → At (waited n) w → Answers At n (is_running api vmid kind w)
  unfolding is_running attempt try_except ◌>>=◌ continue
  is_running-Answers n w h =
      let (h', e) = staged.node (waited n) w h in
      rw (bind-returned api.node _ w place e)
        (status-Answers At n _ (staged.get_status n (api.node w).0 h'))

  -- the world in which the wait ends
  abbrev IsReady : World H × Outcome Unit → Type 0
  IsReady r = (r.1 ≡ returned tt) × (At seen_down r.0 ⊎ At (waited 30) r.0)

  after_read :
      (attempts n : ℕ) (still : Bool) (w : World H)
      → ((w' : World H) → At (waited (suc n)) w' → IsReady (await_down api vmid kind attempts w'))
      → At (stage_if still n) w
      → IsReady ((if still then api.sleep 1 >> await_down api vmid kind attempts else pure tt) w)
  unfolding pure
  after_read attempts n true w rest h =
      let (h', e) = staged.sleep n w h in
      after-bind IsReady (api.sleep 1) (λ _. await_down api vmid kind attempts) w tt e (rest _ h')
  after_read attempts n false w rest h = (refl, inl h)

  await_down-IsReady :
      (attempts n : ℕ) (w : World H)
      → n + attempts ≡ 30
      → At (waited n) w
      → IsReady (await_down api vmid kind attempts w)
  unfolding await_down pure
  await_down-IsReady zero n w e h =
      let last : n ≡ 30 = omega (arith, e) in (refl, inr (rw last at h))
  await_down-IsReady (suc attempts) n w e h =
      let (still, (read, h')) = is_running-Answers n w h in
      after-bind IsReady (is_running api vmid kind) _ w still read (
        after_read attempts n still _
          (λ w' k. await_down-IsReady attempts (suc n) w' (omega (arith, e)) k) h')

  -- Where each call ends and takes the world from its stage to the next, `destroy` does what the deletion
  -- does, sent only after the unlock was tried, the stop was asked for and then either the guest was
  -- read as not running or thirty seconds were waited.
  pub destroy-Deletes :
      (w : World H) → At at_start w → Deletes api vmid kind place At (destroy api vmid kind w)
  unfolding destroy unlock attempt try_except
  destroy-Deletes w h =
      let Q = Deletes api vmid kind place At in
      let (h1, e1) = staged.node at_start w h in
      let w1 = (api.node w).0 in
      let unlocked = staged.shell_unlock w1 h1 in
      let (h2, e2) =
        tried (At unlock_tried) (api.shell_unlock kind vmid w1) unlocked.0 unlocked.1 in
      let w2 = (unlock api vmid kind w1).0 in
      let stopped = staged.post_stop w2 h2 in
      let (h3, e3) = tried (At (waited 0)) (api.post_stop place kind vmid w2) stopped.0 stopped.1 in
      let w3 = (attempt tt (api.post_stop place kind vmid) w2).0 in
      let (e4, ready) = await_down-IsReady 30 0 w3 refl h3 in
      after-bind Q api.node _ w place e1 (
        after-bind Q (unlock api vmid kind) _ w1 tt e2 (
          after-bind Q (attempt tt (api.post_stop place kind vmid)) _ w2 tt e3 (
            after-bind Q (await_down api vmid kind 30) _ w3 tt e4
              (record { before = _; ready = ready; deletes = refl }))))
