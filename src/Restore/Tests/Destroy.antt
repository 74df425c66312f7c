-- ===== src/Restore/Tests/Destroy.antt =====
-- A host that counts the seconds until a guest is down, and then the deletions from 100 on; it refuses to
-- unlock and to stop.
use backup_sentinel.Prelude.{
  ltb, suc, ap, Bool, true, false, if◌then◌else◌, ℕ, ◌+◌, String, ◌≡◌, refl, some, [],
}
use backup_sentinel.Restore.Runs.{Db}
use backup_sentinel.Restore.Effect.{
  failure, returned, raised, World, Act, pure, handled, try_except, continue, attempt, ◌>>=◌,
}
use backup_sentinel.Restore.Destroy.{HostApi, unlock, is_running, await_down, destroy}
use backup_sentinel.Restore.Worker.{qemu}
use backup_sentinel.Restore.Destroy.Laws.{
  Stage, at_start, unlock_tried, seen_down, waited, Reads, IsStaged, Deletes, destroy-Deletes,
}
use backup_sentinel.Restore.Worker.Progress.{fresh_tracker}

abbrev refuses : String → Act ℕ Unit
refuses message w = (w, raised (failure message))

abbrev slow_host : HostApi ℕ
slow_host = record {
  node = λ w. (w, returned "pve1");
  shell_unlock = λ kind vmid. refuses "no lock";
  post_stop = λ node kind vmid. refuses "not now";
  get_status =
      λ node kind vmid w. (w, returned (some (if ltb w.host 3 then "running" else "stopped")));
  delete_guest = λ node kind vmid w. (record w { host = w.host + 100 }, returned tt);
  sleep = λ seconds w. (record w { host = w.host + seconds }, returned tt);
}

abbrev empty_db : Db
empty_db = record { runs = []; tests = []; vms = []; next_run_id = 1; next_test_id = 1; clock = 0 }

abbrev pub slow_world : World ℕ
slow_world = record { db = empty_db; tracker = fresh_tracker; host = 0 }

-- It is waited for three seconds.
destroys_after_wait : (destroy slow_host 9000 qemu slow_world).0.host ≡ 103
unfolding destroy await_down is_running unlock attempt try_except handled ◌>>=◌ continue pure
destroys_after_wait = refl

-- A host that notes the stage of the calls, and refuses what comes too early.
abbrev noting : (Stage → Stage) → Act Stage Unit
noting next w = (record w { host = next w.host }, returned tt)

abbrev after_unlock : Stage → Stage
after_unlock at_start = unlock_tried
after_unlock unlock_tried = unlock_tried
after_unlock seen_down = seen_down
after_unlock (waited n) = waited n

abbrev after_stop : Stage → Stage
after_stop at_start = at_start
after_stop unlock_tried = waited 0
after_stop seen_down = seen_down
after_stop (waited n) = waited n

abbrev after_sleep : Stage → Stage
after_sleep at_start = at_start
after_sleep unlock_tried = unlock_tried
after_sleep seen_down = seen_down
after_sleep (waited n) = waited (suc n)

-- The guest is down three seconds after the stop.
abbrev is_still_up : Stage → Bool
is_still_up at_start = true
is_still_up unlock_tried = true
is_still_up seen_down = false
is_still_up (waited n) = ltb n 3

abbrev noting_host : HostApi Stage
noting_host = record {
  node = λ w. (w, returned "pve1");
  shell_unlock = λ kind vmid. noting after_unlock;
  post_stop = λ node kind vmid w. (record w { host = after_stop w.host }, raised (failure "no"));
  get_status = λ node kind vmid w.
      if is_still_up w.host
      then (w, returned (some "running"))
      else (record w { host = seen_down }, returned (some "stopped"));
  delete_guest = λ node kind vmid w. (w, returned tt);
  sleep = λ seconds. noting after_sleep;
}

abbrev stage_world : World Stage
stage_world = record { db = empty_db; tracker = fresh_tracker; host = at_start }

abbrev IsAt : Stage → World Stage → Type 0
IsAt stage w = w.host ≡ stage

read-IsAt :
    (n : ℕ) (w : World Stage)
    → IsAt (waited n) w
    → (up : Bool) → is_still_up w.host ≡ up
    → Reads IsAt n (noting_host.get_status "pve1" qemu 9000 w)
read-IsAt n w h true e = rw e h
read-IsAt n w h false e = rw e refl

noting_host-IsStaged : IsStaged noting_host 9000 qemu "pve1" IsAt
noting_host-IsStaged = record {
  node = λ stage w h. (h, refl);
  shell_unlock = λ w h. (ap after_unlock h, tt);
  post_stop = λ w h. (ap after_stop h, tt);
  get_status = λ n w h. read-IsAt n w h (is_still_up w.host) refl;
  sleep = λ n w h. (ap after_sleep h, refl);
}

destroy-Deletes_example :
    Deletes noting_host 9000 qemu "pve1" IsAt (destroy noting_host 9000 qemu stage_world)
destroy-Deletes_example = destroy-Deletes noting_host-IsStaged stage_world refl
