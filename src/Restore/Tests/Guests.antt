-- ===== src/Restore/Tests/Guests.antt =====
-- A host with two restores of a guest, and whose lock goes away after as many seconds as the world has.
use backup_sentinel.Prelude.{
  if◌then◌else◌, ◌==◌, ℕ, ◌-◌, String, ◌≡◌, refl, false, Option, none, some, List, [], ◌∷◌, nat_eq,
  string_eq,
}
use backup_sentinel.Restore.Guests.{
  TaskEntry, GuestApi, find_running_restore_upid, await_unlocked, wait_unlocked,
}
use backup_sentinel.Restore.Effect.{failure, Outcome, returned, raised, pure, raise, ◌>>=◌}
use backup_sentinel.Restore.Pack.{start}
use backup_sentinel.Restore.Tests.Destroy.{slow_world}
use backup_sentinel.Restore.Guests.Found.{IsAnswer, find_running_restore_upid-IsAnswer}

abbrev restore_task : String → ℕ → TaskEntry
restore_task upid start = record {
  id = some "9000";
  kind = "qmRestore";
  is_ended = false;
  upid = some upid;
  starttime = start;
}

abbrev listed_tasks : List TaskEntry
listed_tasks =
    restore_task "first" 10
    ∷ restore_task "second" 20
    ∷ record (restore_task "stop" 30) { kind = "qmstop" }
    ∷ []

abbrev listing_host : GuestApi ℕ
listing_host = record {
  node = λ w. (w, returned "pve1");
  list_guests = λ node kind w. (w, returned (some 9000 ∷ none ∷ some 9001 ∷ []));
  get_task_status = λ node upid w. (w, returned (some "running"));
  list_tasks = λ node vmid w. (w, returned listed_tasks);
  get_lock = λ node kind vmid w. (w, returned (if w.host == 0 then none else some "create"));
  sleep = λ seconds w. (record w { host = w.host - seconds }, returned tt);
}

-- A lock of two seconds is waited for with three attempts, and not with two.
abbrev waits : List (Outcome Unit)
waits =
    let locked = record slow_world { host = 2 } in
    (wait_unlocked listing_host 9000 3 locked).1 ∷ (wait_unlocked listing_host 9000 2 locked).1 ∷ []

waited :
    waits
    ≡ returned tt
      ∷ raised (failure "VM 9000 still locked ('create') — restore not finished, not starting")
      ∷ []
unfolding wait_unlocked await_unlocked ◌>>=◌ pure raise
waited = refl

find_running_restore_upid-IsAnswer_example :
    (answer : Option String) × (IsAnswer 9000 listed_tasks answer
      × (find_running_restore_upid listing_host 9000 (some "pve1") slow_world
          ≡ (slow_world, returned answer)))
find_running_restore_upid-IsAnswer_example =
    find_running_restore_upid-IsAnswer listing_host 9000 "pve1" slow_world slow_world listed_tasks
      refl refl
