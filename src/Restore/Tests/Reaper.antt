-- ===== src/Restore/Tests/Reaper.antt =====
-- A sweep of a host that has a restored VM, a helper and two leftovers.
use backup_sentinel.Prelude.{
  ◌==◌, ==→≡, filter, contains, ℕ, ◌%◌, ◌≡◌, refl, ◌≢◌, inr, true, not, some, List, [], ◌∷◌, arith,
  nat_eq, string_eq,
}
use backup_sentinel.Restore.Runs.{Db, new_run, find_run, get_run, active_and_held_runs}
use backup_sentinel.Restore.Effect.{returned, World, Act, pure, continue, ◌>>=◌}
use backup_sentinel.Restore.Reaper.{select_reaper_targets, destroy_all, reap_kind, reap}
use backup_sentinel.Restore.Types.{running, scheduled, Run}
use backup_sentinel.Restore.Worker.{Guest, qemu, lxc, owned_vmids_of, owned_vmids}
use backup_sentinel.Restore.Reaper.Safe.{IsApart, reap-spares}
use backup_sentinel.Restore.Effect.Runs.{IsOver}
use backup_sentinel.Restore.Worker.Progress.{fresh_tracker}

-- The host holds the vmids of its guests; those from 9001 on that are odd are containers.
abbrev found_on_host : Guest → Act (List ℕ) (List ℕ)
found_on_host qemu w = (w, returned (filter (λ v. v % 2 == 0) w.host))
found_on_host lxc w = (w, returned (filter (λ v. v % 2 == 1) w.host))

abbrev gone_at_once : ℕ → Guest → Act (List ℕ) Unit
gone_at_once vmid kind w = (record w { host = filter (λ v. not (v == vmid)) w.host }, returned tt)

abbrev no_runs : Db
no_runs = record { runs = []; tests = []; vms = []; next_run_id = 1; next_test_id = 1; clock = 0 }

abbrev owner : Run
owner = record (new_run no_runs 7 scheduled) {
  status = running;
  restore_vmid = some 9000;
  helper_vmid = some 9001;
}

abbrev owner_db : Db
owner_db = record {
  runs = owner ∷ [];
  tests = [];
  vms = [];
  next_run_id = 2;
  next_test_id = 1;
  clock = 0;
}

abbrev host_world : World (List ℕ)
host_world = record {
  db = owner_db;
  tracker = fresh_tracker;
  host = 9000 ∷ 9001 ∷ 9002 ∷ 9003 ∷ [];
}

sweeps :
    reap found_on_host gone_at_once (owned_vmids owner_db) host_world
    ≡ (record host_world { host = 9000 ∷ 9001 ∷ [] }, returned (9002 ∷ 9003 ∷ []))
unfolding reap reap_kind destroy_all select_reaper_targets owned_vmids owned_vmids_of
    active_and_held_runs ◌>>=◌ continue pure new_run
sweeps = refl

others_stay :
    (u v : ℕ) (guests : List ℕ)
    → u ≢ v
    → contains guests v ≡ true
    → contains (filter (λ g. not (g == u)) guests) v ≡ true
others_stay u v [] ne h = cc h
others_stay u v (g ∷ guests) ne h =
    ground (arith, others_stay u v guests ne, ==→≡ g u, ==→≡ g v, ne)

stays-IsApart : (v : ℕ) → IsApart found_on_host gone_at_once v (λ w. contains w.host v ≡ true)
stays-IsApart v = record {
  lists = λ kind. record { at = λ w h. listed kind w h };
  others = λ u kind ne. record { at = λ w h. (others_stay u v w.host ne h, tt) };
}
  where
    listed :
        (kind : Guest) (w : World (List ℕ))
        → contains w.host v ≡ true
        → (contains (found_on_host kind w).0.host v ≡ true) × IsOver (found_on_host kind w).1
    listed qemu w h = (h, tt)
    listed lxc w h = (h, tt)

reap-spares_example :
    (contains (reap found_on_host gone_at_once (owned_vmids owner_db) host_world).0.host 9001
      ≡ true)
    × IsOver (reap found_on_host gone_at_once (owned_vmids owner_db) host_world).1
unfolding get_run find_run new_run
reap-spares_example =
    reap-spares found_on_host gone_at_once owner_db host_world 1 owner 9001
      (λ w. contains w.host 9001 ≡ true) (stays-IsApart 9001) refl refl (inr refl) refl
