-- ===== src/Settings/Tests/Perf.antt =====
-- A write test that is started, sampled and ended.
use backup_sentinel.Prelude.{
  if◌then◌else◌, ◌==◌, ==_false→≢, String, ◌≡◌, refl, true, false, Option, none, some, [], ◌∷◌,
  arith, nat_eq, string_eq,
}
use backup_sentinel.Prelude.Sort.{sort_by}
use backup_sentinel.Prelude.Dict.{get, put}
use backup_sentinel.Restore.Runs.{Db}
use backup_sentinel.Restore.Worker.Held.{listed_running}
use backup_sentinel.Settings.Perf.{
  running_key, progress_key, cancel_key, Progress, FioSample, benchmark_failed, running_storage,
  involved_storages, folded, fresh_progress, get_progress, store_progress, start_test, finish_test,
}
use backup_sentinel.Settings.Table.{Settings, get_settings_dict, save_settings}
use backup_sentinel.Settings.Perf.Live.{IsLive, store_progress-IsLive, IsIdle, finish_test-IsIdle}

abbrev first_sample : FioSample
first_sample = record { pct = some 420; eta = some "02m48s"; rate_bps = some 1000 }

abbrev sampled : Progress
sampled = record (fresh_progress "fast" "t0") {
  pct = 420;
  at = some "t1";
  eta = some "02m48s";
  rate_bps = some 1000;
  series = 1000 ∷ [];
}

-- writes the time of the last sample only
abbrev write_json : Progress → String
write_json p = elim p.at [ none ↦ "fresh" | some t ↦ t ]

abbrev read_json : String → Option Progress
read_json raw = some (if raw == "t1" then sampled else fresh_progress "fast" "t0")

abbrev resting_db : Db
resting_db = record {
  runs = [];
  tests = [];
  vms = [];
  next_run_id = 1;
  next_test_id = 1;
  clock = 0;
}

abbrev live_settings : Settings
live_settings = (running_key, "fast") ∷ (cancel_key, "") ∷ (progress_key, "fresh") ∷ []

starts : start_test write_json read_json "t0" "fast" resting_db [] ≡ ((true, ""), live_settings)
unfolding start_test running_storage get put save_settings get_settings_dict involved_storages
    listed_running sort_by
starts = refl

refuses_second : (start_test write_json read_json "t0" "slow" resting_db live_settings).0.0 ≡ false
unfolding start_test running_storage get get_settings_dict
refuses_second = refl

live : IsLive write_json read_json "t1" live_settings (fresh_progress "fast" "t0")
unfolding get_progress running_storage get get_settings_dict
live = record { stored = refl; of_running = refl; bounded = omega arith }

store_progress-IsLive_example :
    (q : Progress) × IsLive write_json read_json "t1"
      (store_progress write_json read_json "t1" "fast" first_sample live_settings)
      q
unfolding folded
store_progress-IsLive_example =
    store_progress-IsLive write_json read_json "t1" "fast" first_sample live_settings
      (fresh_progress "fast" "t0") live refl (==_false→≢ "t1" "" refl)

finish_test-IsIdle_example :
    IsIdle
      (finish_test (λ r. r.at) "t2" "fast" (benchmark_failed "no fio on the host") live_settings)
finish_test-IsIdle_example =
    finish_test-IsIdle (λ r. r.at) "t2" "fast" (benchmark_failed "no fio on the host") live_settings
