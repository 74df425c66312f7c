-- ===== src/Restore/Types.antt =====
-- The values that the restore modules share: a row of `restore_runs` (app/types.py, app/db_core.py)
-- and the outcome of a probe pass (app/services/restore_probe.py).
use backup_sentinel.Prelude.{ℕ, String, Bool, true, false, Option, List, nat_eq, string_eq}
use backup_sentinel.Prelude.Dict.{Dict}

-- The values of the column `result`.
pub data Result : Type 0 where
  passed limited failed error cancelled : Result

-- The values of the column `status`; a finished run has its result as its status.
pub data Status : Type 0 where
  queued running held : Status
  finished : Result → Status

pub data Trigger : Type 0 where
  scheduled manual : Trigger

pub data Phase : Type 0 where
  preflight helper restoring finalizing network booting probing : Phase

-- What the probe agent found out about one IP address. Ports are keyed by their number.
pub record IpCheck : Type 0 where
  pub icmp : Bool
  pub arp : Bool
  pub ports : Dict ℕ Bool

-- The column `checks`: the answers for each address (a number), or a text in place of them.
pub data Checks : Type 0 where
  probed : Dict ℕ IpCheck → Checks
  note error_text : String → Checks

-- A row of `restore_runs`. An IPv4 address is the number that it stands for, a time is in seconds.
pub record Run : Type 0 where
  pub id : ℕ
  pub vm_id : ℕ
  pub trigger : Trigger
  pub status : Status
  pub restore_vmid : Option ℕ
  pub helper_vmid : Option ℕ
  pub vlan_tag : Option ℕ
  pub mgmt_ip : Option ℕ
  pub source_pbs : Option String
  pub source_datastore : Option String
  pub source_namespace : Option String
  pub snapshot_id : Option String
  pub target_storages : List String
  pub bytes_total : Option ℕ
  pub bytes_done : Option ℕ
  pub percent : Option ℕ
  pub result : Option Result
  pub restore_test_id : Option ℕ
  pub log : Option String
  pub checks : Option Checks
  pub queued_at : ℕ
  pub started_at : Option ℕ
  pub finished_at : Option ℕ
  pub duration_seconds : Option ℕ
  pub task_upid : Option String
  pub phase : Option Phase
  pub detected_ip : Option ℕ
  pub cancel_requested : Bool
  pub sort_order : Option ℕ

-- `status IN ('running', 'held')`: the run owns an environment.
abbrev pub owns_environment : Status → Bool
owns_environment running = true
owns_environment held = true
owns_environment _ = false

abbrev pub is_queued : Status → Bool
is_queued queued = true
is_queued _ = false

abbrev pub is_running : Status → Bool
is_running running = true
is_running _ = false

-- `LIVE_RUN_STATUSES` of app/db_restore.py
abbrev pub is_live : Status → Bool
is_live (finished _) = false
is_live _ = true

-- `_COUNTS_AS_TEST` of app/db_restore.py
abbrev pub counts_as_test : Result → Bool
counts_as_test passed = true
counts_as_test limited = true
counts_as_test _ = false
