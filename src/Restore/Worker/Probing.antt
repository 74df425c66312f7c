-- ===== src/Restore/Worker/Probing.antt =====
-- `_probe_loop` of app/services/restore_worker.py. The loop runs on fuel; Probing/Ends shows how
-- much is enough.
pub mod Ends
use backup_sentinel.Prelude.{
  leb, if◌then◌else◌, ◌==◌, ℕ, zero, suc, ◌+◌, ◌-◌, String, string_append, Bool, true, false, not,
  ◌||◌, Option, none, some, List, [], ◌∷◌, map, nat_eq, string_eq,
}
use backup_sentinel.Prelude.Dict.{Dict}
use backup_sentinel.Prelude.Sort.{insert_by, sort_by}
use backup_sentinel.Restore.Types.{Result, limited, IpCheck, Checks, probed, note, cancelled}
use backup_sentinel.Restore.Runs.{has_passed}
use backup_sentinel.Restore.Probe.{classify_multi}
use backup_sentinel.Restore.Effect.{
  Fault, restore_cancelled, Act, pure, raise, diverge, try_except, text_of, ◌>>=◌, ◌>>◌,
}
use backup_sentinel.Restore.Pack.{start}
use backup_sentinel.Restore.Worker.{RunPlan, Target, Server, now, update}
use backup_sentinel.Restore.Runs.Fields.{detected_ip_to, checks_to}

module _ {H : Type 0} (s : Server H) (plan : RunPlan) (run_id : ℕ) where
  abbrev pub is_ours : ℕ × ℕ → Bool
  is_ours nic = elim plan.primary_ip [ none ↦ false | some ip ↦ nic.0 == ip ]

  -- `n[0] != plan.primary_ip` is no greater for `a` than for `b`
  abbrev pub ours_first : ℕ × ℕ → ℕ × ℕ → Bool
  ours_first a b = is_ours a || not (is_ours b)

  unfoldable pub targets_on : List (ℕ × ℕ) → List Target
  targets_on [] = []
  targets_on ((ip, prefix) ∷ nics) =
      record { ip = some ip; ports = plan.tcp_ports; prefix = prefix } ∷ targets_on nics

  abbrev ips_of : Option ℕ → List ℕ
  ips_of none = []
  ips_of (some ip) = ip ∷ []

  -- the IP of an override, or the one that dnsmasq hands out
  unfoldable pub fixed_target : List Target × List ℕ
  fixed_target = (
    record { ip = plan.primary_ip; ports = plan.tcp_ports; prefix = plan.sandbox_prefix } ∷ [],
    ips_of plan.primary_ip,
  )

  unfoldable pub agent_targets : List (ℕ × ℕ) → List Target × List ℕ
  unfolding targets_on fixed_target sort_by insert_by
  agent_targets [] = fixed_target
  agent_targets (nic ∷ nics) =
      let ordered = sort_by ours_first (nic ∷ nics) in (targets_on ordered, map (λ n. n.0) ordered)

  abbrev is_override : Option String → Bool
  is_override none = false
  is_override (some cidr) = not (cidr == "")

  abbrev keep_if_empty : List (ℕ × ℕ) → List (ℕ × ℕ) → List (ℕ × ℕ)
  keep_if_empty discovered [] = discovered
  keep_if_empty discovered (nic ∷ nics) = nic ∷ nics

  -- the addresses that the agent reported are remembered, unless there is an override
  unfoldable pub look_up : List (ℕ × ℕ) → Act H (List (ℕ × ℕ))
  look_up discovered =
      if is_override plan.probe_override
      then pure discovered
      else (do nics ← s.guest_agent_nics plan.restore_vmid; pure (keep_if_empty discovered nics))

  unfoldable pub targets_for : List (ℕ × ℕ) → List Target × List ℕ
  unfolding fixed_target agent_targets
  targets_for discovered =
      if is_override plan.probe_override then fixed_target else agent_targets discovered

  -- a failed pass is raised only after the deadline
  unfoldable pub pass_failed : ℕ → Fault → Act H (Result × Checks)
  pass_failed deadline fault = do
    t ← now s
    if leb deadline t
        then raise fault
        else pure (limited, note (string_append "probe pass failed: " (text_of fault)))

  unfoldable pub classified : Dict ℕ IpCheck → List ℕ → Result × Checks
  classified checks ips =
      (classify_multi checks ips plan.require_icmp plan.tcp_ports true, probed checks)

  unfoldable pub probe_targets : ℕ → List Target → List ℕ → Act H (Result × Checks)
  probe_targets deadline targets [] =
      pure (limited, note "no target IP yet (no DHCP address, override, or guest agent)")
  probe_targets deadline targets (ip ∷ ips) = do
    update run_id (detected_ip_to (some ip) ∷ [])
    try_except
        (do
          checks ← s.probe plan.mgmt_ip targets plan.require_icmp
          pure (classified checks (ip ∷ ips)))
        (pass_failed deadline)

  -- a pass, with the addresses that are remembered for the next one
  unfoldable pub probe_pass : ℕ → List (ℕ × ℕ) → Act H (List (ℕ × ℕ) × (Result × Checks))
  probe_pass deadline discovered = do
    found ← look_up discovered
    (result, checks) ← probe_targets deadline (targets_for found).0 (targets_for found).1
    update run_id (checks_to checks ∷ [])
    pure (found, (result, checks))

  -- the next check starts an interval after this one started
  unfoldable pub pause : ℕ → Act H Unit
  pause pass_start = do t ← now s; s.sleep (plan.interval - (t - pass_start))

  abbrev pub is_done : Result → ℕ → ℕ → Bool
  is_done result deadline t = has_passed (some result) || leb deadline t

  -- the `while` loop, `deadline` being the end of the window
  unfoldable pub probe_passes : ℕ → Act H Bool → ℕ → List (ℕ × ℕ) → Act H (Result × Checks)
  probe_passes zero should_cancel deadline discovered = diverge
  probe_passes (suc fuel) should_cancel deadline discovered = do
    pass_start ← now s
    stop ← should_cancel
    if stop then raise (restore_cancelled "restore cancelled by operator") else (do
      (found, (result, checks)) ← probe_pass deadline discovered
      t ← now s
      if is_done result deadline t
          then pure (result, checks)
          else pause pass_start >> probe_passes fuel should_cancel deadline found)

  -- an interval of at least a second makes at most `window` + 1 passes
  abbrev pub probe_fuel : ℕ
  probe_fuel = suc plan.window

  unfoldable pub probe_loop : Act H Bool → Act H (Result × Checks)
  probe_loop should_cancel = do
    s.sleep plan.first_delay
    start ← now s
    probe_passes probe_fuel should_cancel (start + plan.window) []
