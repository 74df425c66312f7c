-- ===== src/Restore/Probe.antt =====
-- app/services/restore_probe.py: the result of a run from what the probe agent found.
pub mod Laws
use backup_sentinel.Prelude.{
  ltb, if◌then◌else◌, ◌==◌, any, all, ℕ, Bool, false, not, ◌&&◌, ◌||◌, Option, none, some, List, [],
  ◌∷◌, ◌++◌, map, nat_eq, string_eq,
}
use backup_sentinel.Prelude.Dict.{Dict, get}
use backup_sentinel.Restore.Pack.{ok}
use backup_sentinel.Restore.Types.{
  Result, passed, limited, failed, IpCheck, Checks, probed, note, error_text,
}

abbrev pub or_false : Option Bool → Bool
or_false none = false
or_false (some b) = b

-- `ports.get(str(p), False)`
abbrev pub port_open : ℕ → IpCheck → Bool
port_open p r = or_false (get p r.ports)

abbrev pub is_alive : IpCheck → Bool
is_alive r = r.icmp || r.arp

-- `checks.get(ip) or {}`
abbrev nothing_found : IpCheck
nothing_found = record { icmp = false; arp = false; ports = [] }

abbrev or_nothing : Option IpCheck → IpCheck
or_nothing none = nothing_found
or_nothing (some r) = r

abbrev pub result_for : Dict ℕ IpCheck → ℕ → IpCheck
result_for checks ip = or_nothing (get ip checks)

pub classify_with : IpCheck → Bool → List ℕ → Result
classify_with r require_icmp tcp_ports =
    let live_ok = is_alive r || not require_icmp in
    let ports_ok = all (λ p. port_open p r) tcp_ports in
    let reachable_anything = is_alive r || any (λ p. port_open p r) tcp_ports in
    if live_ok && ports_ok then passed else if not reachable_anything then failed else limited

unfoldable pub classify : Option IpCheck → Bool → List ℕ → Bool → Result
unfolding classify_with
classify none require_icmp tcp_ports had_ip = limited
classify (some r) require_icmp tcp_ports had_ip =
    if not had_ip then limited else classify_with r require_icmp tcp_ports

pub classify_results : List IpCheck → Bool → List ℕ → Result
classify_results results require_icmp tcp_ports =
    let alive = any is_alive results in
    let live_ok = alive || not require_icmp in
    let ports_ok = all (λ p. any (port_open p) results) tcp_ports in
    let reachable_anything = alive || any (λ r. any (λ p. port_open p r) tcp_ports) results in
    if live_ok && ports_ok then passed else if reachable_anything then limited else failed

unfoldable pub classify_multi : Dict ℕ IpCheck → List ℕ → Bool → List ℕ → Bool → Result
unfolding classify_results
classify_multi checks [] require_icmp tcp_ports had_ip = limited
classify_multi checks (ip ∷ ips) require_icmp tcp_ports had_ip =
    if not had_ip
    then limited
    else classify_results (map (result_for checks) (ip ∷ ips)) require_icmp tcp_ports

-- The labels of the checks that are green already.
pub data Label : Type 0 where
  icmp_label arp_label : Label
  port_label : ℕ → Label

pub values : Dict ℕ IpCheck → List IpCheck
values [] = []
values ((ip, r) ∷ checks) = r ∷ values checks

pub open_in : Dict ℕ Bool → List ℕ
open_in [] = []
open_in ((p, green) ∷ ports) = let rest = open_in ports in if green then p ∷ rest else rest

-- `sorted(open_ports)` of the set of ports: ascending, each once
pub insert_port : ℕ → List ℕ → List ℕ
insert_port p [] = p ∷ []
insert_port p (q ∷ ports) =
    if p == q then q ∷ ports else if ltb p q then p ∷ q ∷ ports else q ∷ insert_port p ports

pub insert_ports : List ℕ → List ℕ → List ℕ
insert_ports [] found = found
insert_ports (p ∷ ports) found = insert_port p (insert_ports ports found)

pub open_ports : List IpCheck → List ℕ
open_ports [] = []
open_ports (r ∷ results) = insert_ports (open_in r.ports) (open_ports results)

pub labels_of : List IpCheck → List Label
labels_of results =
    (if any (λ r. r.icmp) results then icmp_label ∷ [] else [])
    ++ (if any (λ r. r.arp) results then arp_label ∷ [] else [])
    ++ map port_label (open_ports results)

-- entries that are texts are ignored
unfoldable pub green_check_labels : Checks → List Label
unfolding labels_of values open_ports insert_ports insert_port open_in
green_check_labels (probed checks) = labels_of (values checks)
green_check_labels (note _) = []
green_check_labels (error_text _) = []
