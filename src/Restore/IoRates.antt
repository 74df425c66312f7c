-- ===== src/Restore/IoRates.antt =====
-- `compute_io_rates` of app/services/restore_server.py: what two samples of the counters of the
-- restore host say of its load. The uptime is in hundredths of a second, as the host prints it.
pub mod Laws
pub mod Bounds
use backup_sentinel.Prelude.{
  ltb, leb, if◌then◌else◌, ◌==◌, ℕ, ◌+◌, ◌-◌, ◌*◌, ◌/◌, ◌%◌, min, max, String, Bool, true, false,
  ◌||◌, Option, none, some, [], ◌∷◌, nat_eq, string_eq,
}
use backup_sentinel.Prelude.Dict.{Dict, get}
use backup_sentinel.Restore.Alloc.{◌>>=◌}

pub record DiskCounters : Type 0 where
  pub read_bytes : ℕ
  pub written_bytes : ℕ
  pub busy_ms : ℕ

pub record NetCounters : Type 0 where
  pub rx : ℕ
  pub tx : ℕ

pub record Sample : Type 0 where
  pub uptime : ℕ
  pub disk : Dict String DiskCounters
  pub net : Dict String NetCounters
  pub link_bps : ℕ

pub record IoRates : Type 0 where
  pub have : Bool
  pub disk_read : ℕ
  pub disk_write : ℕ
  pub disk_util : ℕ
  pub disk_read_pct : ℕ
  pub disk_write_pct : ℕ
  pub net_in : ℕ
  pub net_out : ℕ
  pub net_in_pct : ℕ
  pub net_out_pct : ℕ
  pub net_link : ℕ
  pub disk_max : ℕ

-- Python's `round(n / d)`: to the nearest, and a half to the even one.
unfoldable pub round_quotient : ℕ → ℕ → ℕ
round_quotient n d =
    let q = n / d in
    let rest = 2 * (n % d) in if ltb rest d then q else if ltb d rest then q + 1 else q + q % 2

-- `disk_read`, `disk_write` and `util_pct` before the division by the time between the samples
pub record DiskTotals : Type 0 where
  pub read : ℕ
  pub written : ℕ
  pub busy : ℕ

abbrev pub disk_reset : DiskCounters → DiskCounters → Bool
disk_reset p c =
    ltb c.read_bytes p.read_bytes || ltb c.written_bytes p.written_bytes || ltb c.busy_ms p.busy_ms

-- a device that the sample before does not have is skipped; no totals once a counter went back
unfoldable pub add_disk : Option DiskCounters → DiskCounters → DiskTotals → Option DiskTotals
add_disk none c sums = some sums
add_disk (some p) c sums =
    if disk_reset p c
    then none
    else some (record {
      read = sums.read + (c.read_bytes - p.read_bytes);
      written = sums.written + (c.written_bytes - p.written_bytes);
      busy = max sums.busy (c.busy_ms - p.busy_ms);
    })

unfoldable pub disk_totals :
    Dict String DiskCounters → Dict String DiskCounters → DiskTotals → Option DiskTotals
disk_totals prev [] sums = some sums
disk_totals prev ((dev, c) ∷ devs) sums = do
  added ← add_disk (get dev prev) c sums
  disk_totals prev devs added

pub record NetTotals : Type 0 where
  pub received : ℕ
  pub sent : ℕ

abbrev pub net_reset : NetCounters → NetCounters → Bool
net_reset p c = ltb c.rx p.rx || ltb c.tx p.tx

unfoldable pub add_net : Option NetCounters → NetCounters → NetTotals → Option NetTotals
add_net none c sums = some sums
add_net (some p) c sums =
    if net_reset p c
    then none
    else some
        (record { received = sums.received + (c.rx - p.rx); sent = sums.sent + (c.tx - p.tx) })

unfoldable pub net_totals :
    Dict String NetCounters → Dict String NetCounters → NetTotals → Option NetTotals
net_totals prev [] sums = some sums
net_totals prev ((iface, c) ∷ ifaces) sums = do
  added ← add_net (get iface prev) c sums
  net_totals prev ifaces added

-- `round(v)` for a sum of bytes over `dt` hundredths of a second
unfoldable pub per_second : ℕ → ℕ → ℕ
per_second sum dt = round_quotient (sum * 100) dt

-- `pct(v, cap)` for the same `v`
unfoldable pub pct : ℕ → ℕ → ℕ → ℕ
pct sum dt cap = if cap == 0 then 0 else min 100 (round_quotient (sum * 100 * 100) (dt * cap))

unfoldable pub no_rates : Sample → ℕ → IoRates
no_rates cur disk_max_bps = record {
  have = false;
  disk_read = 0;
  disk_write = 0;
  disk_util = 0;
  disk_read_pct = 0;
  disk_write_pct = 0;
  net_in = 0;
  net_out = 0;
  net_in_pct = 0;
  net_out_pct = 0;
  net_link = cur.link_bps;
  disk_max = disk_max_bps;
}

unfoldable pub rates : ℕ → Sample → ℕ → Option DiskTotals → Option NetTotals → IoRates
rates dt cur disk_max_bps none n = no_rates cur disk_max_bps
rates dt cur disk_max_bps (some d) none = no_rates cur disk_max_bps
rates dt cur disk_max_bps (some d) (some n) = record {
  have = true;
  disk_read = per_second d.read dt;
  disk_write = per_second d.written dt;
  disk_util = min 100 (round_quotient (d.busy * 10) dt);
  disk_read_pct = pct d.read dt disk_max_bps;
  disk_write_pct = pct d.written dt disk_max_bps;
  net_in = per_second n.received dt;
  net_out = per_second n.sent dt;
  net_in_pct = pct n.received dt cur.link_bps;
  net_out_pct = pct n.sent dt cur.link_bps;
  net_link = cur.link_bps;
  disk_max = disk_max_bps;
}

unfoldable pub compute_io_rates : Option Sample → Sample → ℕ → IoRates
compute_io_rates none cur disk_max_bps = no_rates cur disk_max_bps
compute_io_rates (some prev) cur disk_max_bps =
    if leb cur.uptime prev.uptime
    then no_rates cur disk_max_bps
    else rates (cur.uptime - prev.uptime) cur disk_max_bps
        (disk_totals prev.disk cur.disk (record { read = 0; written = 0; busy = 0 }))
        (net_totals prev.net cur.net (record { received = 0; sent = 0 }))
