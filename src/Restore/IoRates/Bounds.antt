-- ===== src/Restore/IoRates/Bounds.antt =====
-- The percentages of the rates.
use backup_sentinel.Prelude.{leb, Bool-cases, ℕ, ◌≤◌, inl, inr, Option, none, some, arith}
use backup_sentinel.Restore.IoRates.{
  Sample, IoRates, DiskTotals, NetTotals, pct, no_rates, rates, compute_io_rates,
}

record IsPercentage (r : IoRates) : Type 0 where
  disk_util : r.disk_util ≤ 100
  disk_read_pct : r.disk_read_pct ≤ 100
  disk_write_pct : r.disk_write_pct ≤ 100
  net_in_pct : r.net_in_pct ≤ 100
  net_out_pct : r.net_out_pct ≤ 100

pct_le : (sum dt cap : ℕ) → pct sum dt cap ≤ 100
unfolding pct
pct_le sum dt cap = ground arith

no_rates-IsPercentage : (cur : Sample) (m : ℕ) → IsPercentage (no_rates cur m)
unfolding no_rates
no_rates-IsPercentage cur m = record {
  disk_util = omega arith;
  disk_read_pct = omega arith;
  disk_write_pct = omega arith;
  net_in_pct = omega arith;
  net_out_pct = omega arith;
}

rates-IsPercentage :
    (dt : ℕ) (cur : Sample) (m : ℕ) (d : Option DiskTotals) (n : Option NetTotals)
    → IsPercentage (rates dt cur m d n)
unfolding rates
rates-IsPercentage dt cur m none n = no_rates-IsPercentage cur m
rates-IsPercentage dt cur m (some d) none = no_rates-IsPercentage cur m
rates-IsPercentage dt cur m (some d) (some n) = record {
  disk_util = omega arith;
  disk_read_pct = pct_le d.read dt m;
  disk_write_pct = pct_le d.written dt m;
  net_in_pct = pct_le n.received dt cur.link_bps;
  net_out_pct = pct_le n.sent dt cur.link_bps;
}

-- Every percentage is at most 100.
compute_io_rates-IsPercentage :
    (prev : Option Sample) (cur : Sample) (disk_max_bps : ℕ)
    → IsPercentage (compute_io_rates prev cur disk_max_bps)
unfolding compute_io_rates
compute_io_rates-IsPercentage none cur m = no_rates-IsPercentage cur m
compute_io_rates-IsPercentage (some prev) cur m = elim (Bool-cases (leb cur.uptime prev.uptime)) [
  | inl e ↦ rw e (no_rates-IsPercentage cur m)
  | inr n ↦ rw n (rates-IsPercentage _ cur m _ _)
]
