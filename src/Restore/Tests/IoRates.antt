-- ===== src/Restore/Tests/IoRates.antt =====
-- Two samples two seconds apart, with a disk that is new in the second.
use backup_sentinel.Prelude.{
  if◌then◌else◌, ◌≡◌, refl, true, false, some, [], ◌∷◌, nat_eq, string_eq,
}
use backup_sentinel.Prelude.Dict.{get}
use backup_sentinel.Restore.IoRates.{
  Sample, round_quotient, add_disk, disk_totals, add_net, net_totals, per_second, pct, no_rates,
  rates, compute_io_rates,
}
use backup_sentinel.Restore.IoRates.Laws.{
  read_since, written_since, received_since, sent_since, report, goes_on, rate_of,
  compute_io_rates-report,
}

abbrev sample_before : Sample
sample_before = record {
  uptime = 10000;
  disk = ("sda", record { read_bytes = 1000; written_bytes = 500; busy_ms = 100 }) ∷ [];
  net = ("eno1", record { rx = 0; tx = 700 }) ∷ [];
  link_bps = 1000;
}

abbrev sample_after : Sample
sample_after = record {
  uptime = 10200;
  disk =
      ("sda", record { read_bytes = 2001; written_bytes = 506; busy_ms = 1100 })
      ∷ ("sdb", record { read_bytes = 9999; written_bytes = 0; busy_ms = 3 })
      ∷ [];
  net = ("eno1", record { rx = 3000; tx = 700 }) ∷ [];
  link_bps = 1000;
}

io_rates_found : compute_io_rates (some sample_before) sample_after 2000 ≡ record {
  have = true;
  disk_read = 500;
  disk_write = 3;
  disk_util = 50;
  disk_read_pct = 25;
  disk_write_pct = 0;
  net_in = 1500;
  net_out = 0;
  net_in_pct = 100;
  net_out_pct = 0;
  net_link = 1000;
  disk_max = 2000;
}
unfolding compute_io_rates disk_totals add_disk net_totals add_net rates per_second pct
    round_quotient get
io_rates_found = refl

-- The samples in the wrong order: the clock went back.
io_rates_reset :
    compute_io_rates (some sample_after) sample_before 2000 ≡ no_rates sample_before 2000
unfolding compute_io_rates
io_rates_reset = refl

compute_io_rates-report_example :
    report (compute_io_rates (some sample_before) sample_after 2000) ≡ (
      if goes_on sample_before sample_after
      then (
        true,
        (
          (
            rate_of (read_since sample_before.disk) sample_after.disk 200,
            rate_of (written_since sample_before.disk) sample_after.disk 200,
          ),
          (
            rate_of (received_since sample_before.net) sample_after.net 200,
            rate_of (sent_since sample_before.net) sample_after.net 200,
          ),
        ),
      )
      else (false, ((0, 0), (0, 0))))
compute_io_rates-report_example = compute_io_rates-report sample_before sample_after 2000
