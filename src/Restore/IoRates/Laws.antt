-- ===== src/Restore/IoRates/Laws.antt =====
-- When there are rates, and what they are.
use backup_sentinel.Prelude.{
  leb, if◌then◌else◌, Bool-cases, all, sum_of, ℕ, ◌+◌, ◌-◌, max, String, ◌≡◌, refl, inl, inr, ap,
  ◌∙◌, Bool, true, false, not, ◌&&◌, Option, none, some, [], ◌∷◌, arith, nat_eq, string_eq,
}
use backup_sentinel.Prelude.Dict.{Dict, get}
use backup_sentinel.Restore.IoRates.{
  DiskCounters, NetCounters, DiskTotals, disk_reset, add_disk, disk_totals, NetTotals, net_reset,
  add_net, net_totals, Sample, IoRates, per_second, no_rates, rates, compute_io_rates,
}
use backup_sentinel.Restore.Alloc.{◌>>=◌}

-- a value of what both samples have, and `absent` where only the later one has it
abbrev with_both : {A B : Type 0} → (A → A → B) → B → Option A → A → B
with_both f absent none c = absent
with_both f absent (some p) c = f p c

abbrev in_both : {A B : Type 0} → (A → A → B) → B → Dict String A → String × A → B
in_both f absent prev item = with_both f absent (get item.0 prev) item.1

abbrev pub disk_goes_on : Dict String DiskCounters → String × DiskCounters → Bool
disk_goes_on prev = in_both (λ p c. not (disk_reset p c)) true prev

abbrev pub read_since : Dict String DiskCounters → String × DiskCounters → ℕ
read_since prev = in_both (λ p c. c.read_bytes - p.read_bytes) 0 prev

abbrev pub written_since : Dict String DiskCounters → String × DiskCounters → ℕ
written_since prev = in_both (λ p c. c.written_bytes - p.written_bytes) 0 prev

abbrev pub net_goes_on : Dict String NetCounters → String × NetCounters → Bool
net_goes_on prev = in_both (λ p c. not (net_reset p c)) true prev

abbrev pub received_since : Dict String NetCounters → String × NetCounters → ℕ
received_since prev = in_both (λ p c. c.rx - p.rx) 0 prev

abbrev pub sent_since : Dict String NetCounters → String × NetCounters → ℕ
sent_since prev = in_both (λ p c. c.tx - p.tx) 0 prev

-- the sums of reads and writes, when there are any
abbrev disk_sums : Option DiskTotals → Option (ℕ × ℕ)
disk_sums none = none
disk_sums (some d) = some (d.read, d.written)

abbrev net_sums : Option NetTotals → Option (ℕ × ℕ)
net_sums none = none
net_sums (some n) = some (n.received, n.sent)

disk_step :
    (o : Option DiskCounters) (c : DiskCounters) (sums : DiskTotals)
    (rest : DiskTotals → Option DiskTotals) (ok : Bool) (r w : ℕ)
    → ((d : DiskTotals)
        → disk_sums (rest d) ≡ (if ok then some (d.read + r, d.written + w) else none))
    → disk_sums (add_disk o c sums >>= rest) ≡ (
        if with_both (λ p c. not (disk_reset p c)) true o c && ok
        then some (
          sums.read + (with_both (λ p c. c.read_bytes - p.read_bytes) 0 o c + r),
          sums.written + (with_both (λ p c. c.written_bytes - p.written_bytes) 0 o c + w),
        )
        else none)
unfolding add_disk
disk_step none c sums rest ok r w h = ground (arith, h sums)
disk_step (some p) c sums rest ok r w h = elim (Bool-cases (disk_reset p c)) [
  | inl e ↦ rw e refl
  | inr n ↦ rw n (
      ground (
        arith,
        h (record {
          read = sums.read + (c.read_bytes - p.read_bytes);
          written = sums.written + (c.written_bytes - p.written_bytes);
          busy = max sums.busy (c.busy_ms - p.busy_ms);
        }),
      ))
]

disk_totals_lem :
    (prev devs : Dict String DiskCounters) (sums : DiskTotals)
    → disk_sums (disk_totals prev devs sums) ≡ (
        if all (disk_goes_on prev) devs
        then some (
          sums.read + sum_of (read_since prev) devs,
          sums.written + sum_of (written_since prev) devs,
        )
        else none)
unfolding disk_totals
disk_totals_lem prev [] sums = ground arith
disk_totals_lem prev ((dev, c) ∷ devs) sums =
    disk_step (get dev prev) c sums (disk_totals prev devs) _ _ _ (disk_totals_lem prev devs)

net_step :
    (o : Option NetCounters) (c : NetCounters) (sums : NetTotals)
    (rest : NetTotals → Option NetTotals) (ok : Bool) (r w : ℕ)
    → ((n : NetTotals)
        → net_sums (rest n) ≡ (if ok then some (n.received + r, n.sent + w) else none))
    → net_sums (add_net o c sums >>= rest) ≡ (
        if with_both (λ p c. not (net_reset p c)) true o c && ok
        then some (
          sums.received + (with_both (λ p c. c.rx - p.rx) 0 o c + r),
          sums.sent + (with_both (λ p c. c.tx - p.tx) 0 o c + w),
        )
        else none)
unfolding add_net
net_step none c sums rest ok r w h = ground (arith, h sums)
net_step (some p) c sums rest ok r w h = elim (Bool-cases (net_reset p c)) [
  | inl e ↦ rw e refl
  | inr n ↦ rw n (
      ground (
        arith,
        h (record { received = sums.received + (c.rx - p.rx); sent = sums.sent + (c.tx - p.tx) }),
      ))
]

net_totals_lem :
    (prev ifaces : Dict String NetCounters) (sums : NetTotals)
    → net_sums (net_totals prev ifaces sums) ≡ (
        if all (net_goes_on prev) ifaces
        then some (
          sums.received + sum_of (received_since prev) ifaces,
          sums.sent + sum_of (sent_since prev) ifaces,
        )
        else none)
unfolding net_totals
net_totals_lem prev [] sums = ground arith
net_totals_lem prev ((iface, c) ∷ ifaces) sums =
    net_step (get iface prev) c sums (net_totals prev ifaces) _ _ _ (net_totals_lem prev ifaces)

-- what the rates say, without the busy time
abbrev Report : Type 0
Report = Bool × ((ℕ × ℕ) × (ℕ × ℕ))

abbrev pub report : IoRates → Report
report r = (r.have, ((r.disk_read, r.disk_write), (r.net_in, r.net_out)))

abbrev nothing : Report
nothing = (false, ((0, 0), (0, 0)))

abbrev report_of : ℕ → Option (ℕ × ℕ) → Option (ℕ × ℕ) → Report
report_of dt (some d) (some n) =
    (true, ((per_second d.0 dt, per_second d.1 dt), (per_second n.0 dt, per_second n.1 dt)))
report_of dt (some d) none = nothing
report_of dt none n = nothing

report-rates :
    (dt : ℕ) (cur : Sample) (m : ℕ) (d : Option DiskTotals) (n : Option NetTotals)
    → report (rates dt cur m d n) ≡ report_of dt (disk_sums d) (net_sums n)
unfolding rates no_rates
report-rates dt cur m none n = refl
report-rates dt cur m (some d) none = refl
report-rates dt cur m (some d) (some n) = refl

-- Are the samples usable together: did time pass, and did no counter that both have go back?
abbrev pub goes_on : Sample → Sample → Bool
goes_on prev cur =
    not (leb cur.uptime prev.uptime)
    && (all (disk_goes_on prev.disk) cur.disk && all (net_goes_on prev.net) cur.net)

abbrev pub rate_of : {A : Type 0} → (String × A → ℕ) → Dict String A → ℕ → ℕ
rate_of since devices dt = per_second (sum_of since devices) dt

report_if :
    (b : Bool) (cur : Sample) (m : ℕ) (r : IoRates)
    → report (if b then no_rates cur m else r) ≡ (if b then nothing else report r)
unfolding no_rates
report_if true cur m r = refl
report_if false cur m r = refl

report_both :
    (b c d : Bool) (dt r w i o : ℕ) (x y : Option (ℕ × ℕ))
    → x ≡ (if c then some (0 + r, 0 + w) else none)
    → y ≡ (if d then some (0 + i, 0 + o) else none)
    → (if b then nothing else report_of dt x y) ≡ (
        if not b && (c && d)
        then (true, ((per_second r dt, per_second w dt), (per_second i dt, per_second o dt)))
        else nothing)
report_both b c d dt r w i o x y hx hy = rw (hx, hy) (ground arith)

-- There are rates exactly when time passed between the samples and no counter that both have went
-- back; they are then, of all devices that both samples have, the bytes of the time between them for
-- each second, and else 0.
pub compute_io_rates-report :
    (prev cur : Sample) (disk_max_bps : ℕ)
    → report (compute_io_rates (some prev) cur disk_max_bps) ≡ (
        if goes_on prev cur
        then (
          true,
          (
            (
              rate_of (read_since prev.disk) cur.disk (cur.uptime - prev.uptime),
              rate_of (written_since prev.disk) cur.disk (cur.uptime - prev.uptime),
            ),
            (
              rate_of (received_since prev.net) cur.net (cur.uptime - prev.uptime),
              rate_of (sent_since prev.net) cur.net (cur.uptime - prev.uptime),
            ),
          ),
        )
        else (false, ((0, 0), (0, 0))))
unfolding compute_io_rates
compute_io_rates-report prev cur m =
    let dt = cur.uptime - prev.uptime in
    report_if (leb cur.uptime prev.uptime) cur m _
    ∙ ap (λ x. if leb cur.uptime prev.uptime then nothing else x) (report-rates dt cur m _ _)
    ∙ report_both (leb cur.uptime prev.uptime) (all (disk_goes_on prev.disk) cur.disk)
        (all (net_goes_on prev.net) cur.net) dt (sum_of (read_since prev.disk) cur.disk)
        (sum_of (written_since prev.disk) cur.disk) (sum_of (received_since prev.net) cur.net)
        (sum_of (sent_since prev.net) cur.net) _ _
        (disk_totals_lem prev.disk cur.disk (record { read = 0; written = 0; busy = 0 }))
        (net_totals_lem prev.net cur.net (record { received = 0; sent = 0 }))
