-- ===== src/Restore/Poll/Stall.antt =====
-- When a quiet period counts as a stall.
use backup_sentinel.Prelude.{ℕ, ◌*◌, ◌≤◌, ◌≡◌, false, arith}
use native.Mathlib.Nat.{mul-le-mul_left}
use backup_sentinel.Restore.Poll.{stall_exceeded}

-- A quiet period never counts as a stall while no more percent are done than the factor: it is no
-- longer than the time since the start, which allows for itself.
pub stall_exceeded-early :
    (since_progress percent elapsed factor : ℕ)
    → 10 ≤ factor
    → 10 * percent ≤ factor
    → since_progress ≤ elapsed
    → stall_exceeded since_progress percent elapsed factor ≡ false
unfolding stall_exceeded
stall_exceeded-early since_progress percent elapsed factor least few within =
    let a = mul-le-mul_left elapsed least in
    let b = mul-le-mul_left since_progress few in
    let c = mul-le-mul_left factor within in ground (arith, a, b, c, within)
