-- ===== src/Restore/Addresses/Subnet.antt =====
-- The helper's address in the subnet of the guest, and masks.
use backup_sentinel.Prelude.{
  ltb, leb, lt→ltb, le→leb, Bool-cases, ◌==◌, ==→≡, ℕ, zero, suc, ◌+◌, ◌-◌, ◌*◌, ◌%◌, ◌^◌, ◌≤◌, ◌<◌,
  ◌≡◌, refl, ap, ◌∙◌, ◌≢◌, inl, inr, Bool, true, ◌&&◌, some, arith, nat_eq, string_eq,
}
use backup_sentinel.Prelude.Text.{lower}
use backup_sentinel.Restore.Addresses.{
  subnet_size, network_of, other_host, sandbox_host_ip, netmask_from_prefix, prefix_from_netmask,
}

-- a test of every prefix up to `n`
each_prefix : (ℕ → Bool) → ℕ → Bool
each_prefix test zero = test zero
each_prefix test (suc n) = each_prefix test n && test (suc n)

each_prefix-holds :
    (test : ℕ → Bool) (n prefix : ℕ) → prefix ≤ n → each_prefix test n ≡ true → test prefix ≡ true
unfolding each_prefix
each_prefix-holds test zero prefix small tested =
    let e : prefix ≡ 0 = omega (arith, small) in rw e tested
each_prefix-holds test (suc n) prefix small tested = elim (Bool-cases (leb prefix n)) [
  | inl lower ↦ ground (arith, lower, tested, each_prefix-holds test n prefix)
  | inr last ↦ let e : prefix ≡ suc n = ground (arith, last, small) in rw e (ground (arith, tested))
]

abbrev has_four : ℕ → Bool
has_four prefix = leb 4 (subnet_size prefix) && subnet_size prefix * 2 ^ prefix == 2 ^ 32

sizes_hold : each_prefix has_four 30 ≡ true
unfolding each_prefix
sizes_hold = refl

sizes : (p : ℕ) → p ≤ 30 → (4 ≤ subnet_size p) × (subnet_size p * 2 ^ p ≡ 2 ^ 32)
sizes p h = ground (arith, each_prefix-holds has_four 30 p h sizes_hold)

-- A subnet of `m` addresses, of which there are `q`.
end_of_network : (g m q : ℕ) → 1 ≤ m → g < m * q → (g - g % m) + m ≤ m * q
end_of_network g m q h k = grind arith

same_network : (g m k : ℕ) → 1 ≤ m → k < m → (g - g % m + k) - (g - g % m + k) % m ≡ g - g % m
same_network g m k h l = grind arith

-- `host` is a host of the subnet of `guest`, other than it.
pub record IsOtherHost (guest prefix host : ℕ) : Type 0 where
  pub other : host ≢ guest
  pub after_network : network_of guest prefix < host
  pub before_broadcast : host + 1 < network_of guest prefix + subnet_size prefix
  pub same_subnet : network_of host prefix ≡ network_of guest prefix

-- the loop ends at the first host or at the next one
first_or_next :
    (guest base size : ℕ)
    → 4 ≤ size
    → let host = other_host guest (base + 1) (size - 2) in
      (host ≢ guest) × (base < host) × (host ≤ base + 2)
unfolding other_host
first_or_next guest base size h =
    let e : size - 2 ≡ suc (suc (size - 4)) = omega (arith, h) in rw e (ground arith)

-- In a subnet of a prefix of at most 30 the helper has an address, which is a host of the guest's
-- subnet, neither the network's nor the broadcast address, and not the guest's.
pub sandbox_host_ip-IsOtherHost :
    (guest prefix : ℕ)
    → prefix ≤ 30
    → guest < 2 ^ 32
    → (host : ℕ) × ((sandbox_host_ip guest prefix ≡ some host) × IsOtherHost guest prefix host)
unfolding sandbox_host_ip
sandbox_host_ip-IsOtherHost guest prefix small bound =
    let (four, whole) = sizes prefix small in
    let m = subnet_size prefix in
    let base = network_of guest prefix in
    let host = other_host guest (base + 1) (m - 2) in
    let (other, above, before) = first_or_next guest base m four in
    let fits : guest < m * 2 ^ prefix = omega (arith, whole, bound) in
    let last = end_of_network guest m (2 ^ prefix) (omega (arith, four)) fits in
    let e : host ≡ base + (host - base) = omega (arith, above) in
    let k : host - base < m = omega (arith, four, before, above) in
    let below : ltb host (2 ^ 32) ≡ true = lt→ltb _ _ (omega (arith, last, whole, before, four)) in
    (
      host,
      (
        rw (le→leb prefix 30 small, below) refl,
        record {
          other = other;
          after_network = above;
          before_broadcast = omega (arith, before, four);
          same_subnet =
              ap (λ x. network_of x prefix) e
              ∙ same_network guest m (host - base) (omega (arith, four)) k;
        },
      ),
    )

abbrev is_read_back : ℕ → Bool
is_read_back prefix = prefix_from_netmask (some (netmask_from_prefix prefix)) == prefix

masks_hold : each_prefix is_read_back 32 ≡ true
unfolding each_prefix prefix_from_netmask netmask_from_prefix
masks_hold = refl

-- A mask made of a prefix of at most 32 is read as that prefix.
pub prefix_from_netmask-netmask_from_prefix :
    (prefix : ℕ) → prefix ≤ 32 → prefix_from_netmask (some (netmask_from_prefix prefix)) ≡ prefix
prefix_from_netmask-netmask_from_prefix prefix h =
    ==→≡ _ _ (each_prefix-holds is_read_back 32 prefix h masks_hold)
