-- ===== src/Restore/Addresses.antt =====
-- Addresses in app/services/restore_server.py: masks, `parse_cidr`, and where the helper and the
-- guest are in a sandbox. An IPv4 address and a mask are the numbers that they stand for.
pub mod Subnet
use backup_sentinel.Prelude.{
  ltb, leb, if◌then◌else◌, ◌==◌, nat_eq, string_eq, length, ℕ, zero, suc, ◌+◌, ◌-◌, ◌*◌, ◌%◌, ◌^◌,
  String, Bool, false, not, ◌&&◌, ◌||◌, Option, none, some, List, [], ◌∷◌, map,
}
use backup_sentinel.Prelude.Text.{strip}
use Prim.Native.Char.{code}

abbrev points : String → List ℕ
points String.[] = []
points (String.◌∷◌ c rest) = code c ∷ points rest

abbrev digit : ℕ → Option ℕ
digit c = if leb b'0' c && leb c b'9' then some (c - b'0') else none

-- the number that decimal digits stand for, after `n` was read
unfoldable pub digits_from : ℕ → List ℕ → Option ℕ
digits_from n [] = some n
digits_from n (c ∷ cs) = elim (digit c) [ none ↦ none | some d ↦ digits_from (10 * n + d) cs ]

unfoldable pub read_digits : List ℕ → Option ℕ
unfolding digits_from
read_digits [] = none
read_digits (c ∷ cs) = digits_from 0 (c ∷ cs)

-- `partition` and `split`: what stands before each separator
unfoldable pub split_on : ℕ → List ℕ → List (List ℕ)
split_on separator [] = [] ∷ []
split_on separator (c ∷ cs) = elim (split_on separator cs) [
  | [] ↦ (c ∷ []) ∷ []
  | part ∷ parts ↦ if c == separator then [] ∷ part ∷ parts else (c ∷ part) ∷ parts
]

abbrev starts_with_zero : List ℕ → Bool
starts_with_zero [] = false
starts_with_zero (c ∷ _) = c == b'0'

-- a part of a dotted address: at most three digits, no leading zero, at most 255
unfoldable pub read_octet : List ℕ → Option ℕ
unfolding read_digits
read_octet cs = elim (read_digits cs) [
  | none ↦ none
  | some n ↦
      if leb (length cs) 3 && leb n 255 && (length cs == 1 || not (starts_with_zero cs))
      then some n
      else none
]

abbrev octets : List (Option ℕ) → Option ℕ
octets (some a ∷ some b ∷ some c ∷ some d ∷ []) = some (((a * 256 + b) * 256 + c) * 256 + d)
octets _ = none

-- `int(ipaddress.IPv4Address(text))`
unfoldable pub read_ipv4 : String → Option ℕ
unfolding split_on read_octet
read_ipv4 text = octets (map read_octet (split_on b'.' (points text)))

-- what follows the first separator, and what precedes it
unfoldable pub before_slash : String → String
before_slash String.[] = ""
before_slash (String.◌∷◌ c s) =
    let rest = before_slash s in if code c == b'/' then "" else String.◌∷◌ c rest

unfoldable pub after_slash : String → String
after_slash String.[] = ""
after_slash (String.◌∷◌ c s) = let rest = after_slash s in if code c == b'/' then s else rest

abbrev with_prefix : ℕ → ℕ → String → Option (ℕ × ℕ)
with_prefix ip default_prefix text =
    if text == "" then some (ip, default_prefix) else elim (read_digits (points text)) [
      | none ↦ none
      | some prefix ↦ if leb prefix 32 then some (ip, prefix) else none
    ]

-- the prefix is read as decimal digits, without a sign
unfoldable pub parse_cidr : String → ℕ → Option (ℕ × ℕ)
unfolding read_ipv4 read_digits before_slash after_slash
parse_cidr text default_prefix =
    let raw = strip text in
    if raw == "" then none else elim (read_ipv4 (strip (before_slash raw))) [
      | none ↦ none
      | some ip ↦ with_prefix ip default_prefix (strip (after_slash raw))
    ]

-- the number of addresses of a subnet
abbrev pub subnet_size : ℕ → ℕ
subnet_size prefix = 2 ^ (32 - prefix)

abbrev pub network_of : ℕ → ℕ → ℕ
network_of ip prefix = ip - ip % subnet_size prefix

-- `net.hosts()`: the first host, and how many there are
abbrev pub first_host : ℕ → ℕ → ℕ
first_host ip prefix = if leb prefix 30 then network_of ip prefix + 1 else network_of ip prefix

abbrev pub host_count : ℕ → ℕ
host_count prefix = if leb prefix 30 then subnet_size prefix - 2 else subnet_size prefix

-- the loop of `sandbox_host_ip` over the hosts
unfoldable pub other_host : ℕ → ℕ → ℕ → ℕ
other_host guest host zero = guest + 1
other_host guest host (suc n) =
    let rest = other_host guest (suc host) n in if host == guest then rest else host

-- for a prefix of at most 32; the host after the last address has no text, which raises
unfoldable pub sandbox_host_ip : ℕ → ℕ → Option ℕ
unfolding other_host
sandbox_host_ip guest_ip prefix =
    let host = other_host guest_ip (first_host guest_ip prefix) (host_count prefix) in
    if ltb host (2 ^ 32) then some host else none

-- `sandbox_fallback_addrs` of 100.64.0.0/24: the helper's address, the guest's, and the prefix
abbrev pub sandbox_fallback : ℕ × (ℕ × ℕ)
sandbox_fallback = (1681915904 + 254, (1681915904 + 200, 24))

abbrev pub mask_of : ℕ → ℕ
mask_of prefix = 2 ^ 32 - subnet_size prefix

unfoldable pub netmask_from_prefix : ℕ → ℕ
netmask_from_prefix prefix = if leb prefix 32 then mask_of prefix else mask_of 24

unfoldable pub prefix_of_mask : ℕ → ℕ → Option ℕ
prefix_of_mask zero mask = if mask == mask_of 0 then some 0 else none
prefix_of_mask (suc prefix) mask =
    let rest = prefix_of_mask prefix mask in
    if mask == mask_of (suc prefix) then some (suc prefix) else rest

abbrev or_default : Option ℕ → ℕ
or_default none = 24
or_default (some prefix) = prefix

-- a netmask, or else a hostmask, as `ipaddress` takes them; no text that is a mask gives 24
unfoldable pub prefix_from_netmask : Option ℕ → ℕ
unfolding prefix_of_mask
prefix_from_netmask none = 24
prefix_from_netmask (some mask) = elim (prefix_of_mask 32 mask) [
  | some prefix ↦ prefix
  | none ↦ or_default (prefix_of_mask 32 (2 ^ 32 - 1 - mask))
]

-- the prefix of the helper's sandbox leg in `helper_legs`
unfoldable pub sandbox_leg_prefix : ℕ → ℕ → ℕ → ℕ → ℕ
sandbox_leg_prefix mgmt_ip mgmt_prefix sandbox_ip sandbox_prefix =
    if network_of sandbox_ip sandbox_prefix == network_of mgmt_ip mgmt_prefix
      && sandbox_prefix == mgmt_prefix
    then 32
    else sandbox_prefix
