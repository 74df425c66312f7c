-- ===== src/Restore/Probe/Laws.antt =====
-- Laws of the classification: the union over the addresses, and the labels shown while probing.
use backup_sentinel.Prelude.{
  ltb, nat_beq, ltb→lt, ==→≡, ==-refl, Bool-cases, ◌==◌, any, all, All, any-append, contains,
  is_nodup, ℕ, ◌≤◌, ◌<◌, ◌≡◌, refl, ap, inl, inr, Bool, true, false, ◌||◌, some, List, [], ◌∷◌,
  ◌++◌, map, arith, nat_eq, string_eq,
}
use backup_sentinel.Prelude.Dict.{Dict, get, keys}
use backup_sentinel.Restore.Probe.{
  or_false, is_alive, port_open, result_for, classify, classify_results, classify_multi, open_in,
  insert_port, insert_ports, open_ports,
}
use backup_sentinel.Restore.Types.{Result, passed, limited, IpCheck}

all_single :
    (r : IpCheck) (ports : List ℕ)
    → all (λ p. port_open p r || false) ports ≡ all (λ p. port_open p r) ports
all_single r [] = refl
all_single r (p ∷ ports) = ground (arith, all_single r ports)

-- With one address the union is the result for that address.
classify_multi-classify :
    (checks : Dict ℕ IpCheck) (ip : ℕ) (require_icmp : Bool) (tcp_ports : List ℕ) (had_ip : Bool)
    → classify_multi checks (ip ∷ []) require_icmp tcp_ports had_ip
      ≡ classify (some (result_for checks ip)) require_icmp tcp_ports had_ip
unfolding classify_multi classify
classify_multi-classify checks ip require_icmp tcp_ports had_ip =
    ground (arith, all_single (result_for checks ip) tcp_ports)

-- The order of the results among the three.
abbrev pub rank : Result → ℕ
rank passed = 2
rank limited = 1
rank _ = 0

any-more {ℓ} :
    {A : Type ℓ} (p : A → Bool) (xs ys : List A) → any p xs ≡ true → any p (xs ++ ys) ≡ true
any-more p xs ys h = rw any-append (ground (arith, h))

all-any-more :
    (results more : List IpCheck) (ports : List ℕ)
    → all (λ p. any (port_open p) results) ports ≡ true
    → all (λ p. any (port_open p) (results ++ more)) ports ≡ true
all-any-more results more [] h = refl
all-any-more results more (p ∷ ports) h =
    ground (arith, any-more (port_open p) results more, all-any-more results more ports)

-- One more set of answers never makes a result worse.
classify_results-more :
    (results more : List IpCheck) (require_icmp : Bool) (tcp_ports : List ℕ)
    → rank (classify_results results require_icmp tcp_ports)
      ≤ rank (classify_results (results ++ more) require_icmp tcp_ports)
unfolding classify_results
classify_results-more results more require_icmp tcp_ports = ground (
  arith,
  all-any-more results more tcp_ports,
  any-more is_alive results more,
  any-more (λ r. any (λ p. port_open p r) tcp_ports) results more,
)

map-append_lem :
    (checks : Dict ℕ IpCheck) (ips more : List ℕ)
    → map (result_for checks) (ips ++ more)
      ≡ map (result_for checks) ips ++ map (result_for checks) more
map-append_lem checks [] more = refl
map-append_lem checks (ip ∷ ips) more =
    ap (λ l. result_for checks ip ∷ l) (map-append_lem checks ips more)

-- Probing further addresses never makes the result worse, once there is an address.
pub classify_multi-more :
    (checks : Dict ℕ IpCheck) (ip : ℕ) (ips more : List ℕ) (require_icmp : Bool)
    (tcp_ports : List ℕ) (had_ip : Bool)
    → rank (classify_multi checks (ip ∷ ips) require_icmp tcp_ports had_ip)
      ≤ rank (classify_multi checks (ip ∷ ips ++ more) require_icmp tcp_ports had_ip)
unfolding classify_multi
classify_multi-more checks ip ips more require_icmp tcp_ports false = omega arith
classify_multi-more checks ip ips more require_icmp tcp_ports true =
    rw (map-append_lem checks ips more) (
      classify_results-more (map (result_for checks) (ip ∷ ips)) (map (result_for checks) more)
        require_icmp tcp_ports)

-- Strictly ascending.
abbrev pub Ascending : List ℕ → Type 0
Ascending [] = Unit
Ascending (p ∷ ports) = All (λ q. p < q) ports × Ascending ports

All-insert_port :
    (n p : ℕ) (ports : List ℕ)
    → n < p
    → All (λ q. n < q) ports
    → All (λ q. n < q) (insert_port p ports)
unfolding insert_port
All-insert_port n p [] h k = (h, tt)
All-insert_port n p (q ∷ ports) h k = elim (Bool-cases (nat_beq p q)) [
  | inl same ↦ rw same k
  | inr new ↦ elim (Bool-cases (ltb p q)) [
    | inl less ↦ rw (new, less) (h, k)
    | inr more ↦ rw (new, more) (k.0, All-insert_port n p ports h k.1)
  ]
]

All-lt_trans : (p q : ℕ) (ports : List ℕ) → p < q → All (λ r. q < r) ports → All (λ r. p < r) ports
All-lt_trans p q [] h k = tt
All-lt_trans p q (r ∷ ports) h k = (omega (arith, k.0), All-lt_trans p q ports h k.1)

Ascending-insert_port : (p : ℕ) (ports : List ℕ) → Ascending ports → Ascending (insert_port p ports)
unfolding insert_port
Ascending-insert_port p [] h = (tt, tt)
Ascending-insert_port p (q ∷ ports) h = elim (Bool-cases (nat_beq p q)) [
  | inl same ↦ rw same h
  | inr new ↦ elim (Bool-cases (ltb p q)) [
    | inl less ↦ rw (new, less) ((ltb→lt p q less, All-lt_trans p q ports (ltb→lt p q less) h.0), h)
    | inr more ↦
        rw (new, more)
          (All-insert_port q p ports (ground arith) h.0, Ascending-insert_port p ports h.1)
  ]
]

contains-insert_port :
    (p n : ℕ) (ports : List ℕ) → contains (insert_port p ports) n ≡ (p == n || contains ports n)
unfolding insert_port
contains-insert_port p n [] = refl
contains-insert_port p n (q ∷ ports) = ground (arith, contains-insert_port p n ports)

Ascending-insert_ports :
    (ports found : List ℕ) → Ascending found → Ascending (insert_ports ports found)
unfolding insert_ports
Ascending-insert_ports [] found h = h
Ascending-insert_ports (p ∷ ports) found h =
    Ascending-insert_port p (insert_ports ports found) (Ascending-insert_ports ports found h)

contains-insert_ports :
    (ports found : List ℕ) (n : ℕ)
    → contains (insert_ports ports found) n ≡ (contains ports n || contains found n)
unfolding insert_ports
contains-insert_ports [] found n = refl
contains-insert_ports (p ∷ ports) found n = ground (
  arith,
  contains-insert_port p n (insert_ports ports found),
  contains-insert_ports ports found n,
)

get-keys :
    (n : ℕ) (ports : Dict ℕ Bool) → contains (keys ports) n ≡ false → or_false (get n ports) ≡ false
unfolding get keys
get-keys n [] h = refl
get-keys n ((p, green) ∷ ports) h = ground (arith, get-keys n ports)

contains-open_in-keys :
    (n : ℕ) (ports : Dict ℕ Bool)
    → contains (keys ports) n ≡ false
    → contains (open_in ports) n ≡ false
unfolding open_in keys
contains-open_in-keys n [] h = refl
contains-open_in-keys n ((p, green) ∷ ports) h = ground (arith, contains-open_in-keys n ports)

same_key :
    (n p : ℕ) (green : Bool) (ports : Dict ℕ Bool)
    → p ≡ n
    → is_nodup (keys ((p, green) ∷ ports)) ≡ true
    → contains (open_in ((p, green) ∷ ports)) n ≡ green
unfolding open_in keys
same_key n p true ports e h = ground (arith, ==-refl n, ap (λ m. m == n) e)
same_key n p false ports e h =
    contains-open_in-keys n ports (ground (arith, h, ap (contains (keys ports)) e))

contains-open_in :
    (n : ℕ) (ports : Dict ℕ Bool)
    → is_nodup (keys ports) ≡ true
    → contains (open_in ports) n ≡ or_false (get n ports)
unfolding open_in get keys
contains-open_in n [] h = refl
contains-open_in n ((p, green) ∷ ports) h = elim (Bool-cases (p == n)) [
  | inl e ↦ rw e (same_key n p green ports (==→≡ p n e) h)
  | inr f ↦ ground (arith, contains-open_in n ports, f)
]

-- No port was checked twice at one address, as in a `dict`.
abbrev pub AreDicts : List IpCheck → Type 0
AreDicts results = All (λ r. is_nodup (keys r.ports) ≡ true) results

-- Where each address has each port at most once, the ports among the labels are strictly ascending,
-- and a port is among them exactly when it was found open at some address.
pub open_ports_lem :
    (results : List IpCheck)
    → AreDicts results
    → Ascending (open_ports results)
      × ((n : ℕ) → contains (open_ports results) n ≡ any (port_open n) results)
unfolding open_ports
open_ports_lem [] h = (tt, λ n. refl)
open_ports_lem (r ∷ results) h =
    let (ascending, listed) = open_ports_lem results h.1 in
    (
      Ascending-insert_ports (open_in r.ports) (open_ports results) ascending,
      λ n. ground (
        arith,
        contains-insert_ports (open_in r.ports) (open_ports results) n,
        listed n,
        contains-open_in n r.ports h.0,
      ),
    )
