-- ===== src/Restore/Alloc.antt =====
-- app/services/restore_alloc.py: free resources for one restore environment.
pub mod Fresh
use backup_sentinel.Prelude.{
  ltb, if◌then◌else◌, contains, ℕ, zero, suc, ◌+◌, ◌-◌, Option, none, some, List, [], ◌∷◌, ◌++◌,
  nat_eq, string_eq,
}
use backup_sentinel.Restore.Types.{Run}

pub record Allocation : Type 0 where
  pub restore_vmid : ℕ
  pub helper_vmid : ℕ
  pub vlan_tag : ℕ
  pub mgmt_ip : ℕ

-- the configured ranges
pub record Ranges : Type 0 where
  pub vmid_from : ℕ
  pub vmid_to : ℕ
  pub vlan_from : ℕ
  pub vlan_to : ℕ
  pub ip_from : ℕ
  pub ip_to : ℕ

unfoldable pub count_up : ℕ → ℕ → List ℕ
count_up lo zero = []
count_up lo (suc n) = lo ∷ count_up (suc lo) n

-- Python's `range(lo, hi)`
unfoldable pub range : ℕ → ℕ → List ℕ
unfolding count_up
range lo hi = count_up lo (hi - lo)

unfoldable pub ip_range : ℕ → ℕ → List ℕ
ip_range ip_from ip_to = if ltb ip_to ip_from then [] else range ip_from (ip_to + 1)

unfoldable pub lowest_free : List ℕ → List ℕ → Option ℕ
lowest_free [] in_use = none
lowest_free (c ∷ candidates) in_use =
    let rest = lowest_free candidates in_use in if contains in_use c then rest else some c

-- the loop of `_two_lowest_free`, with the first pick found so far
unfoldable pub two_lowest_free : Option ℕ → List ℕ → List ℕ → Option (ℕ × ℕ)
two_lowest_free picked [] in_use = none
two_lowest_free none (c ∷ candidates) in_use =
    let rest = two_lowest_free none candidates in_use in
    let next = two_lowest_free (some c) candidates in_use in
    if contains in_use c then rest else next
two_lowest_free (some first) (c ∷ candidates) in_use =
    let rest = two_lowest_free (some first) candidates in_use in
    if contains in_use c then rest else some (first, c)

abbrev pub to_list : Option ℕ → List ℕ
to_list none = []
to_list (some n) = n ∷ []

unfoldable pub in_use_vmids : List Run → List ℕ
in_use_vmids [] = []
in_use_vmids (r ∷ owned) = to_list r.restore_vmid ++ to_list r.helper_vmid ++ in_use_vmids owned

unfoldable pub in_use_tags : List Run → List ℕ
in_use_tags [] = []
in_use_tags (r ∷ owned) = to_list r.vlan_tag ++ in_use_tags owned

unfoldable pub in_use_ips : List Run → List ℕ
in_use_ips [] = []
in_use_ips (r ∷ owned) = to_list r.mgmt_ip ++ in_use_ips owned

infixl 5 ◌>>=◌
abbrev pub ◌>>=◌ : {A B : Type 0} → Option A → (A → Option B) → Option B
none >>= f = none
some a >>= f = f a

unfoldable pub allocate : Ranges → List Run → Option Allocation
allocate r owned = do
  vmids ← two_lowest_free none (range r.vmid_from (r.vmid_to + 1)) (in_use_vmids owned)
  vlan ← lowest_free (range r.vlan_from (r.vlan_to + 1)) (in_use_tags owned)
  mgmt ← lowest_free (ip_range r.ip_from r.ip_to) (in_use_ips owned)
  some (record { restore_vmid = vmids.0; helper_vmid = vmids.1; vlan_tag = vlan; mgmt_ip = mgmt })
