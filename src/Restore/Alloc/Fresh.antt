-- ===== src/Restore/Alloc/Fresh.antt =====
-- What an allocation guarantees, and when there is none.
use backup_sentinel.Prelude.{
  ltb, leb, Bool-cases, Option-cases, ==-refl, contains, ℕ, zero, suc, ◌+◌, ◌-◌, ◌≤◌, ◌<◌, ◌≡◌,
  refl, ◌⊎◌, inl, inr, true, false, ◌&&◌, none, some, List, [], ◌∷◌, arith, nat_eq, string_eq,
}
use backup_sentinel.Restore.Alloc.{
  Allocation, Ranges, count_up, range, ip_range, lowest_free, two_lowest_free, in_use_vmids,
  in_use_tags, in_use_ips, allocate,
}
use backup_sentinel.Restore.Types.{Run}

contains-count_up : (lo n x : ℕ) → contains (count_up lo n) x ≡ (leb lo x && ltb x (lo + n))
unfolding count_up
contains-count_up lo zero x = ground arith
contains-count_up lo (suc n) x = ground (arith, contains-count_up (suc lo) n x)

contains-range : (lo hi x : ℕ) → contains (range lo hi) x ≡ (leb lo x && ltb x hi)
unfolding range
contains-range lo hi x = ground (arith, contains-count_up lo (hi - lo) x)

contains-ip_range : (lo hi x : ℕ) → contains (ip_range lo hi) x ≡ (leb lo x && leb x hi)
unfolding ip_range
contains-ip_range lo hi x = ground (arith, contains-range lo (hi + 1) x)

-- `c` is the first of the candidates that is not in use.
record IsFree (candidates in_use : List ℕ) (c : ℕ) : Type 0 where
  listed : contains candidates c ≡ true
  free : contains in_use c ≡ false

lowest_free-IsFree :
    (candidates in_use : List ℕ) (c : ℕ)
    → lowest_free candidates in_use ≡ some c
    → IsFree candidates in_use c
unfolding lowest_free
lowest_free-IsFree [] in_use c e = cc e
lowest_free-IsFree (d ∷ candidates) in_use c e = elim (Bool-cases (contains in_use d)) [
  | inl used ↦
      let rest = lowest_free-IsFree candidates in_use c (rw used at e) in
      record { listed = ground (arith, rest.listed); free = rest.free }
  | inr free ↦ record { listed = ground (arith, ==-refl c); free = ground arith }
]

lowest_free-none :
    (candidates in_use : List ℕ) (c : ℕ)
    → lowest_free candidates in_use ≡ none
    → contains candidates c ≡ true
    → contains in_use c ≡ true
unfolding lowest_free
lowest_free-none [] in_use c e m = cc m
lowest_free-none (d ∷ candidates) in_use c e m =
    ground (arith, lowest_free-none candidates in_use c)

lowest_free-lowest :
    (lo n : ℕ) (in_use : List ℕ) (c x : ℕ)
    → lowest_free (count_up lo n) in_use ≡ some c
    → lo ≤ x
    → x < c
    → contains in_use x ≡ true
unfolding lowest_free count_up
lowest_free-lowest lo zero in_use c x e h k = cc e
lowest_free-lowest lo (suc n) in_use c x e h k =
    ground (arith, lowest_free-lowest (suc lo) n in_use c x)

two_lowest_free-some :
    (first : ℕ) (candidates in_use : List ℕ) (v w : ℕ)
    → two_lowest_free (some first) candidates in_use ≡ some (v, w)
    → (v ≡ first) × (lowest_free candidates in_use ≡ some w)
unfolding two_lowest_free lowest_free
two_lowest_free-some first [] in_use v w e = cc e
two_lowest_free-some first (c ∷ candidates) in_use v w e =
    ground (arith, two_lowest_free-some first candidates in_use v w)

-- The two picks are the lowest free candidate and the next one.
two_lowest_free-count_up :
    (lo n : ℕ) (in_use : List ℕ) (v w : ℕ)
    → two_lowest_free none (count_up lo n) in_use ≡ some (v, w)
    → (lowest_free (count_up lo n) in_use ≡ some v)
      × (contains in_use w ≡ false)
      × (v < w)
      × (w < lo + n)
unfolding two_lowest_free lowest_free count_up
two_lowest_free-count_up lo zero in_use v w e = cc e
two_lowest_free-count_up lo (suc n) in_use v w e = elim (Bool-cases (contains in_use lo)) [
  | inl used ↦ ground (arith, two_lowest_free-count_up (suc lo) n in_use v w)
  | inr free ↦
      let (first, next) = two_lowest_free-some lo (count_up (suc lo) n) in_use v w (rw free at e) in
      let found = lowest_free-IsFree (count_up (suc lo) n) in_use w next in
      ground (arith, first, found.listed, found.free, contains-count_up (suc lo) n w)
]

two_lowest_free-eq-none :
    (first : ℕ) (candidates in_use : List ℕ)
    → two_lowest_free (some first) candidates in_use ≡ none
    → lowest_free candidates in_use ≡ none
unfolding two_lowest_free lowest_free
two_lowest_free-eq-none first [] in_use e = refl
two_lowest_free-eq-none first (c ∷ candidates) in_use e =
    ground (arith, two_lowest_free-eq-none first candidates in_use)

two_lowest_free-none :
    (lo n : ℕ) (in_use : List ℕ) (v w : ℕ)
    → two_lowest_free none (count_up lo n) in_use ≡ none
    → lo ≤ v
    → v < w
    → w < lo + n
    → (contains in_use v ≡ true) ⊎ (contains in_use w ≡ true)
unfolding two_lowest_free count_up
two_lowest_free-none lo zero in_use v w e a b c = absurd (omega arith)
two_lowest_free-none lo (suc n) in_use v w e a b c = ground (
  arith,
  two_lowest_free-none (suc lo) n in_use v w,
  two_lowest_free-eq-none lo (count_up (suc lo) n) in_use,
  lowest_free-none (count_up (suc lo) n) in_use w,
  contains-count_up (suc lo) n w,
)

-- The values of an allocation are within the ranges and owned by no run.
pub record IsFresh (r : Ranges) (owned : List Run) (a : Allocation) : Type 0 where
  pub restore_free : contains (in_use_vmids owned) a.restore_vmid ≡ false
  pub helper_free : contains (in_use_vmids owned) a.helper_vmid ≡ false
  pub two_vmids : a.restore_vmid < a.helper_vmid
  pub vmids_in : (r.vmid_from ≤ a.restore_vmid) × (a.helper_vmid ≤ r.vmid_to)
  pub tag_free : contains (in_use_tags owned) a.vlan_tag ≡ false
  pub tag_in : (r.vlan_from ≤ a.vlan_tag) × (a.vlan_tag ≤ r.vlan_to)
  pub ip_free : contains (in_use_ips owned) a.mgmt_ip ≡ false
  pub ip_in : (r.ip_from ≤ a.mgmt_ip) × (a.mgmt_ip ≤ r.ip_to)

-- Why there is no allocation: at most one VMID, no tag, or no address of the range is free.
pub data Exhausted (r : Ranges) (owned : List Run) : Type 0 where
  vmids :
      ((v w : ℕ)
        → r.vmid_from ≤ v
        → v < w
        → w ≤ r.vmid_to
        → (contains (in_use_vmids owned) v ≡ true) ⊎ (contains (in_use_vmids owned) w ≡ true))
      → Exhausted r owned
  tags :
      ((t : ℕ) → r.vlan_from ≤ t → t ≤ r.vlan_to → contains (in_use_tags owned) t ≡ true)
      → Exhausted r owned
  ips :
      ((i : ℕ) → r.ip_from ≤ i → i ≤ r.ip_to → contains (in_use_ips owned) i ≡ true)
      → Exhausted r owned

vmids_lem :
    (lo hi : ℕ) (in_use : List ℕ) (v w : ℕ)
    → two_lowest_free none (range lo (hi + 1)) in_use ≡ some (v, w)
    → (contains in_use v ≡ false) × (contains in_use w ≡ false) × (v < w) × (lo ≤ v) × (w ≤ hi)
unfolding range
vmids_lem lo hi in_use v w e =
    let p = two_lowest_free-count_up lo (hi + 1 - lo) in_use v w e in
    let f = lowest_free-IsFree (count_up lo (hi + 1 - lo)) in_use v p.0 in
    ground (arith, p, f.listed, f.free, contains-count_up lo (hi + 1 - lo) v)

tag_lem :
    (lo hi : ℕ) (in_use : List ℕ) (t : ℕ)
    → lowest_free (range lo (hi + 1)) in_use ≡ some t
    → (contains in_use t ≡ false) × ((lo ≤ t) × (t ≤ hi))
tag_lem lo hi in_use t e =
    let f = lowest_free-IsFree (range lo (hi + 1)) in_use t e in
    ground (arith, f.listed, f.free, contains-range lo (hi + 1) t)

ip_lem :
    (lo hi : ℕ) (in_use : List ℕ) (i : ℕ)
    → lowest_free (ip_range lo hi) in_use ≡ some i
    → (contains in_use i ≡ false) × ((lo ≤ i) × (i ≤ hi))
ip_lem lo hi in_use i e =
    let f = lowest_free-IsFree (ip_range lo hi) in_use i e in
    ground (arith, f.listed, f.free, contains-ip_range lo hi i)

-- An allocation lies within the configured ranges and takes nothing that a run owns.
pub allocate-IsFresh :
    (r : Ranges) (owned : List Run) (a : Allocation) → allocate r owned ≡ some a → IsFresh r owned a
unfolding allocate
allocate-IsFresh r owned a e =
    elim (Option-cases
      (two_lowest_free none (range r.vmid_from (r.vmid_to + 1)) (in_use_vmids owned))) [
        | inl gone ↦ cc (rw gone at e)
        | inr ((v, w), ev) ↦
            elim (Option-cases
              (lowest_free (range r.vlan_from (r.vlan_to + 1)) (in_use_tags owned))) [
                | inl gone ↦ cc (rw (ev, gone) at e)
                | inr (t, et) ↦
                    elim (Option-cases
                      (lowest_free (ip_range r.ip_from r.ip_to) (in_use_ips owned))) [
                        | inl gone ↦ cc (rw (ev, et, gone) at e)
                        | inr (i, ei) ↦ ground (
                          arith,
                          vmids_lem r.vmid_from r.vmid_to (in_use_vmids owned) v w ev,
                          tag_lem r.vlan_from r.vlan_to (in_use_tags owned) t et,
                          ip_lem r.ip_from r.ip_to (in_use_ips owned) i ei,
                        )
                      ]
              ]
      ]

-- No allocation is given only when one of the three resources is exhausted.
pub allocate-Exhausted :
    (r : Ranges) (owned : List Run) → allocate r owned ≡ none → Exhausted r owned
unfolding allocate range
allocate-Exhausted r owned e =
    elim (Option-cases
      (two_lowest_free none (range r.vmid_from (r.vmid_to + 1)) (in_use_vmids owned))) [
        | inl gone ↦ vmids (λ v w a b c.
            two_lowest_free-none r.vmid_from (r.vmid_to + 1 - r.vmid_from) (in_use_vmids owned) v w
              gone a b (omega arith))
        | inr ((v, w), ev) ↦
            elim (Option-cases
              (lowest_free (range r.vlan_from (r.vlan_to + 1)) (in_use_tags owned))) [
                | inl gone ↦ tags (λ t a b.
                    lowest_free-none (range r.vlan_from (r.vlan_to + 1)) (in_use_tags owned) t gone
                      (ground (arith, contains-range r.vlan_from (r.vlan_to + 1) t)))
                | inr (t, et) ↦ ips (λ i a b.
                    lowest_free-none (ip_range r.ip_from r.ip_to) (in_use_ips owned) i
                      (ground (arith, e, ev, et))
                      (ground (arith, contains-ip_range r.ip_from r.ip_to i)))
              ]
      ]
