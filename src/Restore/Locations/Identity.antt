-- ===== src/Restore/Locations/Identity.antt =====
-- Which connection a host is matched to.
use backup_sentinel.Prelude.{
  Bool-cases, ==-ne, is_empty, any, All, String, ◌≡◌, refl, ap, ◌≢◌, ◌⊎◌, inl, inr, Bool, true,
  false, Option, none, some, List, [], ◌∷◌, ◌++◌,
}
use backup_sentinel.Restore.Locations.{
  or_by_address, Connection, first_where, same_name, same_address, match_pbs_connection, meets,
}

-- `c` is the first connection of which `p` holds; or none is.
abbrev pub IsFirst : (Connection → Bool) → List Connection → Option Connection → Type 0
IsFirst p conns none = All (λ c. p c ≡ false) conns
IsFirst p conns (some c) =
    (before : List Connection) × (after : List Connection) × ((conns ≡ before ++ c ∷ after)
      × All (λ d. p d ≡ false) before
      × (p c ≡ true))

IsFirst-tail :
    (p : Connection → Bool) (c : Connection) (conns : List Connection) (r : Option Connection)
    → p c ≡ false
    → IsFirst p conns r
    → IsFirst p (c ∷ conns) r
IsFirst-tail p c conns none e h = (e, h)
IsFirst-tail p c conns (some d) e (before, rest, (eq, none_before, holds)) =
    (c ∷ before, rest, (ap (λ cs. c ∷ cs) eq, (e, none_before), holds))

module _ (is_ip : String → Bool) (resolve : String → List String) where
  -- A match by name goes before a match by address.
  abbrev pub IsMatch : String → List Connection → Option Connection → Type 0
  IsMatch host conns found =
      ((c : Connection) × ((found ≡ some c) × IsFirst (same_name is_ip resolve host) conns found))
      ⊎ (IsFirst (same_name is_ip resolve host) conns none
          × IsFirst (same_address is_ip resolve (resolve host)) conns found)

  first_where-IsFirst :
      (p : Connection → Bool) (conns : List Connection)
      → IsFirst p conns (first_where is_ip resolve p conns)
  unfolding first_where
  first_where-IsFirst p [] = tt
  first_where-IsFirst p (c ∷ conns) = elim (Bool-cases (p c)) [
    | inl e ↦ rw e ([], conns, (refl, tt, e))
    | inr e ↦
        rw e (
          IsFirst-tail p c conns (first_where is_ip resolve p conns) e
            (first_where-IsFirst p conns))
  ]

  no_common : (hosts : List String) → any (λ h. meets [] (resolve h)) hosts ≡ false
  no_common [] = refl
  no_common (h ∷ hosts) = no_common hosts

  no_address :
      (conns : List Connection) (addresses : List String)
      → is_empty addresses ≡ true
      → All (λ c. same_address is_ip resolve addresses c ≡ false) conns
  no_address [] a e = tt
  no_address (c ∷ conns) [] e = (no_common (c.host ∷ c.aliases), no_address conns [] e)
  no_address (c ∷ conns) (a ∷ addresses) e = absurd (cc e)

  by_address :
      (host : String) (conns : List Connection)
      → host ≢ ""
      → (found : Option Connection) → IsFirst (same_name is_ip resolve host) conns found
      → IsMatch host conns (or_by_address is_ip resolve host conns found)
  by_address host conns named (some c) h = inl (c, (refl, h))
  by_address host conns named none h = inr (
    h,
    elim (Bool-cases (is_empty (resolve host))) [
      | inl e ↦ rw (==-ne host "" named, e) (no_address conns (resolve host) e)
      | inr e ↦ rw (==-ne host "" named, e) (first_where-IsFirst _ conns)
    ],
  )

  -- The connection that a host is matched to is the first that shares a name with it; where none
  -- does, the first that shares an address with it; and where none does, there is no match.
  pub match_pbs_connection-IsMatch :
      (host : String) (conns : List Connection)
      → host ≢ ""
      → IsMatch host conns (match_pbs_connection is_ip resolve host conns)
  unfolding match_pbs_connection
  match_pbs_connection-IsMatch host conns named =
      by_address host conns named _ (first_where-IsFirst _ conns)
