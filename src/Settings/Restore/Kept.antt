-- ===== src/Settings/Restore/Kept.antt =====
-- The fields of a configuration that is saved over another.
use backup_sentinel.Prelude.{
  if◌then◌else◌, Bool-cases, ◌==◌, ==-refl, ==→≡, contains, String, ◌≡◌, refl, sym, ◌∙◌, inl, inr,
  Bool, true, false, not, ◌&&◌, Option, none, some, [], ◌∷◌, nat_eq, string_eq,
}
use backup_sentinel.Prelude.Dict.{get-filter, get, get-put, get-put_self}
use backup_sentinel.Settings.Restore.{
  is_unset, Value, Loaded, loaded, not_configured, unreadable, is_secret, Fields, non_secret,
  or_empty, keep_field, keep_stored,
}

-- The fields that the form does not have.
abbrev pub is_timing : String → Bool
is_timing field = contains ("probe_first_delay_seconds" ∷ "probe_interval_seconds" ∷ []) field

-- The fields that keep their value where they are left empty.
abbrev pub is_kept : String → Bool
is_kept field = contains ("token_secret" ∷ "ssh_private_key" ∷ "ssh_host_key" ∷ []) field

module _ {J : Type 0} where
  pub get-non_secret :
      (field : String) (cfg : Fields J)
      → get field (non_secret cfg) ≡ (if is_secret field then none else get field cfg)
  unfolding non_secret
  get-non_secret field cfg =
      get-filter (λ f. not (is_secret f)) field cfg
      ∙ elim (is_secret field)
          as (λ b. (if not b then get field cfg else none) ≡ (if b then none else get field cfg)) [
            | true ↦ refl
            | false ↦ refl
          ]

  abbrev pub existing_of : Loaded (Fields J) → Fields J
  existing_of (loaded cfg) = cfg
  existing_of not_configured = []
  existing_of unreadable = []

  -- what a field has after the empty ones were kept
  abbrev pub kept_value : Fields J → Fields J → String → Option (Value J)
  kept_value existing cfg field =
      if is_kept field && is_unset (get field cfg)
      then some (or_empty (get field existing))
      else get field cfg

  get-keep_field :
      (existing cfg : Fields J) (f field : String)
      → get field (keep_field existing f cfg) ≡ (
          if f == field && is_unset (get field cfg)
          then some (or_empty (get field existing))
          else get field cfg)
  unfolding keep_field
  get-keep_field existing cfg f field = elim (Bool-cases (f == field)) [
    | inl e ↦
        let same : f ≡ field = ==→≡ f field e in
        rw same (elim (Bool-cases (is_unset (get field cfg))) [
          | inl u ↦ rw (u, get-put_self field) (rw (==-refl field) refl)
          | inr s ↦ rw s (rw (==-refl field) refl)
        ])
    | inr n ↦ rw n (elim (Bool-cases (is_unset (get f cfg))) [
      | inl u ↦ rw (u, get-put) (rw n refl)
      | inr s ↦ rw s refl
    ])
  ]

  pub get-keep_stored :
      (existing cfg : Fields J) (field : String)
      → get field (keep_stored existing cfg) ≡ kept_value existing cfg field
  unfolding keep_stored
  get-keep_stored existing cfg field = elim (Bool-cases ("token_secret" == field)) [
    | inl e ↦
        let same = ==→≡ "token_secret" field e in
        rw (sym same) (rw (get-keep_field, get-keep_field, get-keep_field) refl)
    | inr n1 ↦ elim (Bool-cases ("ssh_private_key" == field)) [
      | inl e ↦
          let same = ==→≡ "ssh_private_key" field e in
          rw (sym same) (rw (get-keep_field, get-keep_field, get-keep_field) refl)
      | inr n2 ↦ elim (Bool-cases ("ssh_host_key" == field)) [
        | inl e ↦
            let same = ==→≡ "ssh_host_key" field e in
            rw (sym same) (rw (get-keep_field, get-keep_field, get-keep_field) refl)
        | inr n3 ↦ rw (get-keep_field, n3, get-keep_field, n2, get-keep_field, n1) refl
      ]
    ]
  ]
