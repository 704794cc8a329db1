-- ===== src/Relay/Tunnels/Routing.antt =====
-- Where the blind listener of relay/src/bin/server.rs sends a connection.
use context_guardian.Prelude.{
  ℕ, String, ◌≡◌, refl, sym, ap, ◌∙◌, inl, inr, Bool, true, false, not, ◌&&◌, none, some, List, [],
  ◌∷◌, ◌++◌, arith, all, ◌+s◌, Bool-cases, Option-cases, &&-true, is_some, find, strip_suffix,
  strip_suffix_sound, contains,
}
use context_guardian.Relay.Identity.{valid_tenant_id}
use context_guardian.Relay.State.{AppState}
use context_guardian.Relay.Tunnels.{
  tenant_from_server_name, first_open, take_slot, route_blind_connection,
}

module _ (is_closed : ℕ → Bool) where
  the_slot : (p q : ℕ × List ℕ) → some p ≡ some q → p ≡ q
  the_slot p q h = cc

  -- The loop takes the first slot whose channel is open, and leaves those after it.
  pub first_open_sound :
      (slots : List ℕ) (sender : ℕ) (left : List ℕ)
      → first_open is_closed slots ≡ some (sender, left)
      → (closed : List ℕ) × (slots ≡ closed ++ sender ∷ left)
        × (all is_closed closed ≡ true)
        × (is_closed sender ≡ false)
  unfolding first_open
  first_open_sound [] sender left found = absurd cc
  first_open_sound (head ∷ slots) sender left found = elim (Bool-cases (is_closed head)) [
    | inr live ↦
        let same = the_slot (head, slots) (sender, left) (ground (arith)) in
        ([], ap (λ r. r.0 ∷ r.1) same, refl, ap is_closed (sym (ap (λ r. r.0) same)) ∙ live)
    | inl dead ↦
        let (closed, parts, all_closed, live) = first_open_sound slots sender left (ground arith) in
        (head ∷ closed, ap (λ rest. head ∷ rest) parts, rw (dead) all_closed, live)
  ]

nothing : (s : String) → none ≡ some s → ⊥
nothing s h = cc

the_name : (s u : String) → some s ≡ some u → s ≡ u
the_name s u h = cc

module _ (server_name suffix : String) where
  rejects :
      strip_suffix ("." +s suffix) server_name ≡ none
      → tenant_from_server_name server_name suffix ≡ none
  unfolding tenant_from_server_name
  rejects absent = rw (absent, tenant_from_server_name)

  accepts :
      (front : String)
      → strip_suffix ("." +s suffix) server_name ≡ some front
      → (not (contains "." front) && valid_tenant_id front) ≡ true
      → tenant_from_server_name server_name suffix ≡ some front
  unfolding tenant_from_server_name
  accepts front found valid = rw (found, valid, tenant_from_server_name)

  refuses :
      (front : String)
      → strip_suffix ("." +s suffix) server_name ≡ some front
      → (not (contains "." front) && valid_tenant_id front) ≡ false
      → tenant_from_server_name server_name suffix ≡ none
  unfolding tenant_from_server_name
  refuses front found invalid = rw (found, invalid, tenant_from_server_name)

-- The tenant of a server name stands in front of the suffix, and is a valid id.
pub tenant_from_server_name_sound :
    (server_name suffix tenant : String)
    → tenant_from_server_name server_name suffix ≡ some tenant
    → (server_name ≡ tenant +s ("." +s suffix)) × (valid_tenant_id tenant ≡ true)
tenant_from_server_name_sound server_name suffix tenant named =
    elim (Option-cases (strip_suffix ("." +s suffix) server_name)) [
      | inl absent ↦ absurd (nothing tenant (sym (rejects server_name suffix absent) ∙ named))
      | inr (front, found) ↦ elim (Bool-cases (not (contains "." front) && valid_tenant_id front)) [
        | inl valid ↦
            let same =
              the_name front tenant (sym (accepts server_name suffix front found valid) ∙ named) in
            (
              strip_suffix_sound ("." +s suffix) server_name front found
                  ∙ ap (λ s. s +s ("." +s suffix)) same,
              ap valid_tenant_id (sym same)
                  ∙ (&&-true (not (contains "." front)) (valid_tenant_id front) valid).1,
            )
        | inr invalid ↦
            absurd (nothing tenant (sym (refuses server_name suffix front found invalid) ∙ named))
      ]
    ]

module _ (is_closed : ℕ → Bool) (st : AppState) where
  the_channel : (p q : ℕ) → some p ≡ some q → p ≡ q
  the_channel p q h = cc

  no_channel : (p : ℕ) → none ≡ some p → ⊥
  no_channel p h = cc

  take_slot_sound :
      (tenant_id : String) (slots : List ℕ) (sender : ℕ)
      → (take_slot is_closed st tenant_id slots).1 ≡ some sender
      → (left : List ℕ) × (first_open is_closed slots ≡ some (sender, left))
  unfolding take_slot
  take_slot_sound tenant_id slots sender taken = elim (Option-cases (first_open is_closed slots)) [
    | inl absent ↦ absurd (no_channel sender (ground (arith)))
    | inr ((first, left), found) ↦
        (left, found ∙ ap (λ s. some (s, left)) (the_channel first sender (ground arith)))
  ]

  -- A connection goes to the tenant that its server name names, where that tenant is registered, and
  -- to the first of its slots whose channel is open.
  pub route_blind_connection_sound :
      (server_name : String) (sender : ℕ)
      → (route_blind_connection is_closed st server_name).1 ≡ some sender
      → (suffix : String) × (tenant_id : String) × (closed : List ℕ) × (left : List ℕ)
        × (st.blind_suffix ≡ some suffix)
        × (server_name ≡ tenant_id +s ("." +s suffix))
        × (is_some (find tenant_id st.tenants) ≡ true)
        × (find tenant_id st.blind_slots ≡ some (closed ++ sender ∷ left))
        × (all is_closed closed ≡ true)
        × (is_closed sender ≡ false)
  unfolding route_blind_connection
  route_blind_connection_sound server_name sender routed = elim (Option-cases st.blind_suffix) [
    | inl disabled ↦ absurd (no_channel sender (ground arith))
    | inr (suffix, enabled) ↦ elim (Option-cases (tenant_from_server_name server_name suffix)) [
      | inl unroutable ↦ absurd (no_channel sender (ground arith))
      | inr (tenant_id, named) ↦ elim (Bool-cases (is_some (find tenant_id st.tenants))) [
        | inr unknown ↦ absurd (no_channel sender (ground arith))
        | inl known ↦ elim (Option-cases (find tenant_id st.blind_slots)) [
          | inl absent ↦ absurd (no_channel sender (ground arith))
          | inr (slots, there) ↦
              let (left, found) = take_slot_sound tenant_id slots sender (ground arith) in
              let (closed, parts, all_closed, live) =
                first_open_sound is_closed slots sender left found in
              let (front, valid) =
                tenant_from_server_name_sound server_name suffix tenant_id named in
              (
                suffix,
                tenant_id,
                closed,
                left,
                enabled,
                front,
                known,
                there ∙ ap (λ s. some s) parts,
                all_closed,
                live,
              )
        ]
      ]
    ]
  ]
