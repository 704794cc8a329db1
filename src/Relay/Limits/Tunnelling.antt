-- ===== src/Relay/Limits/Tunnelling.antt =====
-- The blind tunnels of relay/src/bin/server.rs and the limits of the state.
use context_guardian.Prelude.{
  ℕ, ◌≤◌, String, ◌≡◌, inl, inr, Bool, some, List, [], ◌∷◌, ◌++◌, arith, leb, ◌>>=◌, unwrap_or,
  Bool-cases, Option-cases, length, length-append, is_some, is_empty, find,
}
use context_guardian.Relay.State.{max_blind_slots_per_tenant, AppState, WithinLimits}
use context_guardian.Relay.Tunnels.{
  add_blind_slot, open_slots, remove_closed_blind_slots, first_open, take_slot,
  route_blind_connection, tenant_from_server_name,
}
use context_guardian.Relay.Tunnels.Routing.{first_open_sound}
use context_guardian.Relay.Limits.{put-slots-WithinLimits, erase-slots-WithinLimits}

module _ (st : AppState) (within : WithinLimits st) where
  pub add_blind_slot-WithinLimits :
      (tenant_id : String) (sender : ℕ) → WithinLimits (add_blind_slot st tenant_id sender).0
  unfolding add_blind_slot
  add_blind_slot-WithinLimits tenant_id sender =
      let slots = unwrap_or (find tenant_id st.blind_slots) [] in
      elim (Bool-cases (leb max_blind_slots_per_tenant (length slots))) [
        | inl full ↦
            rw (full, add_blind_slot)
              (put-slots-WithinLimits st within tenant_id slots (held tenant_id))
        | inr room ↦
            rw (room, add_blind_slot)
              (put-slots-WithinLimits st within tenant_id (slots ++ sender ∷ [])
                (rw (length-append slots (sender ∷ [])) (ground arith)))
      ]
    where
      held :
          (tenant_id : String)
          → length (unwrap_or (find tenant_id st.blind_slots) []) ≤ max_blind_slots_per_tenant
      held tenant_id = elim (Option-cases (find tenant_id st.blind_slots)) [
        | inl absent ↦ rw (absent) (omega arith)
        | inr (slots, there) ↦ rw (there) (within.few_slots tenant_id slots there)
      ]

  module _ (is_closed : ℕ → Bool) where
    length-open_slots : (slots : List ℕ) → length (open_slots is_closed slots) ≤ length slots
    unfolding open_slots
    length-open_slots [] = omega arith
    length-open_slots (sender ∷ senders) = ground (arith, length-open_slots senders)

    pub remove_closed_blind_slots-WithinLimits :
        (tenant_id : String) → WithinLimits (remove_closed_blind_slots is_closed st tenant_id)
    unfolding remove_closed_blind_slots
    remove_closed_blind_slots-WithinLimits tenant_id =
        elim (Option-cases (find tenant_id st.blind_slots)) [
          | inl absent ↦ rw (absent, remove_closed_blind_slots) within
          | inr (slots, there) ↦ elim (Bool-cases (is_empty (open_slots is_closed slots))) [
            | inl closed ↦
                rw (there, closed, remove_closed_blind_slots)
                  (erase-slots-WithinLimits st within tenant_id)
            | inr left ↦
                rw (there, left, remove_closed_blind_slots)
                  (put-slots-WithinLimits st within tenant_id (open_slots is_closed slots) (
                    omega (arith, length-open_slots slots, within.few_slots tenant_id slots there)))
          ]
        ]

    -- What the loop leaves is a later part of the slots.
    first_open-length :
        (slots : List ℕ) (sender : ℕ) (left : List ℕ)
        → first_open is_closed slots ≡ some (sender, left)
        → length left ≤ length slots
    first_open-length slots sender left found =
        let (closed, parts, all_closed, live) =
          first_open_sound is_closed slots sender left found in
        rw (parts, length-append closed (sender ∷ left)) (omega arith)

    take_slot-WithinLimits :
        (tenant_id : String) (slots : List ℕ)
        → find tenant_id st.blind_slots ≡ some slots
        → WithinLimits (take_slot is_closed st tenant_id slots).0
    unfolding take_slot
    take_slot-WithinLimits tenant_id slots there =
        elim (Option-cases (first_open is_closed slots)) [
          | inl absent ↦ rw (absent, take_slot) (erase-slots-WithinLimits st within tenant_id)
          | inr ((sender, left), found) ↦ elim (Bool-cases (is_empty left)) [
            | inl last ↦ rw (found, last, take_slot) (erase-slots-WithinLimits st within tenant_id)
            | inr more ↦
                rw (found, more, take_slot)
                  (put-slots-WithinLimits st within tenant_id left (
                    omega (
                      arith,
                      first_open-length slots sender left found,
                      within.few_slots tenant_id slots there,
                    )))
          ]
        ]

    pub route_blind_connection-WithinLimits :
        (server_name : String) → WithinLimits (route_blind_connection is_closed st server_name).0
    unfolding route_blind_connection
    route_blind_connection-WithinLimits server_name =
        elim (Option-cases
          (do suffix ← st.blind_suffix; tenant_from_server_name server_name suffix)) [
            | inl unroutable ↦ rw (unroutable, route_blind_connection) within
            | inr (tenant_id, named) ↦ elim (Bool-cases (is_some (find tenant_id st.tenants))) [
              | inr unknown ↦ rw (named, unknown, route_blind_connection) within
              | inl known ↦ elim (Option-cases (find tenant_id st.blind_slots)) [
                | inl absent ↦ rw (named, known, absent, route_blind_connection) within
                | inr (slots, there) ↦
                    rw (named, known, there, route_blind_connection)
                      (take_slot-WithinLimits tenant_id slots there)
              ]
            ]
          ]
