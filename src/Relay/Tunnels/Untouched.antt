-- ===== src/Relay/Tunnels/Untouched.antt =====
-- The blind tunnels of relay/src/bin/server.rs and the requests in flight.
use context_guardian.Prelude.{
  ℕ, String, ◌≡◌, inl, inr, Bool, List, [], ◌>>=◌, leb, unwrap_or, length, Bool-cases, Option-cases,
  is_some, is_empty, find,
}
use context_guardian.Relay.State.{AppState, max_blind_slots_per_tenant}
use context_guardian.Relay.Tunnels.{
  add_blind_slot, open_slots, remove_closed_blind_slots, first_open, take_slot,
  route_blind_connection, tenant_from_server_name,
}

module _ (st : AppState) where
  pub add_blind_slot-inflight :
      (tenant_id : String) (sender : ℕ)
      → (add_blind_slot st tenant_id sender).0.inflight ≡ st.inflight
  unfolding add_blind_slot
  add_blind_slot-inflight tenant_id sender =
      elim (Bool-cases
        (leb max_blind_slots_per_tenant (length (unwrap_or (find tenant_id st.blind_slots) [])))) [
          | inl full ↦ rw (full, add_blind_slot)
          | inr room ↦ rw (room, add_blind_slot)
        ]

  module _ (is_closed : ℕ → Bool) where
    pub remove_closed_blind_slots-inflight :
        (tenant_id : String)
        → (remove_closed_blind_slots is_closed st tenant_id).inflight ≡ st.inflight
    unfolding remove_closed_blind_slots
    remove_closed_blind_slots-inflight tenant_id =
        elim (Option-cases (find tenant_id st.blind_slots)) [
          | inl absent ↦ rw (absent, remove_closed_blind_slots)
          | inr (slots, there) ↦ elim (Bool-cases (is_empty (open_slots is_closed slots))) [
            | inl closed ↦ rw (there, closed, remove_closed_blind_slots)
            | inr left ↦ rw (there, left, remove_closed_blind_slots)
          ]
        ]

    take_slot-inflight :
        (tenant_id : String) (slots : List ℕ)
        → (take_slot is_closed st tenant_id slots).0.inflight ≡ st.inflight
    unfolding take_slot
    take_slot-inflight tenant_id slots = elim (Option-cases (first_open is_closed slots)) [
      | inl absent ↦ rw (absent, take_slot)
      | inr ((sender, left), found) ↦ elim (Bool-cases (is_empty left)) [
        | inl last ↦ rw (found, last, take_slot)
        | inr more ↦ rw (found, more, take_slot)
      ]
    ]

    pub route_blind_connection-inflight :
        (server_name : String)
        → (route_blind_connection is_closed st server_name).0.inflight ≡ st.inflight
    unfolding route_blind_connection
    route_blind_connection-inflight server_name =
        elim (Option-cases
          (do suffix ← st.blind_suffix; tenant_from_server_name server_name suffix)) [
            | inl unroutable ↦ rw (unroutable, route_blind_connection)
            | inr (tenant_id, named) ↦ elim (Bool-cases (is_some (find tenant_id st.tenants))) [
              | inr unknown ↦ rw (named, unknown, route_blind_connection)
              | inl known ↦ elim (Option-cases (find tenant_id st.blind_slots)) [
                | inl absent ↦ rw (named, known, absent, route_blind_connection)
                | inr (slots, there) ↦
                    rw (named, known, there, route_blind_connection)
                      (take_slot-inflight tenant_id slots)
              ]
            ]
          ]
