-- ===== src/Relay/Limits/Registering.antt =====
-- `register` of relay/src/bin/server.rs: its outcomes, and the limits of the state.
use context_guardian.Prelude.{
  ◌≤◌, ◌≡◌, refl, ap, ◌⊎◌, inl, inr, Bool, true, false, none, arith, leb, if◌then◌else◌, Bool-cases,
  Option-cases, length, is_some, find, put, length-put, erase-put,
}
use context_guardian.Relay.Identity.{Crypto, RegisterRequest, secret_hash, secret_hash_matches}
use context_guardian.Relay.State.{
  max_tenants, max_queued_per_tenant, AppState, StatusCode, created, no_content, conflict,
  with_tenants, WithinLimits,
}
use context_guardian.Relay.Tenants.{
  StoreCodec, Disk, Outcomes, persist_tenants, fresh_tenant, acceptable, settle, admit, register,
}
use context_guardian.Relay.Limits.{OfAll-put}

module _ (codec : StoreCodec) (c : Crypto) (outcomes : Outcomes) (input : RegisterRequest)
    (st : AppState) (disk : Disk) where
  -- The state with the tenant of the request.
  abbrev pub with_registered : AppState
  with_registered =
      with_tenants
        (put input.tenant_id (fresh_tenant (secret_hash c input.tenant_secret)) st.tenants) st

  -- What a registration comes to: a new tenant and the status for it, or the old state and another status.
  abbrev pub Registered : AppState × Disk × StatusCode → Type 0
  Registered (st', disk', status) = (st' ≡ with_registered) × (status ≡ created)

  abbrev pub Refused : AppState × Disk × StatusCode → Type 0
  Refused (st', disk', status) = (st' ≡ st) × (status ≡ created → ⊥)

  settle-outcome :
      find input.tenant_id st.tenants ≡ none
      → (written : Disk × Bool)
      → Registered (settle codec c input with_registered.tenants st written)
        ⊎ Refused (settle codec c input with_registered.tenants st written)
  unfolding settle
  settle-outcome absent (disk', true) = inl (refl, refl)
  settle-outcome absent (disk', false) = inr (
    ap (λ tenants. with_tenants tenants st)
        (erase-put input.tenant_id (fresh_tenant (secret_hash c input.tenant_secret)) st.tenants
          absent),
    λ same. cc,
  )

  admit-outcome :
      find input.tenant_id st.tenants ≡ none
      → Registered (admit codec c outcomes input st disk)
        ⊎ Refused (admit codec c outcomes input st disk)
  unfolding admit
  admit-outcome absent =
      settle-outcome absent
        (persist_tenants codec st.tenant_store outcomes with_registered.tenants disk)

  known_status : (matches : Bool) → (if matches then no_content else conflict) ≡ created → ⊥
  known_status true same = cc
  known_status false same = cc

  beside : {A B C : Type 0} → A → B ⊎ C → (A × B) ⊎ C
  beside a (inl b) = inl (a, b)
  beside a (inr c) = inr c

  -- A registration adds the tenant where there was none and there was room, and answers that it was
  -- created; or it changes nothing and answers otherwise.
  pub register-outcome :
      (((is_some (find input.tenant_id st.tenants) ≡ false) × (length st.tenants ≤ 9999))
        × Registered (register codec c outcomes input st disk))
      ⊎ Refused (register codec c outcomes input st disk)
  unfolding register
  register-outcome = elim (Bool-cases (acceptable codec c input)) [
    | inr refused ↦ rw (refused, register) (inr (refl, λ same. cc))
    | inl accepted ↦ elim (Option-cases (find input.tenant_id st.tenants)) [
      | inr (existing, there) ↦
          rw (accepted, there, register)
            (inr
              (refl, known_status (secret_hash_matches c existing.secret_hash input.tenant_secret)))
      | inl absent ↦ elim (Bool-cases (leb max_tenants (length st.tenants))) [
        | inl full ↦ rw (accepted, absent, full, register) (inr (refl, λ same. cc))
        | inr room ↦
            rw (accepted, absent, room, register)
              (beside (refl, ground arith) (admit-outcome absent))
      ]
    ]
  ]

  -- `register` keeps the state within its limits.
  pub register-WithinLimits :
      WithinLimits st → WithinLimits (register codec c outcomes input st disk).0
  register-WithinLimits within = elim register-outcome [
    | inr (same, other) ↦ rw (same) within
    | inl ((absent, room), (added, status)) ↦ rw (added) (record {
      few_tenants =
          rw
            (
              length-put input.tenant_id (fresh_tenant (secret_hash c input.tenant_secret))
                  st.tenants,
              absent,
            )
            (omega (arith, room));
      few_inflight = within.few_inflight;
      short_queues =
          OfAll-put (λ t. length t.queue ≤ max_queued_per_tenant) input.tenant_id
            (fresh_tenant (secret_hash c input.tenant_secret)) st.tenants (omega arith)
            within.short_queues;
      few_slots = within.few_slots;
    })
  ]
