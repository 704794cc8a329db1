-- ===== src/Relay/Limits.antt =====
-- The writes to the state of relay/src/bin/server.rs, seen against the limits of its constants.
pub mod Registering
pub mod Requesting
pub mod Tunnelling
use context_guardian.Prelude.{
  ℕ, suc, ◌≤◌, ◌<◌, String, ◌≡◌, refl, sym, ap, ◌∙◌, Bool, true, false, Option, none, some, List,
  [], ◌∷◌, arith, ◌==◌, eq_iff, if◌then◌else◌, Bool-cases, Option-cases, inl, inr, length, is_some,
  Assoc, find, put, erase, find-put, find-erase, length-put, length-erase,
}
use context_guardian.Relay.State.{
  max_tenants, max_queued_per_tenant, max_inflight, max_blind_slots_per_tenant, Tenant, Inflight,
  Job, AppState, with_tenants, with_inflight, with_blind_slots, with_queue, WithinLimits,
}

-- A property of all values that a map has: it holds of the values of a map with one more, or one less.
module _ {ℓ} {A : Type ℓ} (P : A → Type 0) where
  abbrev pub OfAll : Assoc A → Type ℓ
  OfAll m = (k : String) (a : A) → find k m ≡ some a → P a

  the_value : (a b : A) → some a ≡ some b → a ≡ b
  the_value a b h = cc

  pub OfAll-put : (k : String) (a : A) (m : Assoc A) → P a → OfAll m → OfAll (put k a m)
  OfAll-put k a m held rest j b found = elim (Bool-cases (k == j)) [
    | inl same ↦ rw (sym (the_value a b (ground (arith, find-put k j a m)))) held
    | inr other ↦ rest j b (ground (arith, find-put k j a m))
  ]

  pub OfAll-erase : (k : String) (m : Assoc A) → OfAll m → OfAll (erase k m)
  OfAll-erase k m rest j b found = rest j b (ground (arith, find-erase k j m))

module _ (st : AppState) (within : WithinLimits st) where
  -- A queue that is short enough takes the place of a tenant's.
  pub with_queue-WithinLimits :
      (tenant_id : String) (tenant : Tenant) (queue : List Job)
      → find tenant_id st.tenants ≡ some tenant
      → length queue ≤ max_queued_per_tenant
      → WithinLimits (with_queue tenant_id tenant queue st)
  with_queue-WithinLimits tenant_id tenant queue there short = record {
    few_tenants =
        rw
          (
            length-put tenant_id (record { secret_hash = tenant.secret_hash; queue = queue })
                st.tenants,
            there,
          )
          within.few_tenants;
    few_inflight = within.few_inflight;
    short_queues =
        OfAll-put (λ t. length t.queue ≤ max_queued_per_tenant) tenant_id
          (record { secret_hash = tenant.secret_hash; queue = queue }) st.tenants short
          within.short_queues;
    few_slots = within.few_slots;
  }

  pub with_inflight-WithinLimits :
      (inflight : Assoc Inflight)
      → length inflight ≤ max_inflight
      → WithinLimits (with_inflight inflight st)
  with_inflight-WithinLimits inflight few = record {
    few_tenants = within.few_tenants;
    few_inflight = few;
    short_queues = within.short_queues;
    few_slots = within.few_slots;
  }

  pub put-slots-WithinLimits :
      (tenant_id : String) (slots : List ℕ)
      → length slots ≤ max_blind_slots_per_tenant
      → WithinLimits (with_blind_slots (put tenant_id slots st.blind_slots) st)
  put-slots-WithinLimits tenant_id slots few = record {
    few_tenants = within.few_tenants;
    few_inflight = within.few_inflight;
    short_queues = within.short_queues;
    few_slots =
        OfAll-put (λ s. length s ≤ max_blind_slots_per_tenant) tenant_id slots st.blind_slots few
          within.few_slots;
  }

  pub erase-slots-WithinLimits :
      (tenant_id : String) → WithinLimits (with_blind_slots (erase tenant_id st.blind_slots) st)
  erase-slots-WithinLimits tenant_id = record {
    few_tenants = within.few_tenants;
    few_inflight = within.few_inflight;
    short_queues = within.short_queues;
    few_slots =
        OfAll-erase (λ s. length s ≤ max_blind_slots_per_tenant) tenant_id st.blind_slots
          within.few_slots;
  }
