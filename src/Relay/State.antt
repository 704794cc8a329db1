-- ===== src/Relay/State.antt =====
-- The state of relay/src/bin/server.rs. The channels of a `oneshot` are numbers: an entry holds the
-- number of its channel, and an operation that sends returns the number it sends on. `Arc` shares
-- the tenants: only `register` takes a tenant out again, under the lock under which it put it
-- in, so the tenant that a handler holds is the one that the map has under its id.
use context_guardian.Prelude.{ℕ, String, Option, some, List, Assoc, find, put, length, ◌≤◌, ◌≡◌}

abbrev pub max_tenants : ℕ
max_tenants = 10000

abbrev pub max_queued_per_tenant : ℕ
max_queued_per_tenant = 16

abbrev pub max_inflight : ℕ
max_inflight = 1024

abbrev pub max_blind_slots_per_tenant : ℕ
max_blind_slots_per_tenant = 8

abbrev pub max_blind_connections : ℕ
max_blind_connections = 1024

pub record Job : Type 0 where
  pub request_id : String
  pub path_and_query : String

pub record Tenant : Type 0 where
  pub secret_hash : String
  pub queue : List Job

pub record Inflight : Type 0 where
  pub tenant_id : String
  pub sender : ℕ

pub record AppState : Type 0 where
  pub tenants : Assoc Tenant
  pub inflight : Assoc Inflight
  pub blind_slots : Assoc (List ℕ)
  pub blind_connections : ℕ
  pub blind_suffix : Option String
  pub tenant_store : Option String

pub data StatusCode : Type 0 where
  ok : StatusCode
  created : StatusCode
  no_content : StatusCode
  bad_request : StatusCode
  not_found : StatusCode
  conflict : StatusCode
  internal_server_error : StatusCode
  service_unavailable : StatusCode

-- `state.tenants`, `state.inflight` and `state.blind_slots` with a new value.
abbrev pub with_tenants : Assoc Tenant → AppState → AppState
with_tenants tenants st = record st { tenants = tenants }

abbrev pub with_inflight : Assoc Inflight → AppState → AppState
with_inflight inflight st = record st { inflight = inflight }

abbrev pub with_blind_slots : Assoc (List ℕ) → AppState → AppState
with_blind_slots blind_slots st = record st { blind_slots = blind_slots }

-- A write to the queue of the tenant with this id.
abbrev pub with_queue : String → Tenant → List Job → AppState → AppState
with_queue tenant_id tenant queue st =
    with_tenants (put tenant_id (record tenant { queue = queue }) st.tenants) st

-- The limits of the constants above.
pub record WithinLimits (st : AppState) : Type 0 where
  pub few_tenants : length st.tenants ≤ max_tenants
  pub few_inflight : length st.inflight ≤ max_inflight
  pub short_queues :
      (tenant_id : String) (tenant : Tenant)
      → find tenant_id st.tenants ≡ some tenant
      → length tenant.queue ≤ max_queued_per_tenant
  pub few_slots :
      (tenant_id : String) (slots : List ℕ)
      → find tenant_id st.blind_slots ≡ some slots
      → length slots ≤ max_blind_slots_per_tenant
