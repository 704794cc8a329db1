-- ===== src/Relay/Tenants.antt =====
-- Registration, authentication and the tenant store of relay/src/bin/server.rs.
pub mod Store
pub mod Access
use context_guardian.Prelude.{
  ℕ, String, ◌≡◌, Bool, true, false, not, ◌&&◌, ◌||◌, Option, none, some, List, [], ◌∷◌, ◌==◌, leb,
  if◌then◌else◌, ◌>>=◌, length, map, is_some, Assoc, map_values, find, put, erase, strip_prefix,
}
use context_guardian.Relay.Identity.{
  Crypto, RegisterRequest, valid_tenant_id, valid_secret, valid_registration_proof,
  tenant_id_for_secret, secret_hash, secret_hash_matches,
}
use context_guardian.Relay.State.{
  max_tenants, Tenant, AppState, StatusCode, created, no_content, bad_request, not_found, conflict,
  internal_server_error, service_unavailable, with_tenants,
}

-- The coding of a map of texts by `serde_json`.
pub record StoreCodec : Type 0 where
  pub to_vec : Assoc String → Option String
  pub from_slice : String → Option (Assoc String)

-- The tenant store's file and the temporary file beside it.
pub record Disk : Type 0 where
  pub temporary : Option String
  pub stored : Option String

-- What the calls of the file system come to: whether each succeeds, and what a failed write leaves.
pub record Outcomes : Type 0 where
  pub directory_created : Bool
  pub written : Bool
  pub left_by_failed_write : Option String
  pub restricted : Bool
  pub renamed : Bool

-- The stored form of the tenants: their ids and the hashes of their secrets.
abbrev pub stored_tenants : Assoc Tenant → Assoc String
stored_tenants tenants = map_values (λ tenant. tenant.secret_hash) tenants

-- A tenant as `register` and `load_tenants` make it, with an empty queue.
abbrev pub fresh_tenant : String → Tenant
fresh_tenant hash = record { secret_hash = hash; queue = [] }

module _ (codec : StoreCodec) where
  -- The calls after `to_vec`, in their order; `false` is `Err`.
  unfoldable pub persist_bytes : Outcomes → Disk → String → Disk × Bool
  persist_bytes outcomes disk bytes =
      if not outcomes.written
      then (record { temporary = outcomes.left_by_failed_write; stored = disk.stored }, false)
      else if not (outcomes.restricted && outcomes.renamed)
      then (record { temporary = some bytes; stored = disk.stored }, false)
      else (record { temporary = none; stored = some bytes }, true)

  unfoldable pub persist_tenants : Option String → Outcomes → Assoc Tenant → Disk → Disk × Bool
  persist_tenants none outcomes tenants disk = (disk, true)
  persist_tenants (some path) outcomes tenants disk =
      if not outcomes.directory_created
      then (disk, false)
      else elim (codec.to_vec (stored_tenants tenants)) [
        | none ↦ (disk, false)
        | some bytes ↦ persist_bytes outcomes disk bytes
      ]

  -- `None` is the error of a file that does not parse; a file that cannot be read is no tenants.
  unfoldable pub load_tenants : Option String → Disk → Option (Assoc Tenant)
  load_tenants none disk = some []
  load_tenants (some path) disk = elim disk.stored [
    | none ↦ some []
    | some bytes ↦ do stored ← codec.from_slice bytes; some (map_values fresh_tenant stored)
  ]

  module _ (c : Crypto) where
    -- The three tests in front of the lock.
    unfoldable pub acceptable : RegisterRequest → Bool
    acceptable input =
        valid_tenant_id input.tenant_id
        && (valid_secret input.tenant_secret
            && ((tenant_id_for_secret c input.tenant_secret == input.tenant_id)
                && valid_registration_proof c input.tenant_id input.tenant_secret
                    input.registration_nonce))

    -- The end of `register`: the tenant stays in the map, or is taken out again where the store
    -- could not be written.
    unfoldable pub settle :
        RegisterRequest → Assoc Tenant → AppState → Disk × Bool → AppState × Disk × StatusCode
    settle input tenants st (disk, true) = (with_tenants tenants st, disk, created)
    settle input tenants st (disk, false) =
        (with_tenants (erase input.tenant_id tenants) st, disk, internal_server_error)

    unfoldable pub admit :
        Outcomes → RegisterRequest → AppState → Disk → AppState × Disk × StatusCode
    admit outcomes input st disk =
        let tenants =
          put input.tenant_id (fresh_tenant (secret_hash c input.tenant_secret)) st.tenants in
        settle input tenants st (persist_tenants st.tenant_store outcomes tenants disk)

    unfoldable pub register :
        Outcomes → RegisterRequest → AppState → Disk → AppState × Disk × StatusCode
    register outcomes input st disk =
        if not (acceptable input)
        then (st, disk, bad_request)
        else elim (find input.tenant_id st.tenants) [
          | some existing ↦ (
            st,
            disk,
            if secret_hash_matches c existing.secret_hash input.tenant_secret
                then no_content
                else conflict,
          )
          | none ↦
              if leb max_tenants (length st.tenants)
              then (st, disk, service_unavailable)
              else admit outcomes input st disk
        ]

module _ (c : Crypto) where
  -- The argument is the value of the header `Authorization`, where it is there and is text;
  -- `None` is `Err(NOT_FOUND)`.
  unfoldable pub authenticate : AppState → String → Option String → Option Tenant
  authenticate st tenant_id authorization = do
    value ← authorization
    secret ← strip_prefix "Bearer " value
    tenant ← find tenant_id st.tenants
    if secret_hash_matches c tenant.secret_hash secret then some tenant else none
