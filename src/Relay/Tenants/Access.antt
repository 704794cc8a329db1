-- ===== src/Relay/Tenants/Access.antt =====
-- Who may act for a tenant, by `register` and `authenticate` of relay/src/bin/server.rs.
use context_guardian.Prelude.{
  String, ◌≡◌, refl, inl, inr, some, ◌+s◌, find, find-put, eq_refl, strip_prefix-append,
}
use context_guardian.Relay.Identity.{Crypto, CryptoLaws, RegisterRequest, secret_hash}
use context_guardian.Relay.Identity.Registration.{secret_hash_matches-secret_hash}
use context_guardian.Relay.State.{Tenant, AppState, created}
use context_guardian.Relay.Tenants.{
  StoreCodec, Disk, Outcomes, fresh_tenant, register, authenticate,
}
use context_guardian.Relay.Limits.Registering.{with_registered, register-outcome}

module _ (c : Crypto) (laws : CryptoLaws c) where
  -- A secret with the digest of a tenant's secret authenticates as the tenant.
  authenticate-bearer :
      (st : AppState) (tenant_id secret other : String) (tenant : Tenant)
      → find tenant_id st.tenants ≡ some tenant
      → tenant.secret_hash ≡ secret_hash c secret
      → c.sha256 secret ≡ c.sha256 other
      → authenticate c st tenant_id (some ("Bearer " +s other)) ≡ some tenant
  unfolding authenticate
  authenticate-bearer st tenant_id secret other tenant there hash same = rw (
    strip_prefix-append "Bearer " other,
    there,
    hash,
    (secret_hash_matches-secret_hash c laws secret other).1 same,
    authenticate,
  )

  -- After a registration that was answered as created, its secret authenticates as its tenant.
  pub authenticate-register :
      (codec : StoreCodec) (outcomes : Outcomes) (input : RegisterRequest) (st : AppState)
      (disk : Disk)
      → (register codec c outcomes input st disk).2 ≡ created
      → authenticate c
          (register codec c outcomes input st disk).0
          input.tenant_id
          (some ("Bearer " +s input.tenant_secret))
        ≡ some (fresh_tenant (secret_hash c input.tenant_secret))
  authenticate-register codec outcomes input st disk answered =
      elim (register-outcome codec c outcomes input st disk) [
        | inr (same, other) ↦ absurd (other answered)
        | inl (new, (added, status)) ↦ rw (added) (
            authenticate-bearer (with_registered codec c outcomes input st disk) input.tenant_id
              input.tenant_secret input.tenant_secret
              (fresh_tenant (secret_hash c input.tenant_secret))
              (rw (
                find-put input.tenant_id input.tenant_id
                    (fresh_tenant (secret_hash c input.tenant_secret)) st.tenants,
                eq_refl input.tenant_id,
              ))
              refl refl)
      ]
