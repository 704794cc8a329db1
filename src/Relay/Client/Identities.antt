-- ===== src/Relay/Client/Identities.antt =====
-- The identities that relay/src/bin/client.rs makes of a secret pass its own check.
use context_guardian.Prelude.{ℕ, ◌-◌, ◌^◌, ◌<◌, ◌≡◌, String, true, some, eq_refl, refl}
use context_guardian.Relay.Identity.{
  ClientIdentity, Crypto, CryptoLaws, from_secret, tenant_id_for_secret, valid_registration_proof,
  valid_secret,
}
use context_guardian.Relay.Identity.Registration.{
  solve_registration_proof-Least, valid_tenant_id-tenant_id_for_secret,
}
use context_guardian.Relay.Client.{success, done, validate_identity}

-- The identity of a valid secret with a proof of work below 2^64 - 1 is found, and the check that is
-- made of an identity file when the client starts accepts it.
pub validate_identity-from_secret :
    (c : Crypto)
    → CryptoLaws c
    → (secret : String) (valid : ℕ) → valid < 2 ^ 64 - 1
    → valid_registration_proof c (tenant_id_for_secret c secret) secret valid ≡ true
    → valid_secret secret ≡ true
    → (identity : ClientIdentity) × (from_secret c secret ≡ some identity)
      × (validate_identity c identity ≡ success done)
unfolding from_secret validate_identity
validate_identity-from_secret c laws secret valid high holds shaped =
    let (nonce, found, (proves, least)) =
      solve_registration_proof-Least c (tenant_id_for_secret c secret) secret valid high holds in
    (
      record {
        tenant_id = tenant_id_for_secret c secret;
        tenant_secret = secret;
        registration_nonce = nonce;
      },
      rw (found) refl,
      rw (
        valid_tenant_id-tenant_id_for_secret c laws secret,
        shaped,
        eq_refl (tenant_id_for_secret c secret),
        proves,
      ),
    )
