-- ===== src/Relay/Identity/Registration.antt =====
-- The secrets, the tenant ids and the proofs of work of relay/src/lib.rs.
use context_guardian.Prelude.{
  ℕ, zero, suc, ◌+◌, ◌-◌, ◌^◌, ◌≤◌, ◌<◌, String, ◌≡◌, sym, ap, ◌∙◌, ◌↔◌, inl, inr, true, false,
  some, List, arith, Bool-cases, Bool-apart, length, take, length-take,
}
use context_guardian.Relay.Identity.{
  Crypto, CryptoLaws, valid_tenant_id, valid_secret, valid_registration_proof, solve_from,
  solve_registration_proof, tenant_id_for_secret, secret_hash, secret_hash_matches,
}

next_after : (first valid : ℕ) → first ≤ valid → (first ≡ valid → ⊥) → suc first ≤ valid
next_after first valid low apart = omega arith

module _ (c : Crypto) (tenant_id secret : String) where
  -- The nonce is valid, and no smaller one from `first` on is.
  abbrev pub Least : ℕ → ℕ → Type 0
  Least first nonce =
      (valid_registration_proof c tenant_id secret nonce ≡ true)
      × ((smaller : ℕ)
          → first ≤ smaller
          → smaller < nonce
          → valid_registration_proof c tenant_id secret smaller ≡ false)

  not_yet :
      (first valid : ℕ)
      → first ≤ valid
      → valid_registration_proof c tenant_id secret first ≡ false
      → valid_registration_proof c tenant_id secret valid ≡ true
      → suc first ≤ valid
  not_yet first valid low fails holds = next_after first valid low λ same.
      Bool-apart (sym holds ∙ ap (valid_registration_proof c tenant_id secret) (sym same) ∙ fails)

  passed :
      (first smaller : ℕ)
      → first ≤ smaller
      → valid_registration_proof c tenant_id secret first ≡ false
      → (suc first ≤ smaller → valid_registration_proof c tenant_id secret smaller ≡ false)
      → valid_registration_proof c tenant_id secret smaller ≡ false
  passed first smaller low fails later =
      elim (Bool-cases (valid_registration_proof c tenant_id secret smaller)) [
        | inl holds ↦ later (not_yet first smaller low fails holds)
        | inr refuted ↦ refuted
      ]

  solve_from_lem :
      (fuel first valid : ℕ)
      → first ≤ valid
      → valid < first + fuel
      → valid_registration_proof c tenant_id secret valid ≡ true
      → (nonce : ℕ) × (solve_from c fuel first tenant_id secret ≡ some nonce) × Least first nonce
  unfolding solve_from
  solve_from_lem zero first valid low high holds = absurd (omega (arith, low, high))
  solve_from_lem (suc fuel) first valid low high holds =
      elim (Bool-cases (valid_registration_proof c tenant_id secret first)) [
        | inl works ↦ (
          first,
          rw (works, solve_from),
          (works, λ smaller lower less. absurd (omega (arith, lower, less))),
        )
        | inr fails ↦
            let (nonce, found, (holding, least)) =
              solve_from_lem fuel (suc first) valid (not_yet first valid low fails holds)
                (omega (arith, high)) holds in
            (
              nonce,
              rw (fails, solve_from) found,
              (
                holding,
                λ smaller lower less.
                    passed first smaller lower fails λ next. least smaller next less,
              ),
            )
      ]

-- Where the search of a proof of work has a valid nonce in its range, it returns the least one.
pub solve_registration_proof-Least :
    (c : Crypto) (tenant_id secret : String) (valid : ℕ)
    → valid < 2 ^ 64 - 1
    → valid_registration_proof c tenant_id secret valid ≡ true
    → (nonce : ℕ) × (solve_registration_proof c tenant_id secret ≡ some nonce)
      × Least c tenant_id secret 0 nonce
unfolding solve_registration_proof
solve_registration_proof-Least c tenant_id secret valid high holds =
    solve_from_lem c tenant_id secret (2 ^ 64 - 1) 0 valid (omega arith) high holds

module _ (c : Crypto) (laws : CryptoLaws c) where
  secret_hash_matches-ct_eq :
      (secret other : String)
      → secret_hash_matches c (secret_hash c secret) other
        ≡ c.ct_eq (c.sha256 secret) (c.sha256 other)
  unfolding secret_hash_matches secret_hash
  secret_hash_matches-ct_eq secret other = rw (
    laws.decode-encode secret,
    laws.length-sha256 secret,
    laws.length-sha256 other,
    secret_hash_matches,
    secret_hash,
  )

  -- A stored hash matches exactly the secrets with its digest.
  pub secret_hash_matches-secret_hash :
      (secret other : String)
      → (secret_hash_matches c (secret_hash c secret) other ≡ true)
        ↔ (c.sha256 secret ≡ c.sha256 other)
  secret_hash_matches-secret_hash secret other =
      let same = secret_hash_matches-ct_eq secret other in
      let law = laws.ct_eq_lem (c.sha256 secret) (c.sha256 other) in
      (λ matched. law.0 (sym same ∙ matched), λ equal. same ∙ law.1 equal)

  pub valid_tenant_id-tenant_id_for_secret :
      (secret : String) → valid_tenant_id (tenant_id_for_secret c secret) ≡ true
  unfolding valid_tenant_id tenant_id_for_secret
  valid_tenant_id-tenant_id_for_secret secret = rw (
    laws.encode-digits (take 16 (c.sha256 secret)),
    laws.len-encode (take 16 (c.sha256 secret)),
    length-take 16 (c.sha256 secret),
    laws.length-sha256 secret,
  )

  pub valid_secret-hex_encode :
      (bytes : List ℕ) → length bytes ≡ 32 → valid_secret (c.hex_encode bytes) ≡ true
  unfolding valid_secret
  valid_secret-hex_encode bytes full = rw (laws.encode-digits bytes, laws.len-encode bytes, full)
