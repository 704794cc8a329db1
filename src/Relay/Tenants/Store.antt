-- ===== src/Relay/Tenants/Store.antt =====
-- The tenant store of relay/src/bin/server.rs: its writing and its reading.
use context_guardian.Prelude.{
  String, ◌≡◌, refl, sym, ap, ◌∙◌, ◌⊎◌, inl, inr, Bool, true, false, ◌&&◌, Option, none, some,
  Bool-cases, Option-cases, Bool-apart, Assoc, find, map_values, map_option, find-map_values,
}
use context_guardian.Relay.State.{Tenant}
use context_guardian.Relay.Tenants.{
  StoreCodec, Disk, Outcomes, stored_tenants, fresh_tenant, persist_bytes, persist_tenants,
  load_tenants,
}

-- What `serde_json` documents of a map of texts: what was written reads back as a map with the same
-- entries, in some order.
pub record StoreLaws (codec : StoreCodec) : Type 0 where
  pub reads_back :
      (m : Assoc String) (bytes : String)
      → codec.to_vec m ≡ some bytes
      → (n : Assoc String) × (codec.from_slice bytes ≡ some n)
        × ((k : String) → find k n ≡ find k m)

module _ (codec : StoreCodec) (outcomes : Outcomes) (tenants : Assoc Tenant) (disk : Disk) where
  -- The store's file is the old one, and the caller is told so; or all of the new one.
  abbrev pub Kept : Disk × Bool → Type 0
  Kept (disk', persisted) = (disk'.stored ≡ disk.stored) × (persisted ≡ false)

  abbrev pub Replaced : Disk × Bool → Type 0
  Replaced (disk', persisted) =
      (bytes : String) × (codec.to_vec (stored_tenants tenants) ≡ some bytes)
      × (disk'.stored ≡ some bytes)
      × (persisted ≡ true)

  bytes-outcome :
      (bytes : String)
      → codec.to_vec (stored_tenants tenants) ≡ some bytes
      → Kept (persist_bytes codec outcomes disk bytes)
        ⊎ Replaced (persist_bytes codec outcomes disk bytes)
  unfolding persist_bytes
  bytes-outcome bytes encoded = elim (Bool-cases outcomes.written) [
    | inr failed ↦ inl (rw (failed, persist_bytes) (refl, refl))
    | inl written ↦ elim (Bool-cases (outcomes.restricted && outcomes.renamed)) [
      | inr failed ↦ inl (rw (written, failed, persist_bytes) (refl, refl))
      | inl moved ↦
          inr
            (bytes, encoded, rw (written, moved, persist_bytes), rw (written, moved, persist_bytes))
    ]
  ]

  -- A store at a path is replaced as a whole or kept.
  pub persist_tenants-outcome :
      (path : String)
      → Kept (persist_tenants codec (some path) outcomes tenants disk)
        ⊎ Replaced (persist_tenants codec (some path) outcomes tenants disk)
  unfolding persist_tenants
  persist_tenants-outcome path = elim (Bool-cases outcomes.directory_created) [
    | inr failed ↦ inl (rw (failed, persist_tenants) (refl, refl))
    | inl made ↦ elim (Option-cases (codec.to_vec (stored_tenants tenants))) [
      | inl unencoded ↦ inl (rw (made, unencoded, persist_tenants) (refl, refl))
      | inr (bytes, encoded) ↦ elim (bytes-outcome bytes encoded) [
        | inl kept ↦ inl (rw (made, encoded, persist_tenants) kept)
        | inr (bytes', encoded', stored, told) ↦ inr (
          bytes',
          encoded',
          rw (made, encoded, persist_tenants) stored,
          rw (made, encoded, persist_tenants) told,
        )
      ]
    ]
  ]

module _ (codec : StoreCodec) (laws : StoreLaws codec) (outcomes : Outcomes)
    (tenants : Assoc Tenant) (disk : Disk) where
  load-stored :
      (path bytes : String) (d : Disk)
      → codec.to_vec (stored_tenants tenants) ≡ some bytes
      → d.stored ≡ some bytes
      → (loaded : Assoc Tenant) × (load_tenants codec (some path) d ≡ some loaded)
        × ((k : String)
            → find k loaded ≡ map_option (λ t. fresh_tenant t.secret_hash) (find k tenants))
  unfolding load_tenants
  load-stored path bytes d encoded stored =
      let (n, parsed, same) = laws.reads_back (stored_tenants tenants) bytes encoded in
      (
        map_values fresh_tenant n,
        rw (stored, load_tenants, parsed),
        λ k.
            find-map_values fresh_tenant k n
            ∙ ap (map_option fresh_tenant) (same k ∙ find-map_values (λ t. t.secret_hash) k tenants)
            ∙ twice (find k tenants),
      )
    where
      twice :
          (o : Option Tenant)
          → map_option fresh_tenant (map_option (λ t. t.secret_hash) o)
            ≡ map_option (λ t. fresh_tenant t.secret_hash) o
      twice none = refl
      twice (some t) = refl

  -- Where a store at a path was written, a restart loads every tenant with the hash of its secret and
  -- an empty queue, and no other tenant.
  pub load-persist_tenants :
      (path : String)
      → (persist_tenants codec (some path) outcomes tenants disk).1 ≡ true
      → (loaded : Assoc Tenant) × (load_tenants codec
            (some path)
            (persist_tenants codec (some path) outcomes tenants disk).0
          ≡ some loaded)
        × ((k : String)
            → find k loaded ≡ map_option (λ t. fresh_tenant t.secret_hash) (find k tenants))
  load-persist_tenants path persisted =
      elim (persist_tenants-outcome codec outcomes tenants disk path) [
        | inl (kept, told) ↦ absurd (Bool-apart (sym persisted ∙ told))
        | inr (bytes, encoded, stored, told) ↦
            load-stored path bytes (persist_tenants codec (some path) outcomes tenants disk).0
              encoded stored
      ]
