-- ===== src/Relay/Requests/Entries.antt =====
-- What the handlers of image requests in relay/src/bin/server.rs do to the requests in flight.
use context_guardian.Prelude.{
  ℕ, String, ◌≡◌, refl, ap, ◌⊎◌, inl, inr, true, not, ◌&&◌, ◌||◌, ◌*◌, Option, none, some, List, [],
  ◌∷◌, arith, leb, ltb, len, ◌==◌, eq_iff, Bool-cases, Option-cases, length, is_some, find, put,
  erase,
}
use context_guardian.Relay.Identity.{
  Crypto, RelayResult, max_image_bytes, valid_tenant_id, valid_image_path,
}
use context_guardian.Relay.State.{
  max_inflight, max_queued_per_tenant, Job, Tenant, Inflight, AppState, StatusCode, no_content,
  not_found, with_inflight,
}
use context_guardian.Relay.Tenants.{authenticate}
use context_guardian.Relay.Requests.{
  ImageQuery, Waiting, pop_job, complete, result, enqueue, image, clean_up, valid_query,
  path_and_query,
}

module _ (st : AppState) where
  pop-nothing :
      (tenant_id : String) (tenant : Tenant)
      → find tenant_id st.tenants ≡ some tenant
      → (queue : List Job) → tenant.queue ≡ queue
      → (pop_job st tenant_id).0.inflight ≡ st.inflight
  unfolding pop_job
  pop-nothing tenant_id tenant there [] same = rw (there, pop_job, same)
  pop-nothing tenant_id tenant there (job ∷ jobs) same = rw (there, pop_job, same)

  pub pop_job-inflight : (tenant_id : String) → (pop_job st tenant_id).0.inflight ≡ st.inflight
  unfolding pop_job
  pop_job-inflight tenant_id = elim (Option-cases (find tenant_id st.tenants)) [
    | inl absent ↦ rw (absent, pop_job)
    | inr (tenant, there) ↦ pop-nothing tenant_id tenant there tenant.queue refl
  ]

  pub clean_up-inflight :
      (waiting : Waiting) → (clean_up st waiting).inflight ≡ erase waiting.request_id st.inflight
  unfolding clean_up
  clean_up-inflight waiting = elim (Option-cases (find waiting.tenant_id st.tenants)) [
    | inl absent ↦ rw (absent, clean_up)
    | inr (tenant, there) ↦ rw (there, clean_up)
  ]

  -- A posted result is refused, and nothing changes.
  abbrev pub Unanswered : AppState × StatusCode × Option (ℕ × RelayResult) → Type 0
  Unanswered (st', status, message) = (st' ≡ st) × (status ≡ not_found) × (message ≡ none)

  -- A posted result completes a request of the tenant that posts it, and goes to its channel.
  abbrev pub Answered :
      String → String → RelayResult → AppState × StatusCode × Option (ℕ × RelayResult) → Type 0
  Answered tenant_id request_id reply (st', status, message) =
      (entry : Inflight) × (find request_id st.inflight ≡ some entry)
      × (entry.tenant_id ≡ tenant_id)
      × (st' ≡ with_inflight (erase request_id st.inflight) st)
      × (status ≡ no_content)
      × (message ≡ some (entry.sender, reply))

  completed :
      (tenant_id request_id : String) (reply : RelayResult) (entry : Inflight)
      → find request_id st.inflight ≡ some entry
      → (entry.tenant_id == tenant_id) ≡ true
      → complete st tenant_id request_id reply
        ≡ (with_inflight (erase request_id st.inflight) st, no_content, some (entry.sender, reply))
  unfolding complete
  completed tenant_id request_id reply entry there same = rw (there, same, complete)

  complete-outcome :
      (tenant_id request_id : String) (reply : RelayResult)
      → Unanswered (complete st tenant_id request_id reply)
        ⊎ Answered tenant_id request_id reply (complete st tenant_id request_id reply)
  unfolding complete
  complete-outcome tenant_id request_id reply = elim (Option-cases (find request_id st.inflight)) [
    | inl absent ↦ inl (rw (absent, complete) (refl, refl, refl))
    | inr (entry, there) ↦ elim (Bool-cases (entry.tenant_id == tenant_id)) [
      | inr other ↦ inl (rw (there, other, complete) (refl, refl, refl))
      | inl same ↦
          let done = completed tenant_id request_id reply entry there same in
          inr (
            entry,
            there,
            (eq_iff entry.tenant_id tenant_id).0 same,
            ap (λ r. r.0) done,
            ap (λ r. r.1) done,
            ap (λ r. r.2) done,
          )
    ]
  ]

  pub result-outcome :
      (c : Crypto) (tenant_id request_id : String) (authorization : Option String)
      (reply : RelayResult)
      → Unanswered (result c st tenant_id request_id authorization reply)
        ⊎ ((is_some (authenticate c st tenant_id authorization) ≡ true)
            × Answered tenant_id request_id reply
                (result c st tenant_id request_id authorization reply))
  unfolding result
  result-outcome c tenant_id request_id authorization reply =
      elim (Bool-cases (
        not (is_some (authenticate c st tenant_id authorization))
        || ltb (max_image_bytes * 2) (len reply.body_base64))) [
          | inl refused ↦ inl (rw (refused, result) (refl, refl, refl))
          | inr accepted ↦
              rw (accepted, result)
                (elim (complete-outcome tenant_id request_id reply) [
                  | inl refused ↦ inl refused
                  | inr answered ↦ inr (ground arith, answered)
                ])
        ]

  -- What an image request comes to: nothing, or an entry in flight and a handler that waits on its channel.
  abbrev pub Hidden : AppState × Option Waiting → Type 0
  Hidden (st', waiting) = (st' ≡ st) × (waiting ≡ none)

  abbrev pub Asked : String → ℕ → String → AppState × Option Waiting → Type 0
  Asked tenant_id channel request_id (st', waiting) =
      (st'.inflight
        ≡ put request_id (record { tenant_id = tenant_id; sender = channel }) st.inflight)
      × (waiting
          ≡ some record { tenant_id = tenant_id; request_id = request_id; receiver = channel })

  enqueue-outcome :
      (tenant_id : String) (tenant : Tenant) (path : String) (channel : ℕ) (request_id : String)
      → Hidden (enqueue st tenant_id tenant path channel request_id)
        ⊎ Asked tenant_id channel request_id (enqueue st tenant_id tenant path channel request_id)
  unfolding enqueue
  enqueue-outcome tenant_id tenant path channel request_id =
      elim (Bool-cases (leb max_inflight (length st.inflight))) [
        | inl full ↦ inl (rw (full, enqueue) (refl, refl))
        | inr room ↦ elim (Bool-cases (leb max_queued_per_tenant (length tenant.queue))) [
          | inl full ↦ inl (rw (room, full, enqueue) (refl, refl))
          | inr space ↦ inr (rw (room, space, enqueue) (refl, refl))
        ]
      ]

  pub image-outcome :
      (tenant_id filename : String) (query : ImageQuery) (channel : ℕ) (request_id : String)
      → Hidden (image st tenant_id filename query channel request_id)
        ⊎ Asked tenant_id channel request_id (image st tenant_id filename query channel request_id)
  unfolding image
  image-outcome tenant_id filename query channel request_id = elim (Option-cases query.expires) [
    | inl absent ↦ inl (rw (absent, image) (refl, refl))
    | inr (expires, dated) ↦ elim (Option-cases query.sig) [
      | inl absent ↦ inl (rw (dated, absent, image) (refl, refl))
      | inr (sig, signed) ↦
          elim (Bool-cases (
            not (valid_query expires sig)
            || not (
                valid_tenant_id tenant_id
                && valid_image_path (path_and_query filename expires sig)))) [
                  | inl refused ↦ inl (rw (dated, signed, refused, image) (refl, refl))
                  | inr accepted ↦ elim (Option-cases (find tenant_id st.tenants)) [
                    | inl unknown ↦ inl (rw (dated, signed, accepted, unknown, image) (refl, refl))
                    | inr (tenant, there) ↦
                        rw (dated, signed, accepted, there, image)
                          (enqueue-outcome tenant_id tenant (path_and_query filename expires sig)
                            channel request_id)
                  ]
                ]
    ]
  ]
