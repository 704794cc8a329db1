-- ===== src/Relay/Limits/Requesting.antt =====
-- The handlers of image requests in relay/src/bin/server.rs and the limits of the state.
use context_guardian.Prelude.{
  ℕ, ◌≤◌, String, ◌≡◌, refl, ap, inl, inr, false, not, ◌&&◌, ◌||◌, Option, some, List, [], ◌∷◌,
  ◌++◌, arith, leb, ltb, len, ◌*◌, ◌==◌, Bool-cases, Option-cases, length, length-append, is_some,
  find, put, erase, length-put, length-erase,
}
use context_guardian.Relay.Identity.{
  Crypto, RelayResult, max_image_bytes, valid_tenant_id, valid_image_path,
}
use context_guardian.Relay.State.{
  max_inflight, max_queued_per_tenant, Job, Tenant, Inflight, AppState, with_inflight, WithinLimits,
}
use context_guardian.Relay.Tenants.{authenticate}
use context_guardian.Relay.Requests.{
  ImageQuery, Waiting, pop_job, complete, result, enqueue, image, without_request, clean_up,
  valid_query, path_and_query,
}
use context_guardian.Relay.Limits.{with_queue-WithinLimits, with_inflight-WithinLimits}

pub length-without_request :
    (request_id : String) (jobs : List Job) → length (without_request request_id jobs) ≤ length jobs
unfolding without_request
length-without_request request_id [] = omega arith
length-without_request request_id (job ∷ jobs) =
    ground (arith, length-without_request request_id jobs)

module _ (st : AppState) (within : WithinLimits st) where
  pop-queue :
      (tenant_id : String) (tenant : Tenant)
      → find tenant_id st.tenants ≡ some tenant
      → (queue : List Job) → tenant.queue ≡ queue
      → WithinLimits (pop_job st tenant_id).0
  unfolding pop_job
  pop-queue tenant_id tenant there [] same = rw (there, pop_job, same) within
  pop-queue tenant_id tenant there (job ∷ jobs) same =
      rw (there, pop_job, same)
        (with_queue-WithinLimits st within tenant_id tenant jobs there
          (omega (arith, within.short_queues tenant_id tenant there, ap length same)))

  pub pop_job-WithinLimits : (tenant_id : String) → WithinLimits (pop_job st tenant_id).0
  unfolding pop_job
  pop_job-WithinLimits tenant_id = elim (Option-cases (find tenant_id st.tenants)) [
    | inl absent ↦ rw (absent, pop_job) within
    | inr (tenant, there) ↦ pop-queue tenant_id tenant there tenant.queue refl
  ]

  pub complete-WithinLimits :
      (tenant_id request_id : String) (reply : RelayResult)
      → WithinLimits (complete st tenant_id request_id reply).0
  unfolding complete
  complete-WithinLimits tenant_id request_id reply =
      elim (Option-cases (find request_id st.inflight)) [
        | inl absent ↦ rw (absent, complete) within
        | inr (inflight, there) ↦ elim (Bool-cases (inflight.tenant_id == tenant_id)) [
          | inr other ↦ rw (there, other, complete) within
          | inl same ↦
              rw (there, same, complete)
                (with_inflight-WithinLimits st within (erase request_id st.inflight)
                  (omega (arith, length-erase request_id st.inflight, within.few_inflight)))
        ]
      ]

  pub result-WithinLimits :
      (c : Crypto) (tenant_id request_id : String) (authorization : Option String)
      (reply : RelayResult)
      → WithinLimits (result c st tenant_id request_id authorization reply).0
  unfolding result
  result-WithinLimits c tenant_id request_id authorization reply =
      elim (Bool-cases (
        not (is_some (authenticate c st tenant_id authorization))
        || ltb (max_image_bytes * 2) (len reply.body_base64))) [
          | inl refused ↦ rw (refused, result) within
          | inr accepted ↦ rw (accepted, result) (complete-WithinLimits tenant_id request_id reply)
        ]

  one_more :
      (request_id : String) (entry : Inflight)
      → leb max_inflight (length st.inflight) ≡ false
      → length (put request_id entry st.inflight) ≤ max_inflight
  one_more request_id entry room = rw (length-put request_id entry st.inflight) (ground arith)

  pub enqueue-WithinLimits :
      (tenant_id : String) (tenant : Tenant) (path : String) (channel : ℕ) (request_id : String)
      → find tenant_id st.tenants ≡ some tenant
      → WithinLimits (enqueue st tenant_id tenant path channel request_id).0
  unfolding enqueue
  enqueue-WithinLimits tenant_id tenant path channel request_id there =
      elim (Bool-cases (leb max_inflight (length st.inflight))) [
        | inl full ↦ rw (full, enqueue) within
        | inr room ↦ elim (Bool-cases (leb max_queued_per_tenant (length tenant.queue))) [
          | inl full ↦ rw (room, full, enqueue) within
          | inr space ↦
              rw (room, space, enqueue)
                (with_queue-WithinLimits
                  (with_inflight
                    (put request_id (record { tenant_id = tenant_id; sender = channel })
                      st.inflight)
                    st)
                  (with_inflight-WithinLimits st within
                    (put request_id (record { tenant_id = tenant_id; sender = channel })
                      st.inflight)
                    (one_more request_id (record { tenant_id = tenant_id; sender = channel }) room))
                  tenant_id tenant
                  (tenant.queue ++ record { request_id = request_id; path_and_query = path } ∷ [])
                  there
                  (rw
                    (length-append tenant.queue
                      (record { request_id = request_id; path_and_query = path } ∷ []))
                    (ground arith)))
        ]
      ]

  fewer : (waiting : Waiting) → length (erase waiting.request_id st.inflight) ≤ max_inflight
  fewer waiting = omega (arith, length-erase waiting.request_id st.inflight, within.few_inflight)

  pub clean_up-WithinLimits : (waiting : Waiting) → WithinLimits (clean_up st waiting)
  unfolding clean_up
  clean_up-WithinLimits waiting = elim (Option-cases (find waiting.tenant_id st.tenants)) [
    | inl absent ↦
        rw (absent, clean_up)
          (with_inflight-WithinLimits st within (erase waiting.request_id st.inflight)
            (fewer waiting))
    | inr (tenant, there) ↦
        rw (there, clean_up)
          (with_queue-WithinLimits (with_inflight (erase waiting.request_id st.inflight) st)
            (with_inflight-WithinLimits st within (erase waiting.request_id st.inflight)
              (fewer waiting))
            waiting.tenant_id tenant (without_request waiting.request_id tenant.queue) there
            (omega (
              arith,
              length-without_request waiting.request_id tenant.queue,
              within.short_queues waiting.tenant_id tenant there,
            )))
  ]

  pub image-WithinLimits :
      (tenant_id filename : String) (query : ImageQuery) (channel : ℕ) (request_id : String)
      → WithinLimits (image st tenant_id filename query channel request_id).0
  unfolding image
  image-WithinLimits tenant_id filename query channel request_id =
      elim (Option-cases query.expires) [
        | inl absent ↦ rw (absent, image) within
        | inr (expires, dated) ↦ elim (Option-cases query.sig) [
          | inl absent ↦ rw (dated, absent, image) within
          | inr (sig, signed) ↦
              elim (Bool-cases (
                not (valid_query expires sig)
                || not (
                    valid_tenant_id tenant_id
                    && valid_image_path (path_and_query filename expires sig)))) [
                      | inl refused ↦ rw (dated, signed, refused, image) within
                      | inr accepted ↦ elim (Option-cases (find tenant_id st.tenants)) [
                        | inl unknown ↦ rw (dated, signed, accepted, unknown, image) within
                        | inr (tenant, there) ↦
                            rw (dated, signed, accepted, there, image)
                              (enqueue-WithinLimits tenant_id tenant
                                (path_and_query filename expires sig) channel request_id there)
                      ]
                    ]
        ]
      ]
