-- ===== src/Relay/Requests/Responses.antt =====
-- What `image` of relay/src/bin/server.rs answers, and what a request leaves behind.
use context_guardian.Prelude.{
  ℕ, String, ◌≡◌, refl, sym, inl, inr, ◌≤◌, Bool, true, false, not, ◌||◌, Option, none, some, List,
  [], ◌∷◌, ◌++◌, arith, leb, ltb, eqb, ◌==◌, eq_refl, Bool-cases, Option-cases, length, starts_with,
  any, find, put, erase-put, find-put, put-put, put-find,
}
use context_guardian.Relay.Identity.{RelayResult, max_image_bytes}
use context_guardian.Relay.State.{
  max_inflight, max_queued_per_tenant, Job, Tenant, AppState, ok, with_inflight, with_queue,
}
use context_guardian.Relay.Requests.{
  Codecs, hidden_not_found, respond, Waiting, enqueue, clean_up, without_request,
}

all_fit : (a b d : Bool) → (a || (not b || not d)) ≡ false → (a ≡ false) × (b ≡ true) × (d ≡ true)
all_fit false true true h = (refl, refl, refl)
all_fit true b d h = absurd cc
all_fit false false d h = absurd cc
all_fit false true false h = absurd cc

small_enough : (n : ℕ) → ltb max_image_bytes n ≡ false → n ≤ max_image_bytes
small_enough n h = ground arith

is_200 : (n : ℕ) → eqb n 200 ≡ true → n ≡ 200
is_200 n h = ground arith

hidden_apart : hidden_not_found.status ≡ ok → ⊥
hidden_apart answered = cc

module _ (codecs : Codecs) where
  -- A result that may be served: status 200, an image type that can stand in a header, and a body of
  -- at most 20 MiB that decodes.
  abbrev pub Servable : RelayResult → List ℕ → Type 0
  Servable reply body =
      (codecs.base64_decode reply.body_base64 ≡ some body)
      × (length body ≤ max_image_bytes)
      × (reply.status ≡ 200)
      × (starts_with reply.content_type "image/" ≡ true)
      × (codecs.is_header_value reply.content_type ≡ true)

  -- Only a servable result is answered with status 200, and the answer has its type and its body.
  pub respond-Servable :
      (received : Option RelayResult)
      → (respond codecs received).status ≡ ok
      → (reply : RelayResult) × (body : List ℕ) × (received ≡ some reply)
        × Servable reply body
        × ((respond codecs received).content_type ≡ some reply.content_type)
        × ((respond codecs received).body ≡ body)
  unfolding respond
  respond-Servable none = λ answered. absurd (hidden_apart answered)
  respond-Servable (some reply) = elim (Option-cases (codecs.base64_decode reply.body_base64)) [
    | inl garbled ↦ rw (garbled, respond) (λ answered. absurd (hidden_apart answered))
    | inr (body, decoded) ↦
        elim (Bool-cases (
          ltb max_image_bytes (length body)
          || (not (eqb reply.status 200) || not (starts_with reply.content_type "image/")))) [
            | inl refused ↦
                rw (decoded, refused, respond) (λ answered. absurd (hidden_apart answered))
            | inr fitting ↦ elim (Bool-cases (codecs.is_header_value reply.content_type)) [
              | inr malformed ↦
                  rw (decoded, fitting, malformed, respond)
                    (λ answered. absurd (hidden_apart answered))
              | inl header ↦
                  let fits =
                    all_fit (ltb max_image_bytes (length body)) (eqb reply.status 200)
                      (starts_with reply.content_type "image/") fitting in
                  rw (decoded, fitting, header, respond)
                    (λ answered. (
                      reply,
                      body,
                      refl,
                      (
                        decoded,
                        small_enough (length body) fits.0,
                        is_200 reply.status fits.1,
                        fits.2,
                        header,
                      ),
                      refl,
                      refl,
                    ))
            ]
          ]
  ]

-- A request id that no job of a queue has.
abbrev pub is_queued : String → List Job → Bool
is_queued request_id jobs = any (λ job. job.request_id == request_id) jobs

without_request-append :
    (request_id : String) (jobs : List Job) (job : Job)
    → is_queued request_id jobs ≡ false
    → (job.request_id == request_id) ≡ true
    → without_request request_id (jobs ++ job ∷ []) ≡ jobs
unfolding without_request
without_request-append request_id [] job fresh same = rw (same)
without_request-append request_id (first ∷ jobs) job fresh same =
    ground (arith, without_request-append request_id jobs job)

module _ (st : AppState) (tenant_id : String) (tenant : Tenant) (request_id : String) where
  no_waiting : (w : Waiting) → none ≡ some w → ⊥
  no_waiting w h = cc

  the_waiting : (v w : Waiting) → some v ≡ some w → v ≡ w
  the_waiting v w h = cc

  abbrev entered : String → ℕ → AppState
  entered path channel =
      with_queue tenant_id tenant
        (tenant.queue ++ record { request_id = request_id; path_and_query = path } ∷ [])
        (with_inflight
          (put request_id (record { tenant_id = tenant_id; sender = channel }) st.inflight) st)

  clean_up-entered :
      (path : String) (channel : ℕ)
      → find tenant_id st.tenants ≡ some tenant
      → find request_id st.inflight ≡ none
      → is_queued request_id tenant.queue ≡ false
      → clean_up
          (entered path channel)
          (record { tenant_id = tenant_id; request_id = request_id; receiver = channel })
        ≡ st
  unfolding clean_up
  clean_up-entered path channel there absent fresh =
      let job : Job = record { request_id = request_id; path_and_query = path } in
      let longer : Tenant = record tenant { queue = tenant.queue ++ job ∷ [] } in
      rw (
        find-put tenant_id tenant_id longer st.tenants,
        eq_refl tenant_id,
        clean_up,
        put-put tenant_id longer
            (record tenant { queue = without_request request_id (tenant.queue ++ job ∷ []) })
            st.tenants,
        without_request-append request_id tenant.queue job fresh (eq_refl request_id),
        put-find tenant_id tenant st.tenants there,
        erase-put request_id (record { tenant_id = tenant_id; sender = channel }) st.inflight
            absent,
      )

  -- After an entry was made and no other handler ran, the handler's clean-up gives the old state back.
  pub clean_up-enqueue :
      (path : String) (channel : ℕ) (w : Waiting)
      → find tenant_id st.tenants ≡ some tenant
      → find request_id st.inflight ≡ none
      → is_queued request_id tenant.queue ≡ false
      → (enqueue st tenant_id tenant path channel request_id).1 ≡ some w
      → clean_up (enqueue st tenant_id tenant path channel request_id).0 w ≡ st
  unfolding enqueue
  clean_up-enqueue path channel w there absent fresh =
      elim (Bool-cases (leb max_inflight (length st.inflight))) [
        | inl full ↦ rw (full, enqueue) (λ asked. absurd (no_waiting w asked))
        | inr room ↦ elim (Bool-cases (leb max_queued_per_tenant (length tenant.queue))) [
          | inl full ↦ rw (room, full, enqueue) (λ asked. absurd (no_waiting w asked))
          | inr space ↦
              rw (room, space, enqueue)
                (λ asked.
                  rw
                    (sym (
                      the_waiting
                        (record {
                          tenant_id = tenant_id;
                          request_id = request_id;
                          receiver = channel;
                        })
                        w asked))
                    (clean_up-entered path channel there absent fresh))
        ]
      ]
