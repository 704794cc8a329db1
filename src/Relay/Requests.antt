-- ===== src/Relay/Requests.antt =====
-- The handlers of image requests in relay/src/bin/server.rs: `poll`, `result` and `image`, which is
-- two operations here, up to the wait for the result and after it.
pub mod Entries
pub mod Responses
use Prim.Native.Char.{Char}
use context_guardian.Prelude.{
  ℕ, zero, suc, ◌*◌, String, ◌≡◌, Bool, true, false, not, ◌&&◌, ◌||◌, Option, none, some, List, [],
  ◌∷◌, ◌++◌, ◌==◌, ltb, leb, eqb, if◌then◌else◌, ◌>>=◌, length, all, is_some, codes, len,
  starts_with, ◌+s◌, Assoc, find, put, erase,
}
use context_guardian.Relay.Identity.{
  Crypto, PollResponse, RelayResult, max_image_bytes, valid_tenant_id, valid_image_path,
  is_ascii_digit, is_ascii_hexdigit,
}
use context_guardian.Relay.State.{
  max_queued_per_tenant, max_inflight, Job, Tenant, Inflight, AppState, StatusCode, ok, no_content,
  not_found, with_inflight, with_queue,
}
use context_guardian.Relay.Tenants.{authenticate}

-- The functions of the crates `base64` and `http` that `image` calls: decoding, and whether a text
-- can be the value of a header.
pub record Codecs : Type 0 where
  pub base64_decode : String → Option (List ℕ)
  pub is_header_value : String → Bool

pub record ImageQuery : Type 0 where
  pub expires : Option String
  pub sig : Option String

pub record Response : Type 0 where
  pub status : StatusCode
  pub content_type : Option String
  pub cache_control : String
  pub nosniff : Bool
  pub body : List ℕ

abbrev pub hidden_not_found : Response
hidden_not_found = record {
  status = not_found;
  content_type = none;
  cache_control = "no-store";
  nosniff = false;
  body = [];
}

-- What an `image` handler holds while it waits.
pub record Waiting : Type 0 where
  pub tenant_id : String
  pub request_id : String
  pub receiver : ℕ

-- `queue.pop_front()`
unfoldable pub pop_job : AppState → String → AppState × Option PollResponse
pop_job st tenant_id = elim (find tenant_id st.tenants) [
  | none ↦ (st, none)
  | some tenant ↦ elim tenant.queue [
    | [] ↦ (st, none)
    | job ∷ jobs ↦ (
      with_queue tenant_id tenant jobs st,
      some record { request_id = job.request_id; path_and_query = job.path_and_query },
    )
  ]
]

-- The loop of `poll`: `wait` is what the other handlers do while this one waits to be notified.
unfoldable pub poll_loop :
    ℕ → (AppState → AppState) → AppState → String → AppState × Option PollResponse
poll_loop zero wait st tenant_id = (st, none)
poll_loop (suc rounds) wait st tenant_id =
    let (st', response) = pop_job st tenant_id in
    let later = poll_loop rounds wait (wait st) tenant_id in
    if is_some response then (st', response) else later

-- The result goes to the channel of the request, whose entry is removed.
unfoldable pub complete :
    AppState → String → String → RelayResult → AppState × StatusCode × Option (ℕ × RelayResult)
complete st tenant_id request_id reply = elim (find request_id st.inflight) [
  | none ↦ (st, not_found, none)
  | some inflight ↦ if not (inflight.tenant_id == tenant_id) then (st, not_found, none) else (
    with_inflight (erase request_id st.inflight) st,
    no_content,
    some (inflight.sender, reply),
  )
]

module _ (c : Crypto) where
  -- `inl` is the error's status.
  unfoldable pub poll :
      (AppState → AppState)
      → AppState
      → String
      → Option String
      → AppState × Option PollResponse × StatusCode
  poll wait st tenant_id authorization = elim (authenticate c st tenant_id authorization) [
    | none ↦ (st, none, not_found)
    | some tenant ↦
        let (st', response) = poll_loop 2 wait st tenant_id in
        (st', response, if is_some response then ok else no_content)
  ]

  -- `result`, with the message that it sends on a channel.
  unfoldable pub result :
      AppState
      → String
      → String
      → Option String
      → RelayResult
      → AppState × StatusCode × Option (ℕ × RelayResult)
  result st tenant_id request_id authorization reply =
      if not (is_some (authenticate c st tenant_id authorization))
        || ltb (max_image_bytes * 2) (len reply.body_base64)
      then (st, not_found, none)
      else complete st tenant_id request_id reply

-- The tests of `image` on the query's values.
unfoldable pub valid_query : String → String → Bool
valid_query expires sig =
    not (ltb 20 (len expires))
    && (all is_ascii_digit (codes expires)
        && (eqb (len sig) 64 && all is_ascii_hexdigit (codes sig)))

unfoldable pub path_and_query : String → String → String → String
path_and_query filename expires sig =
    "/image/" +s (filename +s ("?expires=" +s (expires +s ("&sig=" +s sig))))

-- The entries that the handler makes under its locks; `None` is `hidden_not_found`.
unfoldable pub enqueue :
    AppState → String → Tenant → String → ℕ → String → AppState × Option Waiting
enqueue st tenant_id tenant path channel request_id =
    if leb max_inflight (length st.inflight)
    then (st, none)
    else if leb max_queued_per_tenant (length tenant.queue)
    then (st, none)
    else (
      with_queue tenant_id tenant
          (tenant.queue ++ record { request_id = request_id; path_and_query = path } ∷ [])
          (with_inflight
            (put request_id (record { tenant_id = tenant_id; sender = channel }) st.inflight) st),
      some record { tenant_id = tenant_id; request_id = request_id; receiver = channel },
    )

-- `image` up to its wait. The request id is the random one, the channel a new one.
unfoldable pub image :
    AppState → String → String → ImageQuery → ℕ → String → AppState × Option Waiting
image st tenant_id filename query channel request_id = elim query.expires [
  | none ↦ (st, none)
  | some expires ↦ elim query.sig [
    | none ↦ (st, none)
    | some sig ↦
        let path = path_and_query filename expires sig in
        if not (valid_query expires sig) || not (valid_tenant_id tenant_id && valid_image_path path)
        then (st, none)
        else elim (find tenant_id st.tenants) [
          | none ↦ (st, none)
          | some tenant ↦ enqueue st tenant_id tenant path channel request_id
        ]
  ]
]

-- `queue.retain(|job| job.request_id != request_id)`
unfoldable pub without_request : String → List Job → List Job
without_request request_id [] = []
without_request request_id (job ∷ jobs) =
    let rest = without_request request_id jobs in
    if job.request_id == request_id then rest else job ∷ rest

-- The handler's own entries are removed, whether a result came or not. The source takes the two
-- locks one after the other; the writes are to different parts of the state.
unfoldable pub clean_up : AppState → Waiting → AppState
clean_up st waiting =
    let st' = with_inflight (erase waiting.request_id st.inflight) st in
    elim (find waiting.tenant_id st.tenants) [
      | none ↦ st'
      | some tenant ↦
          with_queue waiting.tenant_id tenant (without_request waiting.request_id tenant.queue) st'
    ]

module _ (codecs : Codecs) where
  -- The answer to the result that the channel gave; `None` is a timeout or a dropped sender.
  unfoldable pub respond : Option RelayResult → Response
  respond none = hidden_not_found
  respond (some result) = elim (codecs.base64_decode result.body_base64) [
    | none ↦ hidden_not_found
    | some body ↦
        if ltb max_image_bytes (length body)
          || (not (eqb result.status 200) || not (starts_with result.content_type "image/"))
        then hidden_not_found
        else if not (codecs.is_header_value result.content_type)
        then hidden_not_found
        else record {
          status = ok;
          content_type = some result.content_type;
          cache_control = "private, no-store";
          nosniff = true;
          body = body;
        }
  ]

  -- `image` after its wait.
  unfoldable pub image_finish : AppState → Waiting → Option RelayResult → AppState × Response
  image_finish st waiting result = (clean_up st waiting, respond result)
