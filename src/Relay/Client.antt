-- ===== src/Relay/Client.antt =====
-- The client of the Relay, relay/src/bin/client.rs: the check of an identity, the address of a blind
-- tunnel, the registration and one poll. What the Relay and the local gateway answer is a parameter.
pub mod Identities
use context_guardian.Prelude.{
  ℕ, String, Bool, true, false, not, ◌&&◌, ◌||◌, Option, none, some, List, [], ◌∷◌, ltb, leb, eqb,
  if◌then◌else◌, ◌==◌, length, unwrap_or, ◌+s◌, strip_prefix, ◌>>=◌,
}
use context_guardian.Relay.Identity.{
  ClientIdentity, Crypto, PollResponse, RegisterRequest, RelayResult, from_secret, max_image_bytes,
  tenant_id_for_secret, valid_registration_proof, valid_secret, valid_tenant_id,
}
use context_guardian.Rollout.Summary.{trim_slashes}

-- `Result` with its error.
pub data Outcome {ℓ} (A : Type ℓ) (E : Type 0) : Type ℓ where
  success : A → Outcome A E
  failure : E → Outcome A E

pub data PollError : Type 0 where
  unregistered : PollError
  other : String → PollError

pub data Done : Type 0 where
  done : Done

unfoldable pub validate_identity : Crypto → ClientIdentity → Outcome Done String
validate_identity crypto identity =
    if not (valid_tenant_id identity.tenant_id)
      || not (valid_secret identity.tenant_secret)
      || not (tenant_id_for_secret crypto identity.tenant_secret == identity.tenant_id)
      || not (
          valid_registration_proof crypto identity.tenant_id identity.tenant_secret
            identity.registration_nonce)
    then failure "relay identity file contains invalid values"
    else success done

unfoldable pub blind_tunnel_url : String → String → Outcome String String
blind_tunnel_url relay_url tenant_id = elim (strip_prefix "https://" relay_url) [
  | none ↦ failure "blind tunnel control URL must use HTTPS"
  | some base ↦ success ("wss://" +s trim_slashes base +s "/v2/tunnel/" +s tenant_id)
]

-- The body of a request to the Relay, and the request: its address, its bearer and its body.
pub data Body : Type 0 where
  nothing : Body
  registration : RegisterRequest → Body
  result : RelayResult → Body

pub record Post : Type 0 where
  pub url : String
  pub bearer : Option String
  pub body : Body

-- An answer of the Relay: its status, and its body as a job where it is one, or the error.
pub record Response : Type 0 where
  pub status : ℕ
  pub job : Outcome PollResponse String

-- An answer of the local gateway: the content type is there where the header is a text.
pub record LocalResponse : Type 0 where
  pub status : ℕ
  pub content_type : Option String
  pub bytes : Outcome (List ℕ) String

abbrev pub is_status_success : ℕ → Bool
is_status_success status = leb 200 status && leb status 299

-- The network, the text of a status, and the coding of the crate `base64`.
pub record Network : Type 0 where
  pub post : Post → Outcome Response String
  pub fetch : String → Outcome LocalResponse String
  pub status_text : ℕ → String
  pub encode : List ℕ → String

module _ (network : Network) where
  abbrev registered : Outcome Response String → Outcome Done String
  registered (failure error) = failure error
  registered (success response) =
      if is_status_success response.status
      then success done
      else failure ("registration returned " +s network.status_text response.status)

  unfoldable pub register_client : String → ClientIdentity → Outcome Done String
  register_client relay_url identity = registered (
      network.post record {
        url = trim_slashes relay_url +s "/v1/register";
        bearer = none;
        body = registration record {
          tenant_id = identity.tenant_id;
          tenant_secret = identity.tenant_secret;
          registration_nonce = identity.registration_nonce;
        };
      })

  abbrev accepted : Outcome Response String → Outcome Done PollError
  accepted (failure error) = failure (other error)
  accepted (success response) =
      if is_status_success response.status
      then success done
      else failure (other ("result returned " +s network.status_text response.status))

  -- The result that a body of the gateway gives, and the request that hands it over.
  abbrev pub result_of : LocalResponse → List ℕ → RelayResult
  result_of local body = record {
    status = local.status;
    content_type = unwrap_or local.content_type "application/octet-stream";
    body_base64 = network.encode body;
  }

  abbrev pub hand_over : String → ClientIdentity → PollResponse → RelayResult → Post
  hand_over relay_url identity job reply = record {
    url = trim_slashes relay_url +s "/v1/result/" +s identity.tenant_id +s "/" +s job.request_id;
    bearer = some identity.tenant_secret;
    body = result reply;
  }

  abbrev post_body :
      String
      → ClientIdentity
      → PollResponse
      → LocalResponse
      → Outcome (List ℕ) String
      → Outcome Done PollError
  post_body relay_url identity job local (failure error) = failure (other error)
  post_body relay_url identity job local (success body) =
      if ltb max_image_bytes (length body)
      then failure (other "local image exceeds size limit")
      else accepted (network.post (hand_over relay_url identity job (result_of local body)))

  abbrev post_local :
      String → ClientIdentity → PollResponse → Outcome LocalResponse String → Outcome Done PollError
  post_local relay_url identity job (failure error) = failure (other error)
  post_local relay_url identity job (success local) =
      post_body relay_url identity job local local.bytes

  unfoldable pub answer_job :
      String → String → ClientIdentity → Outcome PollResponse String → Outcome Done PollError
  answer_job relay_url local_gateway identity (failure error) = failure (other error)
  answer_job relay_url local_gateway identity (success job) =
      post_local relay_url identity job
        (network.fetch (trim_slashes local_gateway +s job.path_and_query))

  unfoldable pub polled :
      String → String → ClientIdentity → Outcome Response String → Outcome Done PollError
  polled relay_url local_gateway identity (failure error) = failure (other error)
  polled relay_url local_gateway identity (success response) =
      if eqb response.status 204
      then success done
      else if eqb response.status 404
      then failure unregistered
      else if not (is_status_success response.status)
      then failure (other ("poll returned " +s network.status_text response.status))
      else answer_job relay_url local_gateway identity response.job

  unfoldable pub poll_once : String → String → ClientIdentity → Outcome Done PollError
  poll_once relay_url local_gateway identity = polled relay_url local_gateway identity (
      network.post record {
        url = trim_slashes relay_url +s "/v1/poll/" +s identity.tenant_id;
        bearer = some identity.tenant_secret;
        body = nothing;
      })
