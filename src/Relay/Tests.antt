-- ===== src/Relay/Tests.antt =====
-- Runs of the Relay, and the theorems about relay/src/lib.rs, relay/src/bin/server.rs and relay/src/bin/client.rs at concrete
-- states. The crates' functions are instantiated by small ones: a digest of zeros, hex digits that
-- are zeros, and the coding that leaves a text as it is.
use Prim.Native.String.len as len_laws
use context_guardian.Prelude.{
  ℕ, ◌*◌, ◌≤◌, String, ◌≡◌, refl, sym, ◌⊎◌, Bool, true, false, ◌&&◌, Option, none, some, List, [],
  ◌∷◌, ◌++◌, len, arith, ◌==◌, eqb, if◌then◌else◌, length, all, is_some, codes, decimal, eq_iff,
  strip_prefix, strip_suffix, contains, split_once, before, ◌+s◌, Assoc, find, find-empty, put,
  erase, map_option,
}
use context_guardian.Relay.Client.{success, done, validate_identity}
use context_guardian.Relay.Client.Identities.{validate_identity-from_secret}
use context_guardian.Relay.Identity.{
  ClientIdentity, from_secret, Crypto, CryptoLaws, RegisterRequest, RelayResult, is_ascii_hexdigit,
  valid_image_path, valid_image_name, valid_tenant_id, valid_secret, valid_registration_proof,
  tenant_id_for_secret, secret_hash, secret_hash_matches, solve_registration_proof,
}
use context_guardian.Relay.State.{Tenant, AppState, WithinLimits, ok, created}
use context_guardian.Relay.Tenants.{
  StoreCodec, Disk, Outcomes, fresh_tenant, persist_tenants, persist_bytes, load_tenants,
  acceptable, admit, settle, register, authenticate,
}
use context_guardian.Relay.Requests.{
  Codecs, ImageQuery, Waiting, respond, enqueue, image, clean_up, complete, result, valid_query,
  path_and_query,
}
use context_guardian.Relay.Requests.Responses.{Servable, respond-Servable, clean_up-enqueue}
use context_guardian.Relay.Tunnels.{
  tenant_from_server_name, first_open, take_slot, route_blind_connection,
}
use context_guardian.Relay.Tunnels.Routing.{route_blind_connection_sound}
use context_guardian.Relay.Identity.Registration.{Least, solve_registration_proof-Least}
use context_guardian.Relay.Server.{
  Sent, Server, step_register, step_result, step_image, Reaches, started, stepped, registering,
  requesting, posting,
}
use context_guardian.Relay.Server.Bounded.{Reaches-WithinLimits}
use context_guardian.Relay.Limits.Registering.{Registered, Refused, register-outcome}
use context_guardian.Relay.Tenants.Access.{authenticate-register}
use context_guardian.Relay.Tenants.Store.{
  StoreLaws, Kept, Replaced, persist_tenants-outcome, load-persist_tenants,
}

abbrev zero_bytes : List ℕ
zero_bytes =
    0 ∷ 0 ∷ 0 ∷ 0 ∷ 0 ∷ 0 ∷ 0 ∷ 0 ∷ 0 ∷ 0 ∷ 0 ∷ 0 ∷ 0 ∷ 0 ∷ 0 ∷ 0 ∷ 0 ∷ 0 ∷ 0 ∷ 0 ∷ 0 ∷ 0 ∷ 0 ∷ 0
    ∷ 0 ∷ 0 ∷ 0 ∷ 0 ∷ 0 ∷ 0 ∷ 0 ∷ 0 ∷ []

abbrev hex_zeros : List ℕ → String
hex_zeros [] = ""
hex_zeros (b ∷ bytes) = String.◌∷◌ "0" (String.◌∷◌ "0" (hex_zeros bytes))

abbrev eq_bytes : List ℕ → List ℕ → Bool
eq_bytes [] [] = true
eq_bytes (a ∷ xs) (b ∷ ys) = eqb a b && eq_bytes xs ys
eq_bytes _ _ = false

abbrev toy : Crypto
toy = record {
  sha256 = λ text. zero_bytes;
  hex_encode = hex_zeros;
  hex_decode = λ text. some zero_bytes;
  ct_eq = eq_bytes;
}

digits_lem : (bytes : List ℕ) → all is_ascii_hexdigit (codes (hex_zeros bytes)) ≡ true
digits_lem [] = refl
digits_lem (b ∷ bytes) = digits_lem bytes

len_lem : (bytes : List ℕ) → len (hex_zeros bytes) ≡ 2 * length bytes
len_lem [] = refl
len_lem (b ∷ bytes) =
    rw (len_laws.cons "0" (String.◌∷◌ "0" (hex_zeros bytes)), len_laws.cons "0" (hex_zeros bytes))
      (omega (arith, len_lem bytes))

eq_bytes_sound : (a b : List ℕ) → eq_bytes a b ≡ true → a ≡ b
eq_bytes_sound [] [] h = refl
eq_bytes_sound [] (b ∷ ys) h = absurd cc
eq_bytes_sound (a ∷ xs) [] h = absurd cc
eq_bytes_sound (a ∷ xs) (b ∷ ys) h =
    let first : a ≡ b = ground arith in
    let rest : xs ≡ ys = eq_bytes_sound xs ys (ground arith) in λ i. first i ∷ rest i

eq_bytes_refl : (a : List ℕ) → eq_bytes a a ≡ true
eq_bytes_refl [] = refl
eq_bytes_refl (a ∷ xs) = ground (arith, eq_bytes_refl xs)

toy-CryptoLaws : CryptoLaws toy
toy-CryptoLaws = record {
  decode-encode = λ text. refl;
  encode-digits = digits_lem;
  len-encode = len_lem;
  length-sha256 = λ text. refl;
  ct_eq_lem = λ a b. (eq_bytes_sound a b, λ same. rw (same) (eq_bytes_refl b));
}

-- The coding of a store with one tenant.
abbrev one_tenant : String
one_tenant = "00000000000000000000000000000000"

abbrev encode_one : Assoc String → Option String
encode_one ((k, v) ∷ []) = if k == one_tenant then some v else none
encode_one _ = none

abbrev toy_store : StoreCodec
toy_store = record { to_vec = encode_one; from_slice = λ bytes. some ((one_tenant, bytes) ∷ []) }

encode_one_lem :
    (m : Assoc String) (bytes : String)
    → encode_one m ≡ some bytes
    → (n : Assoc String) × (some ((one_tenant, bytes) ∷ []) ≡ some n)
      × ((k : String) → find k n ≡ find k m)
encode_one_lem [] bytes h = absurd cc
encode_one_lem ((k, v) ∷ x ∷ m) bytes h = absurd cc
encode_one_lem ((k, v) ∷ []) bytes h =
    let key : k ≡ one_tenant = ground (arith, eq_iff k one_tenant) in
    let value : v ≡ bytes = ground (arith) in
    ((one_tenant, bytes) ∷ [], refl, λ j i. find j ((sym key i, sym value i) ∷ []))

toy_store-StoreLaws : StoreLaws toy_store
toy_store-StoreLaws = record { reads_back = encode_one_lem }

abbrev fine : Outcomes
fine = record {
  directory_created = true;
  written = true;
  left_by_failed_write = none;
  restricted = true;
  renamed = true;
}

abbrev empty_disk : Disk
empty_disk = record { temporary = none; stored = none }

abbrev first_secret : String
first_secret = "aaaaaaaaaaaaaaaaaaaaaaaaaaaaaaaaaaaaaaaaaaaaaaaaaaaaaaaaaaaaaaaa"

abbrev bearer : String
bearer = "Bearer aaaaaaaaaaaaaaaaaaaaaaaaaaaaaaaaaaaaaaaaaaaaaaaaaaaaaaaaaaaaaaaa"

abbrev first_request : RegisterRequest
first_request = record {
  tenant_id = one_tenant;
  tenant_secret = first_secret;
  registration_nonce = 0;
}

abbrev idle : AppState
idle = record {
  tenants = [];
  inflight = [];
  blind_slots = [];
  blind_connections = 1024;
  blind_suffix = some "relay.example.com";
  tenant_store = some "tenants.json";
}

abbrev s0 : Server
s0 = record { app = idle; disk = empty_disk; next_channel = 0; waiting = []; sent = [] }

abbrev s1 : Server
s1 = registering toy_store toy fine first_request s0

abbrev image_name : String
image_name = "0123456789abcdef0123456789abcdef0123456789abcdef0123456789abcdef.png"

abbrev signed : ImageQuery
signed = record {
  expires = some "1700000000";
  sig = some "0123456789abcdef0123456789abcdef0123456789abcdef0123456789abcdef";
}

abbrev s2 : Server
s2 = requesting toy_store toy one_tenant image_name signed "r1" s1

abbrev png_reply : RelayResult
png_reply = record { status = 200; content_type = "image/png"; body_base64 = "AAAA" }

abbrev s3 : Server
s3 = posting toy_store toy one_tenant "r1" (some bearer) png_reply s2

-- The functions that the runs below go through.
run : Bool
unfolding registering requesting posting register acceptable admit settle persist_tenants
    persist_bytes valid_tenant_id valid_secret valid_registration_proof tenant_id_for_secret
    secret_hash secret_hash_matches find put erase image enqueue valid_query route_blind_connection
    take_slot first_open tenant_from_server_name strip_suffix contains path_and_query
    valid_image_path valid_image_name strip_prefix split_once before result complete authenticate
    decimal
run = true

answers_created : (register toy_store toy fine first_request idle empty_disk).2 ≡ created
unfolding run
answers_created = refl

s3_messages : length s3.sent ≡ 1
unfolding run
s3_messages = refl

idle-WithinLimits : WithinLimits idle
idle-WithinLimits = record {
  few_tenants = omega arith;
  few_inflight = omega arith;
  short_queues = λ tenant_id tenant found. absurd (find-empty tenant_id tenant found);
  few_slots = λ tenant_id slots found. absurd (find-empty tenant_id slots found);
}

reached : Reaches toy_store toy s0 s3
reached =
    stepped s2 s3
      (stepped s1 s2 (stepped s0 s1 started (step_register s0 fine first_request))
        (step_image s1 one_tenant image_name signed "r1"))
      (step_result s2 one_tenant "r1" (some bearer) png_reply)

Reaches-WithinLimits_example : WithinLimits s3.app
Reaches-WithinLimits_example = Reaches-WithinLimits toy_store toy s0 s3 idle-WithinLimits reached

abbrev asked : Waiting
asked = record { tenant_id = one_tenant; request_id = "r1"; receiver = 0 }

abbrev posted : Sent
posted = record { channel = 0; tenant_id = one_tenant; reply = png_reply }

authenticate-register_example :
    authenticate toy
      (register toy_store toy fine first_request idle empty_disk).0
      one_tenant
      (some ("Bearer " +s first_secret))
    ≡ some (fresh_tenant (secret_hash toy first_secret))
authenticate-register_example =
    authenticate-register toy toy-CryptoLaws toy_store fine first_request idle empty_disk
      answers_created

abbrev stored_tenant : Assoc Tenant
stored_tenant = (one_tenant, record { secret_hash = "ff"; queue = [] }) ∷ []

persisted : (persist_tenants toy_store (some "tenants.json") fine stored_tenant empty_disk).1 ≡ true
unfolding run
persisted = refl

load-persist_tenants_example :
    (loaded : Assoc Tenant) × (load_tenants toy_store
        (some "tenants.json")
        (persist_tenants toy_store (some "tenants.json") fine stored_tenant empty_disk).0
      ≡ some loaded)
    × ((k : String)
        → find k loaded ≡ map_option (λ t. fresh_tenant t.secret_hash) (find k stored_tenant))
load-persist_tenants_example =
    load-persist_tenants toy_store toy_store-StoreLaws fine stored_tenant empty_disk "tenants.json"
      persisted

abbrev toy_codecs : Codecs
toy_codecs = record {
  base64_decode = λ text. some (0 ∷ 0 ∷ 0 ∷ []);
  is_header_value = λ text. true;
}

serves : (respond toy_codecs (some png_reply)).status ≡ ok
unfolding respond
serves = refl

respond-Servable_example :
    (reply : RelayResult) × (body : List ℕ) × (some png_reply ≡ some reply)
    × Servable toy_codecs reply body
    × ((respond toy_codecs (some png_reply)).content_type ≡ some reply.content_type)
    × ((respond toy_codecs (some png_reply)).body ≡ body)
respond-Servable_example = respond-Servable toy_codecs (some png_reply) serves

abbrev path : String
path = "/image/0123456789abcdef0123456789abcdef0123456789abcdef0123456789abcdef.png?expires=1&sig=2"

abbrev working : AppState
working = record {
  tenants = stored_tenant;
  inflight = [];
  blind_slots = (one_tenant, 3 ∷ 5 ∷ []) ∷ [];
  blind_connections = 1024;
  blind_suffix = some "relay.example.com";
  tenant_store = none;
}

abbrev old_tenant : Tenant
old_tenant = record { secret_hash = "ff"; queue = [] }

is_there : find one_tenant working.tenants ≡ some old_tenant
unfolding run
is_there = refl

not_there : find "r1" working.inflight ≡ none
unfolding run
not_there = refl

enqueued : (enqueue working one_tenant old_tenant path 0 "r1").1 ≡ some asked
unfolding run
enqueued = refl

clean_up-enqueue_example :
    clean_up (enqueue working one_tenant old_tenant path 0 "r1").0 asked ≡ working
clean_up-enqueue_example =
    clean_up-enqueue working one_tenant old_tenant "r1" path 0 asked is_there not_there refl
      enqueued

-- The channel of the first slot is closed.
abbrev three_closed : ℕ → Bool
three_closed channel = eqb channel 3

routed :
    (route_blind_connection three_closed working
      "00000000000000000000000000000000.relay.example.com").1
    ≡ some 5
unfolding run
routed = refl

route_blind_connection_sound_example :
    (suffix : String) × (tenant_id : String) × (closed : List ℕ) × (left : List ℕ) × (some
        "relay.example.com"
      ≡ some suffix)
    × ("00000000000000000000000000000000.relay.example.com" ≡ tenant_id +s ("." +s suffix))
    × (is_some (find tenant_id stored_tenant) ≡ true)
    × (find tenant_id working.blind_slots ≡ some (closed ++ 5 ∷ left))
    × (all three_closed closed ≡ true)
    × (three_closed 5 ≡ false)
route_blind_connection_sound_example =
    route_blind_connection_sound three_closed working
      "00000000000000000000000000000000.relay.example.com" 5 routed

proof_valid : valid_registration_proof toy one_tenant first_secret 3 ≡ true
unfolding run
proof_valid = refl

solve_registration_proof-Least_example :
    (nonce : ℕ) × (solve_registration_proof toy one_tenant first_secret ≡ some nonce)
    × Least toy one_tenant first_secret 0 nonce
solve_registration_proof-Least_example =
    solve_registration_proof-Least toy one_tenant first_secret 3 (omega arith) proof_valid

secret_shaped : valid_secret first_secret ≡ true
unfolding run
secret_shaped = refl

identity_proof_valid :
    valid_registration_proof toy (tenant_id_for_secret toy first_secret) first_secret 3 ≡ true
unfolding run
identity_proof_valid = refl

validate_identity-from_secret_example :
    (identity : ClientIdentity) × (from_secret toy first_secret ≡ some identity)
    × (validate_identity toy identity ≡ success done)
validate_identity-from_secret_example =
    validate_identity-from_secret toy toy-CryptoLaws first_secret 3 (omega arith)
      identity_proof_valid secret_shaped

register-outcome_example :
    (((is_some (find one_tenant idle.tenants) ≡ false) × (length idle.tenants ≤ 9999))
      × Registered toy_store toy fine first_request idle empty_disk
          (register toy_store toy fine first_request idle empty_disk))
    ⊎ Refused toy_store toy fine first_request idle empty_disk
        (register toy_store toy fine first_request idle empty_disk)
register-outcome_example = register-outcome toy_store toy fine first_request idle empty_disk

persist_tenants-outcome_example :
    Kept toy_store fine stored_tenant empty_disk
      (persist_tenants toy_store (some "tenants.json") fine stored_tenant empty_disk)
    ⊎ Replaced toy_store fine stored_tenant empty_disk
        (persist_tenants toy_store (some "tenants.json") fine stored_tenant empty_disk)
persist_tenants-outcome_example =
    persist_tenants-outcome toy_store fine stored_tenant empty_disk "tenants.json"
