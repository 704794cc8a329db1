-- ===== src/Relay/Identity.antt =====
-- The identities and the checks of relay/src/lib.rs. SHA-256, the hex coding and the comparison in
-- constant time are crates: they are the fields of `Crypto`, and `CryptoLaws` states what these
-- crates document. The bytes of a text that is not ASCII are no hex digits, and no more are its
-- code points, so the tests on all bytes are here tests on all code points.
pub mod Registration
pub mod ImagePath
use Prim.Native.Char.{Char}
use context_guardian.Prelude.{
  ℕ, zero, suc, ◌+◌, ◌-◌, ◌*◌, ◌^◌, ◌≤◌, ◌<◌, String, ◌≡◌, refl, sym, ap, ◌∙◌, ◌≢◌, ◌↔◌, ◌⊎◌, inl,
  inr, Bool, true, false, not, ◌&&◌, ◌||◌, Option, none, some, List, [], ◌∷◌, arith, ◌==◌, eq_iff,
  eq_refl, ltb, leb, eqb, if◌then◌else◌, Bool-cases, Option-cases, ◌>>=◌, &&-true, length, take,
  all, codes, ◌+s◌, decimal, strip_prefix, strip_prefix_sound, before, from, before-from,
  split_once, split_once_sound, len,
}

-- `20 * 1024 * 1024`
abbrev pub max_image_bytes : ℕ
max_image_bytes = 20971520

pub record RegisterRequest : Type 0 where
  pub tenant_id : String
  pub tenant_secret : String
  pub registration_nonce : ℕ

pub record PollResponse : Type 0 where
  pub request_id : String
  pub path_and_query : String

pub record RelayResult : Type 0 where
  pub status : ℕ
  pub content_type : String
  pub body_base64 : String

pub record ClientIdentity : Type 0 where
  pub tenant_id : String
  pub tenant_secret : String
  pub registration_nonce : ℕ

-- The functions of the crates `sha2`, `hex` and `subtle` that the code calls.
pub record Crypto : Type 0 where
  pub sha256 : String → List ℕ
  pub hex_encode : List ℕ → String
  pub hex_decode : String → Option (List ℕ)
  pub ct_eq : List ℕ → List ℕ → Bool

-- `byte.is_ascii_digit()` and `byte.is_ascii_hexdigit()`
abbrev pub is_ascii_digit : ℕ → Bool
is_ascii_digit b = leb 48 b && leb b 57

abbrev pub is_ascii_hexdigit : ℕ → Bool
is_ascii_hexdigit b = is_ascii_digit b || ((leb 65 b && leb b 70) || (leb 97 b && leb b 102))

unfoldable pub valid_tenant_id : String → Bool
valid_tenant_id value = eqb (len value) 32 && all is_ascii_hexdigit (codes value)

unfoldable pub valid_secret : String → Bool
valid_secret value = eqb (len value) 64 && all is_ascii_hexdigit (codes value)

-- What the documentation of those crates says.
pub record CryptoLaws (c : Crypto) : Type 0 where
  pub decode-encode :
      (text : String) → c.hex_decode (c.hex_encode (c.sha256 text)) ≡ some (c.sha256 text)
  pub encode-digits : (bytes : List ℕ) → all is_ascii_hexdigit (codes (c.hex_encode bytes)) ≡ true
  pub len-encode : (bytes : List ℕ) → len (c.hex_encode bytes) ≡ 2 * length bytes
  pub length-sha256 : (text : String) → length (c.sha256 text) ≡ 32
  pub ct_eq_lem : (a b : List ℕ) → (c.ct_eq a b ≡ true) ↔ (a ≡ b)

module _ (c : Crypto) where
  -- The digest has 32 bytes, so the indices 0, 1 and 2 are there.
  abbrev pub starts_with_zeros : List ℕ → Bool
  starts_with_zeros (x ∷ y ∷ z ∷ rest) = eqb x 0 && (eqb y 0 && ltb z 16)
  starts_with_zeros _ = false

  unfoldable pub valid_registration_proof : String → String → ℕ → Bool
  valid_registration_proof tenant_id secret nonce =
      starts_with_zeros (c.sha256 (tenant_id +s (":" +s (secret +s (":" +s decimal nonce)))))

  -- The search of `(from..from + fuel).find(...)`; `None` is where the code panics.
  unfoldable pub solve_from : ℕ → ℕ → String → String → Option ℕ
  solve_from zero nonce tenant_id secret = none
  solve_from (suc fuel) nonce tenant_id secret =
      elim (valid_registration_proof tenant_id secret nonce) [
        | true ↦ some nonce
        | false ↦ solve_from fuel (suc nonce) tenant_id secret
      ]

  unfoldable pub solve_registration_proof : String → String → Option ℕ
  solve_registration_proof tenant_id secret = solve_from (2 ^ 64 - 1) 0 tenant_id secret

  unfoldable pub tenant_id_for_secret : String → String
  tenant_id_for_secret secret = c.hex_encode (take 16 (c.sha256 secret))

  unfoldable pub secret_hash : String → String
  secret_hash secret = c.hex_encode (c.sha256 secret)

  unfoldable pub secret_hash_matches : String → String → Bool
  secret_hash_matches expected_hex secret = elim (c.hex_decode expected_hex) [
    | none ↦ false
    | some expected ↦
        let actual = c.sha256 secret in
        eqb (length expected) (length actual) && c.ct_eq expected actual
  ]

  -- `ClientIdentity::from_secret`, which `generate` calls in effect with 32 random bytes in hex.
  unfoldable pub from_secret : String → Option ClientIdentity
  from_secret tenant_secret = do
    let tenant_id = tenant_id_for_secret tenant_secret
    registration_nonce ← solve_registration_proof tenant_id tenant_secret
    some record {
      tenant_id = tenant_id;
      tenant_secret = tenant_secret;
      registration_nonce = registration_nonce;
    }

  -- `ClientIdentity::generate` on the 32 bytes that the generator of random numbers fills in.
  unfoldable pub generate : List ℕ → Option ClientIdentity
  unfolding from_secret
  generate secret = from_secret (c.hex_encode secret)

abbrev pub is_image_extension : String → Bool
is_image_extension extension =
    (extension == "png")
    || ((extension == "jpg") || ((extension == "webp") || (extension == "gif")))

-- The test on the parts of a file name.
unfoldable pub valid_image_name : String → String → Bool
valid_image_name digest extension =
    eqb (len digest) 64 && (all is_ascii_hexdigit (codes digest) && is_image_extension extension)

unfoldable pub valid_image_path : String → Bool
valid_image_path path = elim (strip_prefix "/image/" path) [
  | none ↦ false
  | some rest ↦ elim (split_once "." (before "?" rest)) [
    | none ↦ false
    | some (digest, extension) ↦ valid_image_name digest extension
  ]
]
