-- ===== src/Gateway/Access.antt =====
-- Which requests the image gateway answers with a file, in src/bin/context-image-gateway.rs.
use context_guardian.Prelude.{ℕ, ◌≤◌, String, Bool, true, Option, List, ◌≡◌}
use context_guardian.Capture.Io.{IoResult, ok}
use context_guardian.Gateway.{
  Answer, max_image_bytes, valid_filename, content_type_of, verify, serve, check_signature,
  handle_image, handle_target, handle_words,
}

module _ (hex_decode : String → Option (List ℕ)) (verify_mac : List ℕ → List ℕ → List ℕ → Bool)
    (metadata : String → IoResult ℕ) (read_file : String → IoResult (List ℕ))
    (from_utf8_lossy : List ℕ → String) (now : ℕ) (signing_key : List ℕ) where
  -- The answer is a file of the cache, of a valid name and within the limit, whose name the key signed
  -- together with a time that has not passed.
  abbrev pub IsSigned : Answer → Type 0
  IsSigned answer =
      (filename : String) × (expires : ℕ) × (signature : String) × (valid_filename filename ≡ true)
      × (now ≤ expires)
      × (verify hex_decode verify_mac metadata read_file from_utf8_lossy now signing_key filename
            expires signature
          ≡ true)
      × (size : ℕ) × (metadata filename ≡ ok size)
      × (size ≤ max_image_bytes)
      × (read_file filename ≡ ok answer.body)
      × (answer.content_type ≡ content_type_of filename)

  abbrev serve_here : Bool → String → IoResult Answer
  serve_here = serve hex_decode verify_mac metadata read_file from_utf8_lossy now signing_key

  abbrev verify_here : String → ℕ → String → Bool
  verify_here = verify hex_decode verify_mac metadata read_file from_utf8_lossy now signing_key

  abbrev check_here : Bool → String → Option ℕ → Option String → IoResult Answer
  check_here =
      check_signature hex_decode verify_mac metadata read_file from_utf8_lossy now signing_key

  abbrev image_here : Bool → String → String → IoResult Answer
  image_here = handle_image hex_decode verify_mac metadata read_file from_utf8_lossy now signing_key

  abbrev target_here : Bool → String → IoResult Answer
  target_here =
      handle_target hex_decode verify_mac metadata read_file from_utf8_lossy now signing_key

  abbrev words_here : List String → IoResult Answer
  words_here = handle_words hex_decode verify_mac metadata read_file from_utf8_lossy now signing_key
