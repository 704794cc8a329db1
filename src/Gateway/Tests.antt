-- ===== src/Gateway/Tests.antt =====
-- Tests of src/bin/context-image-gateway.rs, and the theorem about it at a concrete request.
use context_guardian.Prelude.{
  ℕ, ◌≡◌, refl, String, Bool, Option, some, List, [], ◌∷◌, codes, eqb, length, split, split_from,
  split_once, strip_prefix, strip_suffix, before,
}
use context_guardian.Rollout.Analysis.{contains_codes, starts_codes}
use context_guardian.Capture.Io.{IoResult, ok}
use context_guardian.Capture.Bytes.{
  split_whitespace, is_space, from_str_radix, from_digits, digits_from, digit_of,
}
use context_guardian.Gateway.{
  Answer, plain, is_hex_char, is_digest_name, valid_filename, value_in, query_value,
  content_type_of, read_header, verify, read_image, serve, check_signature, handle_image,
  handle_target, handle_words, handle,
}

abbrev toy_hex : String → Option (List ℕ)
toy_hex text = some (codes text)

abbrev toy_mac : List ℕ → List ℕ → List ℕ → Bool
toy_mac key text signature = eqb (length signature) 2

abbrev toy_size : String → IoResult ℕ
toy_size filename = ok 4

abbrev toy_file : String → IoResult (List ℕ)
toy_file filename = ok (codes "GIF8")

abbrev request_text : String
request_text =
    "HEAD /image/0123456789abcdef0123456789abcdef0123456789abcdef0123456789ABCDEF.gif?expires=900&sig=77 HTTP/1.1\r\nHost: x\r\n\r\n"

abbrev toy_lossy : List ℕ → String
toy_lossy bytes = request_text

abbrev gif : Answer
gif = record {
  status = 200;
  content_type = "image/gif";
  body = codes "GIF8";
  head_only = Bool.true;
}

abbrev answer_at : ℕ → IoResult Answer
answer_at now = handle toy_hex toy_mac toy_size toy_file toy_lossy now [] (codes request_text ∷ [])

expires : answer_at 901 ≡ ok (plain 403 "expired or invalid signature")
unfolding handle handle_words handle_target handle_image check_signature serve read_image verify
    read_header content_type_of query_value value_in valid_filename is_digest_name is_hex_char split
    split_from split_once strip_prefix strip_suffix before contains_codes starts_codes
    split_whitespace is_space from_str_radix from_digits digits_from digit_of
expires = refl
