-- ===== src/Rollout/ImageTests.antt =====
-- Tests of the removal of inline images by src/main.rs, and the theorems about it at concrete inputs.
use context_guardian.MessageFormat.Message.{Serde}
use context_guardian.Rollout.Attachments.{
  scrub_user_message_images, clear_field, placeholders_of, user_image_placeholder,
}
use context_guardian.Rollout.Attachments.Settled.{scrub_user_message_images-settles}
use context_guardian.Prelude.{
  ◌≡◌, refl, String, Option, none, [], ◌∷◌, strip_prefix, split_once, decimal, some, ℕ,
}
use context_guardian.Json.{
  Value, string, object, array, nil, cons, empty, entry, lookup, insert, replace,
}
use context_guardian.Capture.Bytes.{is_space}
use context_guardian.Rollout.Images.{
  ends_uri, find_uri, cut_uri, spans_from, data_image_spans, data_image_mime, image_placeholder,
  is_image_placeholder, scrub_data_image_text, replace_url, image_item, scrub_inline_images,
}
use context_guardian.Rollout.Images.Parts.{AreSpans, data_image_spans-AreSpans}
use context_guardian.Rollout.Images.Unchanged.{scrub_inline_images-unchanged}

abbrev two_images : String
two_images = "a \"data:image/png;base64,AA\" b data:image/gif,B"

finds_two :
    (data_image_spans two_images).0
    ≡ ("a \"", "data:image/png;base64,AA") ∷ ("\" b ", "data:image/gif,B") ∷ []
unfolding data_image_spans spans_from find_uri cut_uri ends_uri is_space strip_prefix
finds_two = refl

data_image_spans-AreSpans_example : AreSpans two_images (data_image_spans two_images)
data_image_spans-AreSpans_example = data_image_spans-AreSpans two_images

abbrev unpublished : String → Option String
unpublished data_uri = none

abbrev inline_image : Value
inline_image =
    object
      (entry "image_url" (string "data:image/gif,B") (entry "type" (string "input_image") empty))

replaces_image : scrub_inline_images unpublished "t" "p" (array (cons inline_image nil)) ≡ (
  array (
      cons
        (object (
          entry "text"
            (string
              "[context-guardian:inline-image-placeholder thread=t mime=image/gif removed_bytes=16 original_file=p]")
            (entry "type" (string "input_text") empty)))
        nil),
  16,
)
unfolding scrub_inline_images image_item replace_url image_placeholder data_image_mime strip_prefix
    split_once decimal lookup insert
replaces_image = refl

abbrev remote_image : Value
remote_image =
    object (entry "image_url" (string "https://a/b") (entry "type" (string "input_image") empty))

removes_nothing : (scrub_inline_images unpublished "t" "p" remote_image).1 ≡ 0
unfolding scrub_inline_images image_item replace_url is_image_placeholder scrub_data_image_text
    data_image_spans spans_from find_uri strip_prefix lookup
removes_nothing = refl

scrub_inline_images-unchanged_example :
    (scrub_inline_images unpublished "t" "p" remote_image).0 ≡ remote_image
scrub_inline_images-unchanged_example =
    scrub_inline_images-unchanged unpublished "t" "p" remote_image removes_nothing

abbrev toy_serde : Serde
toy_serde = record { decode = λ text. none; encode = λ value. some "{}" }

abbrev no_file : String → Option ℕ
no_file path = none

abbrev user_message : Value
user_message = object (
    entry "payload"
      (object (
        entry "images" (array (cons (string "/a.png") nil))
          (entry "message" (string "see") (entry "type" (string "user_message") empty))))
      (entry "type" (string "event_msg") empty))

takes_attachment : (scrub_user_message_images toy_serde no_file user_message "t").1 ≡ 1
unfolding scrub_user_message_images clear_field placeholders_of user_image_placeholder lookup
    replace insert
takes_attachment = refl

scrub_user_message_images-settles_example :
    scrub_user_message_images toy_serde no_file
      (scrub_user_message_images toy_serde no_file user_message "t").0
      "t"
    ≡ ((scrub_user_message_images toy_serde no_file user_message "t").0, 0, 0)
scrub_user_message_images-settles_example =
    scrub_user_message_images-settles toy_serde no_file "t" user_message
