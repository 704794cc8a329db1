-- ===== src/Rollout/Images/Unchanged.antt =====
-- Values from which `scrub_inline_images` of src/main.rs removes nothing.
use mathlib.Core.Path.{ap₂}
use text.Mathlib.TextPositions.{len_utf8-pos}
use Prim.Native.String.len
use Prim.Native.String.{len}
use context_guardian.Prelude.{
  ℕ, ◌+◌, ◌<◌, String, true, Option, List, [], ◌∷◌, is_some, strip_prefix, All, ◌⊎◌, ◌≡◌, refl, sym,
  ap, arith, inl, inr, Bool-cases, Option-cases, Bool-apart,
}
use context_guardian.Json.{
  Value, Items, Map, string, array, object, nil, cons, empty, entry, lookup_str, is_text,
}
use context_guardian.Rollout.Images.{
  Replacement, keep, by_text, descend, data_image_spans, uri_bytes, scrub_data_image_text,
  replace_url, image_item, scrubbed_item, scrub_inline_images, scrub_map, scrub_items,
  is_image_placeholder,
}
use context_guardian.Rollout.Images.Parts.{data_image_spans-AreSpans}

len_starts : (s : String) → is_some (strip_prefix "data:image" s) ≡ true → 0 < len s
unfolding strip_prefix
len_starts String.[] starts = absurd (Bool-apart (sym starts))
len_starts (String.◌∷◌ c s) starts =
    let (k, size) = len_utf8-pos c in omega (arith, len.cons c s, size)

spans_cases :
    (spans : List (String × String))
    → (spans ≡ [])
      ⊎ ((span : String × String) × (others : List (String × String)) × (spans ≡ span ∷ others))
spans_cases [] = inl refl
spans_cases (span ∷ others) = inr (span, others, refl)

module _ (publish_data_uri : String → Option String) (thread_id image_path : String) where
  abbrev scrub : Value → Value × ℕ
  scrub = scrub_inline_images publish_data_uri thread_id image_path

  scrub_text-unchanged :
      (text : String) → (scrub (string text)).1 ≡ 0 → (scrub (string text)).0 ≡ string text
  unfolding scrub_inline_images scrub_data_image_text uri_bytes
  scrub_text-unchanged text nothing = elim (spans_cases (data_image_spans text).0) [
    | inl none_found ↦ rw (none_found, scrub_data_image_text) refl
    | inr (span, others, found) ↦
        let starts : All (λ s. is_some (strip_prefix "data:image" s.1) ≡ true) (span ∷ others) =
          rw (found) at (data_image_spans-AreSpans text).1 in
        let removed : len span.1 + uri_bytes others ≡ 0 =
          rw (found, scrub_data_image_text) at nothing in
        absurd (omega (arith, len_starts span.1 starts.0))
  ]

  abbrev counted : Replacement → ℕ
  counted (by_text text removed) = removed
  counted other = 1

  keep_apart : (text : String) (removed : ℕ) → keep ≡ by_text text removed → ⊥
  keep_apart text removed h = cc

  replace_url_counts :
      (image_url : String)
      → 0 < counted (replace_url publish_data_uri thread_id image_path image_url)
  unfolding replace_url
  replace_url_counts image_url = elim (Bool-cases (is_some (strip_prefix "data:image" image_url))) [
    | inl inline ↦ elim (Option-cases (publish_data_uri image_url)) [
      | inl refused ↦ rw (inline, replace_url, refused) (len_starts image_url inline)
      | inr (url, published) ↦ rw (inline, replace_url, published) (len_starts image_url inline)
    ]
    | inr other ↦ elim (Bool-cases (is_image_placeholder image_url)) [
      | inl known ↦ rw (other, replace_url, known) (omega arith)
      | inr unknown ↦ rw (other, replace_url, unknown) (omega arith)
    ]
  ]

  image_item_counts :
      (map : Map) → 0 < counted (image_item publish_data_uri thread_id image_path map)
  unfolding image_item
  image_item_counts map = elim (Bool-cases (is_text "input_image" (lookup_str "type" map))) [
    | inr other ↦ rw (other, image_item) (omega arith)
    | inl image ↦ elim (Option-cases (lookup_str "image_url" map)) [
      | inl absent ↦ rw (image, image_item, absent) (omega arith)
      | inr (image_url, there) ↦ rw (image, image_item, there) (replace_url_counts image_url)
    ]
  ]

  scrubbed_item-unchanged :
      (map : Map) (children : Map × ℕ) (replacement : Replacement)
      → 0 < counted replacement
      → (children.1 ≡ 0 → children.0 ≡ map)
      → (scrubbed_item publish_data_uri thread_id image_path map children replacement).1 ≡ 0
      → (scrubbed_item publish_data_uri thread_id image_path map children replacement).0
        ≡ object map
  scrubbed_item-unchanged map children keep counts below nothing = refl
  scrubbed_item-unchanged map children (by_text text removed) counts below nothing =
      absurd (omega arith)
  scrubbed_item-unchanged map children descend counts below nothing = ap object (below nothing)

  mutual
    unfolding scrub_inline_images

    scrub-unchanged : (value : Value) → (scrub value).1 ≡ 0 → (scrub value).0 ≡ value
    scrub-unchanged (string text) nothing = scrub_text-unchanged text nothing
    scrub-unchanged (object map) nothing =
        scrubbed_item-unchanged map (scrub_map publish_data_uri thread_id image_path map)
          (image_item publish_data_uri thread_id image_path map) (image_item_counts map)
          (scrub_map-unchanged map) nothing
    scrub-unchanged (array items) nothing = ap array (scrub_items-unchanged items nothing)
    scrub-unchanged value nothing = refl

    scrub_map-unchanged :
        (map : Map)
        → (scrub_map publish_data_uri thread_id image_path map).1 ≡ 0
        → (scrub_map publish_data_uri thread_id image_path map).0 ≡ map
    scrub_map-unchanged empty nothing = refl
    scrub_map-unchanged (entry key value map) nothing =
        ap₂ (entry key) (scrub-unchanged value (omega arith))
          (scrub_map-unchanged map (omega arith))

    scrub_items-unchanged :
        (items : Items)
        → (scrub_items publish_data_uri thread_id image_path items).1 ≡ 0
        → (scrub_items publish_data_uri thread_id image_path items).0 ≡ items
    scrub_items-unchanged nil nothing = refl
    scrub_items-unchanged (cons item items) nothing =
        ap₂ cons (scrub-unchanged item (omega arith)) (scrub_items-unchanged items (omega arith))

  -- A value of which nothing is counted as removed is left exactly as it is.
  pub scrub_inline_images-unchanged :
      (value : Value)
      → (scrub_inline_images publish_data_uri thread_id image_path value).1 ≡ 0
      → (scrub_inline_images publish_data_uri thread_id image_path value).0 ≡ value
  scrub_inline_images-unchanged = scrub-unchanged
