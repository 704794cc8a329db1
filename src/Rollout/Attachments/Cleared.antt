-- ===== src/Rollout/Attachments/Cleared.antt =====
-- The fields from which `scrub_user_message_images` of src/main.rs took the images.
use context_guardian.Prelude.{
  ◌+s◌, ℕ, String, Bool, true, false, Option, none, some, ◌>>=◌, List, [], if◌then◌else◌, ◌==◌,
  length, ◌≡◌, refl, sym, ap, ◌∙◌, inl, inr, Bool-cases, Option-cases, Bool-apart, eq_refl,
  none_apart,
}
use context_guardian.Json.{
  Value, Items, Map, null, boolean, number, string, array, object, nil, cons, lookup, as_array,
  insert,
}
use context_guardian.Json.Laws.{lookup-insert, lookup-replace}
use context_guardian.MessageFormat.Message.{Serde}
use context_guardian.Rollout.Attachments.{
  clear_field, placeholders_of, append_user_image_placeholder_note, noted, note_of, items_of, trim,
  contains_text,
}

-- There is no array with items.
abbrev no_items : Option Value → Bool
no_items (some (array (cons item items))) = false
no_items value = true

the_items : (p q : Items) → some p ≡ some q → p ≡ q
the_items p q h = cc

not_array : (value : Value) → as_array value ≡ none → no_items (some value) ≡ true
not_array (array items) h = absurd (none_apart (sym h))
not_array null h = refl
not_array (boolean b) h = refl
not_array (number n) h = refl
not_array (string text) h = refl
not_array (object map) h = refl

empty_array :
    (value : Value) (items : Items)
    → as_array value ≡ some items
    → no_items (some value) ≡ true
    → items ≡ nil
empty_array (array nil) items h nothing = sym (the_items nil items h)
empty_array (array (cons item others)) items h nothing = absurd (Bool-apart (sym nothing))
empty_array null items h nothing = absurd (none_apart h)
empty_array (boolean b) items h nothing = absurd (none_apart h)
empty_array (number n) items h nothing = absurd (none_apart h)
empty_array (string text) items h nothing = absurd (none_apart h)
empty_array (object map) items h nothing = absurd (none_apart h)

module _ (serde : Serde) (file_length : String → Option ℕ) (thread_id : String) where
  abbrev pub clear : String → Map × List String × ℕ → Map × List String × ℕ
  clear = clear_field serde file_length thread_id

  -- Other keys keep their values.
  pub lookup-clear :
      (field key : String) (st : Map × List String × ℕ)
      → field == key ≡ false
      → lookup key (clear field st).0 ≡ lookup key st.0
  unfolding clear_field
  lookup-clear field key (payload, so_far, removed) other =
      elim (Option-cases (do value ← lookup field payload; as_array value)) [
        | inl absent ↦ rw (absent, clear_field) refl
        | inr (items, there) ↦
            rw (there, clear_field, lookup-replace field key (array nil) payload, other) refl
      ]

  -- Nothing is left in the field.
  clear_clears :
      (field : String) (st : Map × List String × ℕ)
      → no_items (lookup field (clear field st).0) ≡ true
  unfolding clear_field
  clear_clears field (payload, so_far, removed) = elim (Option-cases (lookup field payload)) [
    | inl missing ↦ rw (missing, clear_field) (rw (missing) refl)
    | inr (value, there) ↦ elim (Option-cases (as_array value)) [
      | inl other ↦ rw (there, clear_field, other) (rw (there) (not_array value other))
      | inr (items, listed) ↦
          rw
            (
              there,
              clear_field,
              listed,
              lookup-replace field field (array nil) payload,
              eq_refl field,
              there,
            )
            refl
    ]
  ]

  -- Where nothing is in the field, nothing is added.
  clear_idle :
      (field : String) (payload : Map) (so_far : List String) (removed : ℕ)
      → so_far ≡ []
      → no_items (lookup field payload) ≡ true
      → (clear field (payload, so_far, removed)).1 ≡ []
  unfolding clear_field placeholders_of
  clear_idle field payload so_far removed none_yet nothing =
      elim (Option-cases (lookup field payload)) [
        | inl missing ↦ rw (missing, clear_field) none_yet
        | inr (value, there) ↦ elim (Option-cases (as_array value)) [
          | inl other ↦ rw (there, clear_field, other) none_yet
          | inr (items, listed) ↦
              rw
                (
                  there,
                  clear_field,
                  listed,
                  empty_array value items listed (rw (there) at nothing),
                  placeholders_of,
                  none_yet,
                )
                refl
        ]
      ]

  lookup-noted :
      (key note : String) (payload : Map) (message : Option Value)
      → "message" == key ≡ false
      → lookup key (noted serde file_length message payload note) ≡ lookup key payload
  lookup-noted key note payload none other =
      rw (lookup-insert "message" key (string (trim note)) payload, other) refl
  lookup-noted key note payload (some (string message)) other =
      elim (Bool-cases (contains_text message "payload.image_placeholders")) [
        | inl there ↦ rw (there) refl
        | inr new ↦
            rw (new, lookup-replace "message" key (string (message +s note)) payload, other) refl
      ]
  lookup-noted key note payload (some value) other =
      rw (lookup-insert "message" key (string (trim note)) payload, other) refl

  -- The payload at the end of a run that found images.
  abbrev pub finished : Map → List String → Map
  finished payload placeholders =
      append_user_image_placeholder_note serde file_length
        (insert "image_placeholders" (array (items_of serde file_length placeholders)) payload)
        (length placeholders)

  pub lookup-finished :
      (key : String) (payload : Map) (placeholders : List String)
      → "message" == key ≡ false
      → "image_placeholders" == key ≡ false
      → lookup key (finished payload placeholders) ≡ lookup key payload
  unfolding append_user_image_placeholder_note
  lookup-finished key payload placeholders other another =
      let inserted =
        insert "image_placeholders" (array (items_of serde file_length placeholders)) payload in
      lookup-noted key (note_of serde file_length (length placeholders)) inserted
        (lookup "message" inserted) other
      ∙ lookup-insert "image_placeholders" key (array (items_of serde file_length placeholders))
          payload
      ∙ ap
          (λ b.
            if b
            then some (array (items_of serde file_length placeholders))
            else lookup key payload)
          another

  -- Both fields of the payload, one after the other.
  abbrev pub clear_both : Map → Map × List String × ℕ
  clear_both payload = clear "local_images" (clear "images" (payload, [], 0))

  -- The payload of a message from which both were taken.
  abbrev pub settled : Map → Map
  settled payload = finished (clear_both payload).0 (clear_both payload).1

  -- A second run finds nothing.
  pub clear_both-settled : (payload : Map) → (clear_both (settled payload)).1 ≡ []
  clear_both-settled payload =
      let first = clear "images" (payload, [], 0) in
      let images : no_items (lookup "images" (settled payload)) ≡ true =
        rw
          (
            lookup-finished "images" (clear_both payload).0 (clear_both payload).1 refl refl,
            lookup-clear "local_images" "images" first refl,
          )
          (clear_clears "images" (payload, [], 0)) in
      let locals : no_items (lookup "local_images" (settled payload)) ≡ true =
        rw (lookup-finished "local_images" (clear_both payload).0 (clear_both payload).1 refl refl)
          (clear_clears "local_images" first) in
      let again = clear "images" (settled payload, [], 0) in
      let none_yet : again.1 ≡ [] = clear_idle "images" (settled payload) [] 0 refl images in
      let kept : no_items (lookup "local_images" again.0) ≡ true =
        rw (lookup-clear "images" "local_images" (settled payload, [], 0) refl) locals in
      clear_idle "local_images" again.0 again.1 again.2 none_yet kept
