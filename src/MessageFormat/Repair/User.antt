-- ===== src/MessageFormat/Repair/User.antt =====
-- User messages: no issue exactly where they are well formed, and well-formed ones where all
-- issues were repaired.
use context_guardian.Prelude.{
  ℕ, String, Bool, true, false, not, ◌&&◌, List, [], ◌∷◌, ◌≡◌, refl, ◌∙◌, arith, ◌==◌, eq_iff,
  is_empty, is_empty-append, &&-true, is_empty-parts, all-parts, map,
}
use context_guardian.Json.{Map, lookup}
use context_guardian.MessageFormat.Issue.{all_repaired, is_repaired}
use context_guardian.MessageFormat.Message.{diagnose_summary}
use context_guardian.MessageFormat.Repair.Message.{
  quiet-summary, unchanged-summary, mended-summary, kept-summary,
}
use context_guardian.MessageFormat.Record.{
  is_array, check_list, diagnose_list_field, diagnose_list_fields, diagnose_user_payload,
  list_fields,
}
use context_guardian.MessageFormat.Shape.{is_absent_or_array, is_user_message}
use context_guardian.MessageFormat.Repair.Field.{
  quiet-optional_field, unchanged-with_field, mended-optional_field, kept-with_field,
}

module _ (idx : ℕ) (field : String) (map : Map) where
  quiet-list_field : is_empty (diagnose_list_field idx field map).1 ≡ is_absent_or_array field map
  unfolding diagnose_list_field check_list
  quiet-list_field = quiet-optional_field _ _ _ map is_array refl (λ v. ground arith)

  unchanged-list_field :
      is_empty (diagnose_list_field idx field map).1 ≡ true
      → (diagnose_list_field idx field map).0 ≡ map
  unfolding diagnose_list_field check_list
  unchanged-list_field = unchanged-with_field _ _ _ map (λ v q. ground arith)

  mended-list_field :
      all_repaired (diagnose_list_field idx field map).1 ≡ true
      → is_absent_or_array field (diagnose_list_field idx field map).0 ≡ true
  unfolding diagnose_list_field check_list
  mended-list_field = mended-optional_field _ _ _ map is_array (λ v r. ground arith)

  kept-list_field :
      (k : String)
      → (field == k) ≡ false
      → lookup k (diagnose_list_field idx field map).0 ≡ lookup k map
  unfolding diagnose_list_field
  kept-list_field = kept-with_field _ _ _ map

-- The three fields in turn.
abbrev are_lists : List String → Map → Bool
are_lists [] map = true
are_lists (field ∷ fields) map = is_absent_or_array field map && are_lists fields map

is_absent_or_array-of :
    (k : String) (after map : Map)
    → lookup k after ≡ lookup k map
    → is_absent_or_array k after ≡ is_absent_or_array k map
is_absent_or_array-of k after map h = rw (h, is_absent_or_array)

-- No two of the fields have one name.
abbrev lacks_key : String → List String → Bool
lacks_key k [] = true
lacks_key k (field ∷ fields) = not (field == k) && lacks_key k fields

abbrev are_apart : List String → Bool
are_apart [] = true
are_apart (field ∷ fields) = lacks_key field fields && are_apart fields

module _ (idx : ℕ) where
  unchanged-list_fields :
      (fields : List String) (map : Map)
      → is_empty (diagnose_list_fields idx fields map).1 ≡ true
      → (diagnose_list_fields idx fields map).0 ≡ map
  unfolding diagnose_list_fields
  unchanged-list_fields [] map q = refl
  unchanged-list_fields (field ∷ fields) map q =
      let after = (diagnose_list_field idx field map).0 in
      let (front, rest) =
        is_empty-parts (diagnose_list_field idx field map).1
          (diagnose_list_fields idx fields after).1 q in
      unchanged-list_fields fields after rest ∙ unchanged-list_field idx field map front

  kept-list_fields :
      (fields : List String) (map : Map) (k : String)
      → lacks_key k fields ≡ true
      → lookup k (diagnose_list_fields idx fields map).0 ≡ lookup k map
  unfolding diagnose_list_fields
  kept-list_fields [] map k h = refl
  kept-list_fields (field ∷ fields) map k h = ground (
    arith,
    kept-list_fields fields (diagnose_list_field idx field map).0 k,
    kept-list_field idx field map k,
  )

  are_lists-of :
      (fields : List String) (field : String) (map : Map)
      → lacks_key field fields ≡ true
      → are_lists fields (diagnose_list_field idx field map).0 ≡ are_lists fields map
  are_lists-of [] field map h = refl
  are_lists-of (next ∷ fields) field map h = ground (
    arith,
    eq_iff next field,
    eq_iff field next,
    is_absent_or_array-of next (diagnose_list_field idx field map).0 map,
    kept-list_field idx field map next,
    are_lists-of fields field map,
  )

  quiet-list_fields :
      (fields : List String) (map : Map)
      → are_apart fields ≡ true
      → is_empty (diagnose_list_fields idx fields map).1 ≡ are_lists fields map
  unfolding diagnose_list_fields
  quiet-list_fields [] map h = refl
  quiet-list_fields (field ∷ fields) map h =
      let (apart, rest) = &&-true (lacks_key field fields) (are_apart fields) h in
      rw (
        is_empty-append,
        quiet-list_field idx field map,
        quiet-list_fields fields (diagnose_list_field idx field map).0 rest,
        are_lists-of fields field map apart,
      )

  mended-list_fields :
      (fields : List String) (map : Map)
      → are_apart fields ≡ true
      → all_repaired (diagnose_list_fields idx fields map).1 ≡ true
      → are_lists fields (diagnose_list_fields idx fields map).0 ≡ true
  unfolding diagnose_list_fields
  mended-list_fields [] map h r = refl
  mended-list_fields (field ∷ fields) map h r =
      let (apart, others) = &&-true (lacks_key field fields) (are_apart fields) h in
      let after = (diagnose_list_field idx field map).0 in
      let (front, rest) =
        all-parts is_repaired (diagnose_list_field idx field map).1
          (diagnose_list_fields idx fields after).1 r in
      rw
        (
          is_absent_or_array-of field (diagnose_list_fields idx fields after).0 after
              (kept-list_fields fields after field apart),
          mended-list_field idx field map front,
        )
        (mended-list_fields fields after others rest)

module _ (idx : ℕ) (payload : Map) where
  pub quiet-user_payload : is_empty (diagnose_user_payload idx payload).1 ≡ is_user_message payload
  unfolding diagnose_user_payload is_user_message
  quiet-user_payload =
      let after = (diagnose_summary idx payload).0 in
      rw (
        is_empty-append,
        quiet-summary idx payload,
        quiet-list_fields idx list_fields after refl,
        is_absent_or_array-of "images" after payload (kept-summary idx payload "images" refl),
        is_absent_or_array-of "local_images" after payload
            (kept-summary idx payload "local_images" refl),
        is_absent_or_array-of "text_elements" after payload
            (kept-summary idx payload "text_elements" refl),
      )

  pub unchanged-user_payload :
      is_empty (diagnose_user_payload idx payload).1 ≡ true
      → (diagnose_user_payload idx payload).0 ≡ payload
  unfolding diagnose_user_payload
  unchanged-user_payload q =
      let after = (diagnose_summary idx payload).0 in
      let (front, rest) =
        is_empty-parts (diagnose_summary idx payload).1
          (diagnose_list_fields idx list_fields after).1 q in
      unchanged-list_fields idx list_fields after rest ∙ unchanged-summary idx payload front

  pub kept-user_payload :
      lookup "type" (diagnose_user_payload idx payload).0 ≡ lookup "type" payload
  unfolding diagnose_user_payload
  kept-user_payload =
      kept-list_fields idx list_fields (diagnose_summary idx payload).0 "type" refl
      ∙ kept-summary idx payload "type" refl

  pub mended-user_payload :
      all_repaired (diagnose_user_payload idx payload).1 ≡ true
      → is_user_message (diagnose_user_payload idx payload).0 ≡ true
  unfolding diagnose_user_payload is_user_message
  mended-user_payload r =
      let checked = (diagnose_summary idx payload).0 in
      let after = (diagnose_list_fields idx list_fields checked).0 in
      let (front, rest) =
        all-parts is_repaired (diagnose_summary idx payload).1
          (diagnose_list_fields idx list_fields checked).1 r in
      rw (kept-list_fields idx list_fields checked "message" refl, mended-summary idx payload front)
        (mended-list_fields idx list_fields checked refl rest)
