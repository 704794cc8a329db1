-- ===== src/Capture/Differences.antt =====
-- The differences of two schemas, in src/passive_capture.rs.
pub mod Paths
pub mod Explained
use Prim.Native.String.{compare as compare_text}
use context_guardian.Prelude.{
  ℕ, Ordering, String, Bool, true, false, not, ◌&&◌, ◌||◌, Option, none, some, List, [], ◌∷◌, ◌++◌,
  map, ◌==◌, if◌then◌else◌, is_some, any, ◌+s◌, Assoc, find, put, strip_prefix, split_once,
}
use mathlib.Core.List.{foldl}
use context_guardian.Rollout.Evidence.{SchemaDifference, ends_with, contains_text}
use context_guardian.Capture.Schema.{SchemaField, one_of}

-- `iter().map(…).collect::<HashMap<_, _>>()`: of two fields with one path the later one stays.
unfoldable pub put_field : Assoc SchemaField → SchemaField → Assoc SchemaField
put_field fields field = put field.path field fields

unfoldable pub field_map : List SchemaField → Assoc SchemaField
field_map fields = foldl put_field [] fields

abbrev pub keys : Assoc SchemaField → List String
keys fields = map (λ entry. entry.0) fields

-- `sort_unstable` and `dedup`
abbrev pub text_le : String → String → Bool
text_le x y = elim (compare_text x y) [ Ordering.gt ↦ false | _ ↦ true ]

unfoldable pub insert_text : String → List String → List String
insert_text x [] = x ∷ []
insert_text x (y ∷ ys) = let rest = insert_text x ys in if text_le x y then x ∷ y ∷ ys else y ∷ rest

unfoldable pub sort_texts : List String → List String
sort_texts [] = []
sort_texts (x ∷ xs) = insert_text x (sort_texts xs)

unfoldable pub put_apart : String → List String → List String
put_apart x [] = x ∷ []
put_apart x (y ∷ ys) = if x == y then y ∷ ys else x ∷ y ∷ ys

unfoldable pub dedup : List String → List String
dedup [] = []
dedup (x ∷ xs) = put_apart x (dedup xs)

abbrev pub all_paths : Assoc SchemaField → Assoc SchemaField → List String
all_paths success failure = dedup (sort_texts (keys success ++ keys failure))

abbrev starts_child : Option String → Bool
starts_child none = false
starts_child (some suffix) = is_some (strip_prefix "." suffix) || is_some (strip_prefix "[" suffix)

unfoldable pub is_descendant_path : String → String → Bool
is_descendant_path path root = starts_child (strip_prefix root path)

abbrev is_array : Option SchemaField → Bool
is_array none = false
is_array (some field) = field.value_type == "array"

unfoldable pub is_array_sequence_variation : String → Assoc SchemaField → Assoc SchemaField → Bool
is_array_sequence_variation path success failure = elim (split_once "[" path) [
  | none ↦ false
  | some (array_path, rest) ↦
      is_array (find array_path success) && is_array (find array_path failure)
]

unfoldable pub field_signature : SchemaField → String
field_signature field = elim field.safe_enum [
  | none ↦ field.value_type
  | some word ↦ field.value_type +s ":" +s word
]

abbrev signature_of : Option SchemaField → String
signature_of none = "missing"
signature_of (some field) = field_signature field

abbrev is_text_word : Option String → Bool
is_text_word none = false
is_text_word (some word) = one_of word ("input_text" ∷ "output_text" ∷ [])

unfoldable pub is_known_type_change : String → SchemaField → SchemaField → Bool
is_known_type_change path good bad =
    ((ends_with path ".replacement_history" || ends_with path ".content")
      && ((good.value_type == "array") && (bad.value_type == "string")))
    || ((ends_with path ".arguments"
          && ((good.value_type == "string") && one_of bad.value_type ("object" ∷ "array" ∷ [])))
        || ((contains_text path ".content["
              && ((good.value_type == "object") && (bad.value_type == "string")))
            || (ends_with path ".output"
                && (one_of good.value_type ("string" ∷ "array" ∷ [])
                    && one_of bad.value_type ("object" ∷ "array" ∷ [])))))

unfoldable pub is_known_enum_change : String → SchemaField → SchemaField → Bool
is_known_enum_change path good bad =
    ends_with path ".type"
    && ((good.value_type == "string")
        && ((bad.value_type == "string")
            && (is_text_word good.safe_enum && is_text_word bad.safe_enum)))

unfoldable pub classify_difference : String → Option SchemaField → Option SchemaField → String
classify_difference path (some good) (some bad) =
    if is_known_type_change path good bad || is_known_enum_change path good bad
    then "lossless_known_transform"
    else "ambiguous"
classify_difference path good bad = "ambiguous"

abbrev word_eq : Option String → Option String → Bool
word_eq none none = true
word_eq (some a) (some b) = a == b
word_eq _ _ = false

unfoldable pub is_same : Option SchemaField → Option SchemaField → Bool
is_same (some good) (some bad) =
    (good.value_type == bad.value_type) && word_eq good.safe_enum bad.safe_enum
is_same good bad = false

abbrev pub lossless : String
lossless = "lossless_known_transform"

module _ (success failure : Assoc SchemaField) where
  abbrev pub is_transform_root : String → Bool
  is_transform_root path =
      classify_difference path (find path success) (find path failure) == "lossless_known_transform"

  -- `filter_map(…).collect()`
  unfoldable pub known_transform_roots : List String → List String
  known_transform_roots [] = []
  known_transform_roots (path ∷ paths) =
      let roots = known_transform_roots paths in
      if is_transform_root path then path ∷ roots else roots

  -- The test in the loop on what the roots or the lengths of arrays account for.
  unfoldable pub is_accounted : List String → String → Bool
  is_accounted roots path =
      any (λ root. not (path == root) && is_descendant_path path root) roots
      || ((not (is_some (find path success)) || not (is_some (find path failure)))
          && is_array_sequence_variation path success failure)

  unfoldable pub difference_at : String → SchemaDifference
  difference_at path = record {
    path = path;
    successful_type = signature_of (find path success);
    failing_type = signature_of (find path failure);
    classification = classify_difference path (find path success) (find path failure);
  }

  -- The loop over the paths.
  unfoldable pub differences_from : List String → List String → List SchemaDifference
  differences_from roots [] = []
  differences_from roots (path ∷ paths) =
      let differences = differences_from roots paths in
      if is_same (find path success) (find path failure)
      then differences
      else if is_accounted roots path
      then differences
      else difference_at path ∷ differences

unfoldable pub schema_differences : List SchemaField → List SchemaField → List SchemaDifference
schema_differences success failure =
    let good = field_map success in
    let bad = field_map failure in
    let paths = all_paths good bad in
    differences_from good bad (known_transform_roots good bad paths) paths
