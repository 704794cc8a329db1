-- ===== src/Capture/Schema/Limits.antt =====
-- The limits of `collect_schema` of src/passive_capture.rs.
use context_guardian.Prelude.{
  ℕ, suc, ◌+◌, ◌≤◌, ◌≡◌, refl, max, inl, inr, String, false, ◌||◌, Option, none, some, List, ltb,
  leb, length, length-append, Bool-cases, arith, ◌-◌, sym, bind_parts, none_apart, ◌<◌,
}
use context_guardian.Json.{Value, Items, Map, array, object, nil, cons, empty, entry}
use context_guardian.Capture.Schema.{
  SchemaField, max_schema_fields, max_schema_depth, push_field, collect_schema, collect_items,
  collect_entries, item_path, entry_path, [],
}

-- The number of values in a value, and how deep they are nested.
unfoldable mutual
  pub nodes : Value → ℕ
  nodes (array items) = 1 + item_nodes items
  nodes (object map) = 1 + entry_nodes map
  nodes value = 1

  pub item_nodes : Items → ℕ
  item_nodes nil = 0
  item_nodes (cons item items) = nodes item + item_nodes items

  pub entry_nodes : Map → ℕ
  entry_nodes empty = 0
  entry_nodes (entry name item map) = nodes item + entry_nodes map

unfoldable mutual
  pub height : Value → ℕ
  height (array items) = items_height items
  height (object map) = entries_height map
  height value = 0

  pub items_height : Items → ℕ
  items_height nil = 0
  items_height (cons item items) = max (suc (height item)) (items_height items)

  pub entries_height : Map → ℕ
  entries_height empty = 0
  entries_height (entry name item map) = max (suc (height item)) (entries_height map)

the_fields : (r s : List SchemaField) → some r ≡ some s → r ≡ s
the_fields r s h = cc

-- What it means that the fields of `size` values were added.
abbrev Added : ℕ → List SchemaField → List SchemaField → Type 0
Added size output result =
    (length result ≡ length output + size) × (length result ≤ max (length output) max_schema_fields)

Added-chain : (a b : ℕ) (x y z : List SchemaField) → Added a x y → Added b y z → Added (a + b) x z
Added-chain a b x y z first second = (ground arith, ground arith)

module _ (sha256_hex : List ℕ → String) where
  push_field-Added :
      (value : Value) (path : String) (key : Option String) (depth : ℕ)
      (output result : List SchemaField)
      → push_field sha256_hex value path key depth output ≡ some result
      → Added 1 output result × (depth ≤ max_schema_depth)
  unfolding push_field
  push_field-Added value path key depth output result pushed =
      elim (Bool-cases (ltb max_schema_depth depth || leb max_schema_fields (length output))) [
        | inl over ↦ absurd (none_apart (rw (over) at pushed))
        | inr fits ↦
            rw (sym (the_fields _ result (rw (fits) at pushed)), length-append)
              ((ground arith, ground arith), ground arith)
      ]

  mutual
    unfolding collect_schema nodes height

    collect_schema-Added :
        (value : Value) (path : String) (key : Option String) (depth : ℕ)
        (output result : List SchemaField)
        → collect_schema sha256_hex value path key depth output ≡ some result
        → Added (nodes value) output result × (depth + height value ≤ max_schema_depth)
    collect_schema-Added (array items) path key depth output result collected =
        let (pushed, there, behind) = bind_parts _ _ result collected in
        let first = push_field-Added (array items) path key depth output pushed there in
        let rest = collect_items-Added items path 0 (suc depth) pushed result behind in
        (Added-chain 1 (item_nodes items) output pushed result first.0 rest.0, ground arith)
    collect_schema-Added (object map) path key depth output result collected =
        let (pushed, there, behind) = bind_parts _ _ result collected in
        let first = push_field-Added (object map) path key depth output pushed there in
        let rest = collect_entries-Added map path (suc depth) pushed result behind in
        (Added-chain 1 (entry_nodes map) output pushed result first.0 rest.0, ground arith)
    collect_schema-Added value path key depth output result collected =
        let first = push_field-Added value path key depth output result collected in
        (first.0, omega arith)

    collect_items-Added :
        (items : Items) (path : String) (index depth : ℕ) (output result : List SchemaField)
        → collect_items sha256_hex items path index depth output ≡ some result
        → Added (item_nodes items) output result
          × (items_height items ≤ suc max_schema_depth - depth)
    collect_items-Added nil path index depth output result collected =
        rw (sym (the_fields output result collected)) ((omega arith, omega arith), omega arith)
    collect_items-Added (cons item items) path index depth output result collected =
        let (middle, there, behind) = bind_parts _ _ result collected in
        let first =
          collect_schema-Added item (item_path sha256_hex path index) none depth output middle
            there in
        let rest = collect_items-Added items path (suc index) depth middle result behind in
        (
          Added-chain (nodes item) (item_nodes items) output middle result first.0 rest.0,
          ground arith,
        )

    collect_entries-Added :
        (map : Map) (path : String) (depth : ℕ) (output result : List SchemaField)
        → collect_entries sha256_hex map path depth output ≡ some result
        → Added (entry_nodes map) output result
          × (entries_height map ≤ suc max_schema_depth - depth)
    collect_entries-Added empty path depth output result collected =
        rw (sym (the_fields output result collected)) ((omega arith, omega arith), omega arith)
    collect_entries-Added (entry name item map) path depth output result collected =
        let (middle, there, behind) = bind_parts _ _ result collected in
        let first =
          collect_schema-Added item (entry_path sha256_hex path name) (some name) depth output
            middle there in
        let rest = collect_entries-Added map path depth middle result behind in
        (
          Added-chain (nodes item) (entry_nodes map) output middle result first.0 rest.0,
          ground arith,
        )

  push_field_fits :
      (value : Value) (path : String) (key : Option String) (depth : ℕ) (output : List SchemaField)
      → length output < max_schema_fields
      → depth ≤ max_schema_depth
      → (result : List SchemaField) × (push_field sha256_hex value path key depth output
          ≡ some result)
  unfolding push_field
  push_field_fits value path key depth output few low =
      let fits : (ltb max_schema_depth depth || leb max_schema_fields (length output)) ≡ false =
        ground arith in
      rw (fits) (_, refl)

  mutual
    unfolding collect_schema nodes height

    collect_schema_fits :
        (value : Value) (path : String) (key : Option String) (depth : ℕ)
        (output : List SchemaField)
        → length output + nodes value ≤ max_schema_fields
        → depth + height value ≤ max_schema_depth
        → (result : List SchemaField) × (collect_schema sha256_hex value path key depth output
            ≡ some result)
    collect_schema_fits (array items) path key depth output few low =
        let (pushed, there) =
          push_field_fits (array items) path key depth output (omega arith) (omega arith) in
        let added = push_field-Added (array items) path key depth output pushed there in
        let (result, behind) =
          collect_items_fits items path 0 (suc depth) pushed (ground arith) (omega arith) in
        (result, rw (there) behind)
    collect_schema_fits (object map) path key depth output few low =
        let (pushed, there) =
          push_field_fits (object map) path key depth output (omega arith) (omega arith) in
        let added = push_field-Added (object map) path key depth output pushed there in
        let (result, behind) =
          collect_entries_fits map path (suc depth) pushed (ground arith) (omega arith) in
        (result, rw (there) behind)
    collect_schema_fits value path key depth output few low =
        push_field_fits value path key depth output (omega arith) (omega arith)

    collect_items_fits :
        (items : Items) (path : String) (index depth : ℕ) (output : List SchemaField)
        → length output + item_nodes items ≤ max_schema_fields
        → items_height items ≤ suc max_schema_depth - depth
        → (result : List SchemaField) × (collect_items sha256_hex items path index depth output
            ≡ some result)
    collect_items_fits nil path index depth output few low = (output, refl)
    collect_items_fits (cons item items) path index depth output few low =
        let (middle, there) =
          collect_schema_fits item (item_path sha256_hex path index) none depth output (omega arith)
            (omega arith) in
        let added =
          collect_schema-Added item (item_path sha256_hex path index) none depth output middle
            there in
        let (result, behind) =
          collect_items_fits items path (suc index) depth middle (ground arith) (omega arith) in
        (result, rw (there) behind)

    collect_entries_fits :
        (map : Map) (path : String) (depth : ℕ) (output : List SchemaField)
        → length output + entry_nodes map ≤ max_schema_fields
        → entries_height map ≤ suc max_schema_depth - depth
        → (result : List SchemaField) × (collect_entries sha256_hex map path depth output
            ≡ some result)
    collect_entries_fits empty path depth output few low = (output, refl)
    collect_entries_fits (entry name item map) path depth output few low =
        let (middle, there) =
          collect_schema_fits item (entry_path sha256_hex path name) (some name) depth output
            (omega arith) (omega arith) in
        let added =
          collect_schema-Added item (entry_path sha256_hex path name) (some name) depth output
            middle there in
        let (result, behind) =
          collect_entries_fits map path depth middle (ground arith) (omega arith) in
        (result, rw (there) behind)

  -- The schema of a body has a field for each of its values, at most as many as the limit allows, and
  -- the body is nested at most as deep as allowed.
  pub collect_schema_bounds :
      (value : Value) (result : List SchemaField)
      → collect_schema sha256_hex value "$" none 0 [] ≡ some result
      → (length result ≡ nodes value)
        × (nodes value ≤ max_schema_fields)
        × (height value ≤ max_schema_depth)
  collect_schema_bounds value result collected =
      let added = collect_schema-Added value "$" none 0 [] result collected in
      (omega arith, omega arith, omega arith)

  -- A body within the limits on the number of its values and on their nesting gets a schema.
  pub collect_schema_answers :
      (value : Value)
      → nodes value ≤ max_schema_fields
      → height value ≤ max_schema_depth
      → (result : List SchemaField) × (collect_schema sha256_hex value "$" none 0 [] ≡ some result)
  collect_schema_answers value few low =
      collect_schema_fits value "$" none 0 [] (omega arith) (omega arith)
