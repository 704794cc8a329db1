-- ===== src/MessageFormat/Repair/Items.antt =====
-- Content items of src/message_format.rs: no issue exactly where the item is well formed, and a
-- well-formed item where all issues were repaired.
use context_guardian.Prelude.{
  ℕ, String, Bool, true, false, Option, none, some, ◌≡◌, refl, arith, eq_iff, is_empty, unwrap_or,
  eq_refl, ap,
}
use context_guardian.Json.{Value, string, object, Map, lookup, insert, remove, lookup_str}
use context_guardian.Json.Laws.{lookup-insert, lookup-remove}
use context_guardian.MessageFormat.Issue.{all_repaired}
use context_guardian.MessageFormat.Content.{
  text_item, require_text, match_item_type, typed_item, retype, require_field, reject_type,
  normalize_content_map, normalize_content_item,
}
use context_guardian.MessageFormat.Shape.{
  text_type, has_text, has_type, is_content_map, is_content_item,
}

-- `require_text` is silent exactly where there is a text, repairs into one, and keeps the type.
quiet-require_text :
    (idx : ℕ) (path : String) (map : Map)
    → is_empty (require_text idx path map).1 ≡ has_text "text" map
unfolding require_text
quiet-require_text idx path map = ground arith

unchanged-require_text :
    (idx : ℕ) (path : String) (map : Map)
    → has_text "text" map ≡ true
    → (require_text idx path map).0 ≡ map
unfolding require_text
unchanged-require_text idx path map h = ground arith

mended-require_text :
    (idx : ℕ) (path : String) (map : Map)
    → all_repaired (require_text idx path map).1 ≡ true
    → has_text "text" (require_text idx path map).0 ≡ true
unfolding require_text
mended-require_text idx path map r = ground (
  arith,
  lookup-insert "text" "text" (string (unwrap_or (lookup_str "content" map) ""))
      (remove "content" map),
)

has_type-require_text :
    (t : String) (idx : ℕ) (path : String) (map : Map)
    → has_type t (require_text idx path map).0 ≡ has_type t map
unfolding require_text
has_type-require_text t idx path map = ground (
  arith,
  lookup-insert "text" "type" (string (unwrap_or (lookup_str "content" map) ""))
      (remove "content" map),
  lookup-remove "content" "type" map,
)

-- `retype` always reports, and its result has the expected type.
quiet-retype :
    (idx : ℕ) (path e : String) (actual : Option Value) (map : Map)
    → is_empty (retype idx path e actual map).1 ≡ false
unfolding retype
quiet-retype idx path e actual map = refl

has_type-retype :
    (idx : ℕ) (path e : String) (actual : Option Value) (map : Map)
    → has_type e (retype idx path e actual map).0 ≡ true
unfolding retype
has_type-retype idx path e actual map =
    rw (has_type-require_text e idx path, lookup-insert, eq_refl)

mended-retype :
    (idx : ℕ) (path e : String) (actual : Option Value) (map : Map)
    → all_repaired (retype idx path e actual map).1 ≡ true
    → has_text "text" (retype idx path e actual map).0 ≡ true
unfolding retype
mended-retype idx path e actual map r =
    mended-require_text idx path (insert "type" (string e) map) r

quiet-typed_item :
    (a : Bool) (idx : ℕ) (path : String) (map : Map) (t : String)
    → lookup_str "type" map ≡ some t
    → is_empty (typed_item idx path (text_type a) map t).1 ≡ is_content_map a map
unfolding typed_item require_field reject_type is_content_map
quiet-typed_item true idx path map t h = ground (
  arith,
  eq_iff t "text",
  eq_iff t "input_text",
  eq_iff t "output_text",
  eq_iff t "refusal",
  eq_iff "output_text" "refusal",
  eq_iff "input_text" "refusal",
  eq_iff "text" "refusal",
  eq_iff "input_text" "output_text",
  eq_iff "output_text" "text",
  quiet-require_text idx path map,
  quiet-retype idx path "output_text" (lookup "type" map) map,
)
quiet-typed_item false idx path map t h = ground (
  arith,
  eq_iff t "text",
  eq_iff t "input_text",
  eq_iff t "output_text",
  eq_iff t "input_image",
  eq_iff "input_image" "text",
  eq_iff "input_image" "output_text",
  eq_iff "input_image" "input_text",
  eq_iff "input_text" "output_text",
  eq_iff "input_text" "text",
  quiet-require_text idx path map,
  quiet-retype idx path "input_text" (lookup "type" map) map,
)

unchanged-typed_item :
    (a : Bool) (idx : ℕ) (path : String) (map : Map) (t : String)
    → is_empty (typed_item idx path (text_type a) map t).1 ≡ true
    → (typed_item idx path (text_type a) map t).0 ≡ map
unfolding typed_item require_field reject_type
unchanged-typed_item true idx path map t q = ground (
  arith,
  quiet-require_text idx path map,
  unchanged-require_text idx path map,
  quiet-retype idx path "output_text" (lookup "type" map) map,
)
unchanged-typed_item false idx path map t q = ground (
  arith,
  quiet-require_text idx path map,
  unchanged-require_text idx path map,
  quiet-retype idx path "input_text" (lookup "type" map) map,
)

mended-typed_item :
    (a : Bool) (idx : ℕ) (path : String) (map : Map) (t : String)
    → lookup_str "type" map ≡ some t
    → all_repaired (typed_item idx path (text_type a) map t).1 ≡ true
    → is_content_map a (typed_item idx path (text_type a) map t).0 ≡ true
unfolding typed_item require_field reject_type is_content_map
mended-typed_item true idx path map t h r = ground (
  arith,
  mended-require_text idx path map,
  has_type-require_text "output_text" idx path map,
  has_type-retype idx path "output_text" (lookup "type" map) map,
  mended-retype idx path "output_text" (lookup "type" map) map,
)
mended-typed_item false idx path map t h r = ground (
  arith,
  mended-require_text idx path map,
  has_type-require_text "input_text" idx path map,
  has_type-retype idx path "input_text" (lookup "type" map) map,
  mended-retype idx path "input_text" (lookup "type" map) map,
)

quiet-match_item_type :
    (a : Bool) (idx : ℕ) (path : String) (map : Map) (t : Option String)
    → lookup_str "type" map ≡ t
    → is_empty (match_item_type idx path (text_type a) map t).1 ≡ is_content_map a map
unfolding match_item_type
quiet-match_item_type true idx path map none h =
    unfold is_content_map reject_type in
    ground (arith, quiet-retype idx path "output_text" none map)
quiet-match_item_type false idx path map none h =
    unfold is_content_map reject_type in ground (arith, quiet-retype idx path "input_text" none map)
quiet-match_item_type a idx path map (some t) h = quiet-typed_item a idx path map t h

unchanged-match_item_type :
    (a : Bool) (idx : ℕ) (path : String) (map : Map) (t : Option String)
    → is_empty (match_item_type idx path (text_type a) map t).1 ≡ true
    → (match_item_type idx path (text_type a) map t).0 ≡ map
unfolding match_item_type
unchanged-match_item_type a idx path map none q =
    unfold reject_type in ground (arith, quiet-retype idx path (text_type a) none map)
unchanged-match_item_type a idx path map (some t) q = unchanged-typed_item a idx path map t q

mended-match_item_type :
    (a : Bool) (idx : ℕ) (path : String) (map : Map) (t : Option String)
    → lookup_str "type" map ≡ t
    → all_repaired (match_item_type idx path (text_type a) map t).1 ≡ true
    → is_content_map a (match_item_type idx path (text_type a) map t).0 ≡ true
unfolding match_item_type
mended-match_item_type a idx path map none h r =
    unfold is_content_map reject_type in
    ground (
      arith,
      has_type-retype idx path (text_type a) none map,
      mended-retype idx path (text_type a) none map,
    )
mended-match_item_type a idx path map (some t) h r = mended-typed_item a idx path map t h r

pub is_content_item-text_item :
    (a : Bool) (s : String) → is_content_item a (text_item (text_type a) s) ≡ true
unfolding is_content_item is_content_map text_item insert lookup
is_content_item-text_item true s = refl
is_content_item-text_item false s = refl

module _ (a : Bool) (idx : ℕ) (path : String) where
  -- Items: no issue exactly where the item is well formed; then it is left alone.
  pub quiet-item :
      (item : Value)
      → is_empty (normalize_content_item idx path (text_type a) item).1 ≡ is_content_item a item
  unfolding normalize_content_item normalize_content_map is_content_item
  quiet-item (object map) = quiet-match_item_type a idx path map (lookup_str "type" map) refl
  quiet-item _ = refl

  pub unchanged-item :
      (item : Value)
      → is_empty (normalize_content_item idx path (text_type a) item).1 ≡ true
      → (normalize_content_item idx path (text_type a) item).0 ≡ item
  unfolding normalize_content_item normalize_content_map
  unchanged-item (object map) q =
      ap object (unchanged-match_item_type a idx path map (lookup_str "type" map) q)
  unchanged-item (string s) q = cc
  unchanged-item _ q = refl

  pub mended-item :
      (item : Value)
      → all_repaired (normalize_content_item idx path (text_type a) item).1 ≡ true
      → is_content_item a (normalize_content_item idx path (text_type a) item).0 ≡ true
  unfolding normalize_content_item normalize_content_map is_content_item
  mended-item (object map) r = mended-match_item_type a idx path map (lookup_str "type" map) refl r
  mended-item (string s) r = is_content_item-text_item a s
  mended-item _ r = cc
