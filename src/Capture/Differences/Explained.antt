-- ===== src/Capture/Differences/Explained.antt =====
-- What the result of `schema_differences` in src/passive_capture.rs tells of the two schemas.
use context_guardian.Prelude.{
  String, Bool, true, not, ◌&&◌, ◌||◌, none, some, List, [], ◌∷◌, inl, inr, ◌⊎◌, any, all, ◌==◌,
  is_some, Assoc, find, All, All-implies, Bool-cases, Option-cases, ◌≡◌, refl, sym, eq_iff, eq_refl,
  arith, Bool-apart, ◌∙◌, &&-true, all-any,
}
use context_guardian.Capture.Schema.{SchemaField}
use context_guardian.Rollout.Evidence.{SchemaDifference}
use context_guardian.Capture.Differences.{
  keys, all_paths, is_same, is_accounted, is_transform_root, is_descendant_path,
  is_array_sequence_variation, known_transform_roots, difference_at, differences_from,
  schema_differences, field_map,
}
use context_guardian.Capture.Differences.Paths.{any-all_paths, all_paths-All, any-keys}

abbrev IsFound : Assoc SchemaField → String → Type 0
IsFound fields path = is_some (find path fields) ≡ true

keys-IsFound : (fields : Assoc SchemaField) → All (IsFound fields) (keys fields)
unfolding find
keys-IsFound [] = tt
keys-IsFound ((key, field) ∷ fields) = (
  rw (eq_refl key) refl,
  All-implies (IsFound fields) (IsFound ((key, field) ∷ fields)) (λ path found. ground arith)
      (keys fields) (keys-IsFound fields),
)

is_same_itself : (field : SchemaField) → is_same (some field) (some field) ≡ true
unfolding is_same
is_same_itself field = elim (Option-cases field.safe_enum) [
  | inl absent ↦ rw (absent, eq_refl field.value_type) refl
  | inr (word, there) ↦ rw (there, eq_refl field.value_type, eq_refl word) refl
]

is_same-IsFound :
    (fields : Assoc SchemaField) (path : String)
    → IsFound fields path
    → is_same (find path fields) (find path fields) ≡ true
is_same-IsFound fields path found = elim (Option-cases (find path fields)) [
  | inl absent ↦ absurd (Bool-apart (sym (rw (absent) at found)))
  | inr (field, there) ↦ rw (there) (is_same_itself field)
]

abbrev pub is_lossless : SchemaDifference → Bool
is_lossless difference = difference.classification == "lossless_known_transform"

module _ (success failure : Assoc SchemaField) where
  differences_from_same :
      (roots paths : List String)
      → All (λ path. is_same (find path success) (find path failure) ≡ true) paths
      → differences_from success failure roots paths ≡ []
  unfolding differences_from
  differences_from_same roots [] same = refl
  differences_from_same roots (path ∷ paths) same =
      rw (same.0) (differences_from_same roots paths same.1)

  abbrev is_explained : List String → String → Bool
  is_explained roots path =
      is_same (find path success) (find path failure)
      || (is_accounted success failure roots path || is_transform_root success failure path)

  all-differences_from :
      (roots paths : List String)
      → all is_lossless (differences_from success failure roots paths)
        ≡ all (is_explained roots) paths
  unfolding differences_from difference_at
  all-differences_from roots [] = refl
  all-differences_from roots (path ∷ paths) = ground (arith, all-differences_from roots paths)

  known_transform_roots_sound :
      (p : String → Bool) (paths : List String)
      → any p (known_transform_roots success failure paths) ≡ true
      → (root : String) × (is_transform_root success failure root ≡ true) × (p root ≡ true)
  unfolding known_transform_roots
  known_transform_roots_sound p [] some_root = absurd (Bool-apart (sym some_root))
  known_transform_roots_sound p (path ∷ paths) some_root =
      elim (Bool-cases (is_transform_root success failure path)) [
        | inl known ↦ elim (Bool-cases (p path)) [
          | inl here ↦ (path, known, here)
          | inr later ↦ known_transform_roots_sound p paths (ground arith)
        ]
        | inr other ↦ known_transform_roots_sound p paths (ground arith)
      ]

  -- The ways in which the two schemas agree at a path, up to what is known to lose nothing.
  abbrev pub Explained : String → Type 0
  Explained path =
      (is_same (find path success) (find path failure) ≡ true)
      ⊎ ((is_transform_root success failure path ≡ true)
          ⊎ (((root : String) × (is_transform_root success failure root ≡ true)
                × (is_descendant_path path root ≡ true))
              ⊎ (((find path success ≡ none) ⊎ (find path failure ≡ none))
                  × (is_array_sequence_variation path success failure ≡ true))))

  is_accounted_sound :
      (path : String) (paths : List String)
      → is_accounted success failure (known_transform_roots success failure paths) path ≡ true
      → Explained path
  unfolding is_accounted
  is_accounted_sound path paths accounted =
      let by_root : String → Bool = λ root. not (path == root) && is_descendant_path path root in
      elim (Bool-cases (any by_root (known_transform_roots success failure paths))) [
        | inl below ↦
            let (root, known, both) = known_transform_roots_sound by_root paths below in
            inr (inr (inl (root, known, (&&-true _ _ both).1)))
        | inr no_root ↦ inr (
            inr (
              inr (elim (Option-cases (find path success)) [
                | inl absent ↦ (inl absent, ground arith)
                | inr (good, there) ↦ elim (Option-cases (find path failure)) [
                  | inl absent ↦ (inr absent, ground arith)
                  | inr (bad, there_too) ↦ absurd (ground arith)
                ]
              ])))
      ]

  is_explained_sound :
      (path : String) (paths : List String)
      → is_explained (known_transform_roots success failure paths) path ≡ true
      → Explained path
  is_explained_sound path paths explained =
      elim (Bool-cases (is_same (find path success) (find path failure))) [
        | inl same ↦ inl same
        | inr other ↦ elim (Bool-cases (is_transform_root success failure path)) [
          | inl known ↦ inr (inl known)
          | inr unknown ↦ is_accounted_sound path paths (ground arith)
        ]
      ]

-- A schema has no differences with itself.
pub schema_differences_itself : (fields : List SchemaField) → schema_differences fields fields ≡ []
unfolding schema_differences
schema_differences_itself fields =
    let found = field_map fields in
    let paths = all_paths found found in
    differences_from_same found found (known_transform_roots found found paths) paths (
      All-implies (IsFound found) (λ path. is_same (find path found) (find path found) ≡ true)
        (is_same-IsFound found) paths
        (all_paths-All (IsFound found) found found (keys-IsFound found) (keys-IsFound found)))

-- Where all differences of two schemas are lossless, each path of one of them has the same field in
-- both, or a transformation known to lose nothing, or lies below a path that has one, or is missing in
-- one of them and lies in an array of both.
pub schema_differences_lossless :
    (success failure : List SchemaField) (path : String)
    → all is_lossless (schema_differences success failure) ≡ true
    → (is_some (find path (field_map success)) || is_some (find path (field_map failure))) ≡ true
    → Explained (field_map success) (field_map failure) path
unfolding schema_differences
schema_differences_lossless success failure path every present =
    let good = field_map success in
    let bad = field_map failure in
    let paths = all_paths good bad in
    let roots = known_transform_roots good bad paths in
    let listed : any (λ key. key == path) paths ≡ true =
      any-all_paths (λ key. key == path) good bad
      ∙ ground (arith, any-keys path good, any-keys path bad) in
    let (found, explained, here) =
      all-any (is_explained good bad roots) (λ key. key == path) paths
        (sym (all-differences_from good bad roots paths) ∙ every) listed in
    is_explained_sound good bad path paths (rw ((eq_iff found path).0 here) at explained)
