-- ===== src/Capture/Schema/Redaction.antt =====
-- What the schema of `collect_schema` in src/passive_capture.rs depends on.
use mathlib.Core.Path.{fun_ext}
use context_guardian.Prelude.{
  ℕ, suc, ◌≡◌, refl, sym, ap, ◌∙◌, inl, inr, ◌⊎◌, String, Bool, false, ◌||◌, Option, none, some,
  List, ◌==◌, ◌>>=◌, Bool-cases, arith, eq_iff,
}
use context_guardian.Json.{
  Value, Items, Map, null, boolean, number, string, array, object, nil, cons, empty, entry, as_str,
}
use context_guardian.Capture.Schema.{
  SchemaField, push_field, collect_schema, collect_items, collect_entries, item_path, entry_path,
  is_allowed, is_protocol_field, short_hash, safe_enum, enum_of, escape_path, value_kind, [],
}

-- The words of a role and of a type are reported, where they are known.
abbrev carries_word : Option String → Bool
carries_word none = false
carries_word (some key) = (key == "role") || (key == "type")

module _ (sha256_hex : List ℕ → String) where
  -- Two unknown words with the same short hash.
  abbrev SameHash : (String → Bool) → String → String → Type 0
  SameHash is_known a b =
      (is_known a ≡ false)
      × (is_known b ≡ false)
      × (short_hash sha256_hex a ≡ short_hash sha256_hex b)

  abbrev NamesAlike : String → String → Type 0
  NamesAlike a b = (a ≡ b) ⊎ SameHash is_protocol_field a b

  abbrev TextsAlike : Option String → String → String → Type 0
  TextsAlike none s t = Unit
  TextsAlike (some key) s t =
      (carries_word (some key) ≡ false) ⊎ ((s ≡ t) ⊎ SameHash (is_allowed key) s t)

  -- The same structure, with names and words that are alike; numbers, flags and all other texts are
  -- left open.
  unfoldable mutual
    pub Alike : Option String → Value → Value → Type 0
    Alike key null null = Unit
    Alike key (boolean b) (boolean c) = Unit
    Alike key (number n) (number m) = Unit
    Alike key (string s) (string t) = TextsAlike key s t
    Alike key (array xs) (array ys) = ItemsAlike xs ys
    Alike key (object m) (object n) = EntriesAlike m n
    Alike key _ _ = ⊥

    pub ItemsAlike : Items → Items → Type 0
    ItemsAlike nil nil = Unit
    ItemsAlike (cons x xs) (cons y ys) = Alike none x y × ItemsAlike xs ys
    ItemsAlike _ _ = ⊥

    pub EntriesAlike : Map → Map → Type 0
    EntriesAlike empty empty = Unit
    EntriesAlike (entry a x m) (entry b y n) =
        NamesAlike a b × Alike (some a) x y × EntriesAlike m n
    EntriesAlike _ _ = ⊥

  escape_path-NamesAlike :
      (a b : String) → NamesAlike a b → escape_path sha256_hex a ≡ escape_path sha256_hex b
  unfolding escape_path
  escape_path-NamesAlike a b (inl same) = ap (escape_path sha256_hex) same
  escape_path-NamesAlike a b (inr (left, right, hash)) = rw (left, right, hash) refl

  safe_enum-SameHash :
      (kind s t : String)
      → SameHash (is_allowed kind) s t
      → safe_enum sha256_hex kind s ≡ safe_enum sha256_hex kind t
  unfolding safe_enum
  safe_enum-SameHash kind s t (left, right, hash) = rw (left, right, hash) refl

  -- A name outside the protocol carries no word.
  carries_word_private : (a : String) → is_protocol_field a ≡ false → carries_word (some a) ≡ false
  unfolding is_protocol_field
  carries_word_private a private_name = ground arith

  enum_of-none :
      (key : Option String) (o : Option String)
      → carries_word key ≡ false
      → enum_of sha256_hex key o ≡ none
  unfolding enum_of
  enum_of-none none o plain = refl
  enum_of-none (some key) none plain = refl
  enum_of-none (some key) (some text) plain = ground arith

  enum_of-TextsAlike :
      (key : Option String) (s t : String)
      → TextsAlike key s t
      → enum_of sha256_hex key (some s) ≡ enum_of sha256_hex key (some t)
  unfolding enum_of
  enum_of-TextsAlike none s t alike = refl
  enum_of-TextsAlike (some key) s t (inl plain) =
      enum_of-none (some key) (some s) plain ∙ sym (enum_of-none (some key) (some t) plain)
  enum_of-TextsAlike (some key) s t (inr (inl same)) =
      ap (λ text. enum_of sha256_hex (some key) (some text)) same
  enum_of-TextsAlike (some key) s t (inr (inr hidden)) = elim (Bool-cases (key == "role")) [
    | inl role ↦
        rw (role)
          (ap some (safe_enum-SameHash "role" s t (rw ((eq_iff key "role").0 role) at hidden)))
    | inr other ↦ elim (Bool-cases (key == "type")) [
      | inl type ↦
          rw (other, type)
            (ap some (safe_enum-SameHash "type" s t (rw ((eq_iff key "type").0 type) at hidden)))
      | inr plain ↦ rw (other, plain) refl
    ]
  ]

  enum_of-NamesAlike :
      (a b : String) (o : Option String)
      → NamesAlike a b
      → enum_of sha256_hex (some a) o ≡ enum_of sha256_hex (some b) o
  enum_of-NamesAlike a b o (inl same) = ap (λ name. enum_of sha256_hex (some name) o) same
  enum_of-NamesAlike a b o (inr (left, right, hash)) =
      enum_of-none (some a) o (carries_word_private a left)
      ∙ sym (enum_of-none (some b) o (carries_word_private b right))

  -- The field of a value depends on its path, its kind and its word.
  push_field_alike :
      (v w : Value) (path : String) (key key' : Option String) (depth : ℕ)
      (output : List SchemaField)
      → value_kind v ≡ value_kind w
      → enum_of sha256_hex key (as_str v) ≡ enum_of sha256_hex key' (as_str w)
      → push_field sha256_hex v path key depth output
        ≡ push_field sha256_hex w path key' depth output
  unfolding push_field
  push_field_alike v w path key key' depth output kinds words = rw (kinds, words) refl

  -- Two keys that read every text alike.
  abbrev KeysAlike : Option String → Option String → Type 0
  KeysAlike key key' = (o : Option String) → enum_of sha256_hex key o ≡ enum_of sha256_hex key' o

  mutual
    unfolding collect_schema Alike value_kind

    collect_schema_lem :
        (v w : Value) (path : String) (key key' : Option String) (depth : ℕ)
        (output : List SchemaField)
        → KeysAlike key key'
        → Alike key v w
        → collect_schema sha256_hex v path key depth output
          ≡ collect_schema sha256_hex w path key' depth output
    collect_schema_lem null null path key key' depth output keys alike =
        push_field_alike null null path key key' depth output refl (keys none)
    collect_schema_lem (boolean b) (boolean c) path key key' depth output keys alike =
        push_field_alike (boolean b) (boolean c) path key key' depth output refl (keys none)
    collect_schema_lem (number n) (number m) path key key' depth output keys alike =
        push_field_alike (number n) (number m) path key key' depth output refl (keys none)
    collect_schema_lem (string s) (string t) path key key' depth output keys alike =
        push_field_alike (string s) (string t) path key key' depth output refl
          (enum_of-TextsAlike key s t alike ∙ keys (some t))
    collect_schema_lem (array xs) (array ys) path key key' depth output keys alike =
        rw (push_field_alike (array xs) (array ys) path key key' depth output refl (keys none)) (
          ap (λ rest. push_field sha256_hex (array ys) path key' depth output >>= rest)
            (fun_ext (λ pushed. collect_items-Alike xs ys path 0 (suc depth) pushed alike)))
    collect_schema_lem (object m) (object n) path key key' depth output keys alike =
        rw (push_field_alike (object m) (object n) path key key' depth output refl (keys none)) (
          ap (λ rest. push_field sha256_hex (object n) path key' depth output >>= rest)
            (fun_ext (λ pushed. collect_entries-Alike m n path (suc depth) pushed alike)))
    collect_schema_lem v w path key key' depth output keys alike = absurd alike

    collect_items-Alike :
        (xs ys : Items) (path : String) (index depth : ℕ) (output : List SchemaField)
        → ItemsAlike xs ys
        → collect_items sha256_hex xs path index depth output
          ≡ collect_items sha256_hex ys path index depth output
    collect_items-Alike nil nil path index depth output alike = refl
    collect_items-Alike (cons x xs) (cons y ys) path index depth output alike =
        rw
          (collect_schema_lem x y (item_path sha256_hex path index) none none depth output
            (λ o. refl) alike.0)
          (ap
            (λ rest.
              collect_schema sha256_hex y (item_path sha256_hex path index) none depth output
              >>= rest)
            (fun_ext (λ pushed. collect_items-Alike xs ys path (suc index) depth pushed alike.1)))
    collect_items-Alike xs ys path index depth output alike = absurd alike

    collect_entries-Alike :
        (m n : Map) (path : String) (depth : ℕ) (output : List SchemaField)
        → EntriesAlike m n
        → collect_entries sha256_hex m path depth output
          ≡ collect_entries sha256_hex n path depth output
    collect_entries-Alike empty empty path depth output alike = refl
    collect_entries-Alike (entry a x m) (entry b y n) path depth output alike =
        rw
          (
            escape_path-NamesAlike a b alike.0,
            collect_schema_lem x y (entry_path sha256_hex path b) (some a) (some b) depth output
                (λ o. enum_of-NamesAlike a b o alike.0) alike.1,
          )
          (ap
            (λ rest.
              collect_schema sha256_hex y (entry_path sha256_hex path b) (some b) depth output
              >>= rest)
            (fun_ext (λ pushed. collect_entries-Alike m n path depth pushed alike.2)))
    collect_entries-Alike m n path depth output alike = absurd alike

  -- Two bodies of the same structure, with the same names and reported words, or unknown ones with the
  -- same short hash, have the same schema, whatever their other texts, their numbers and their flags.
  pub collect_schema-Alike :
      (v w : Value)
      → Alike none v w
      → collect_schema sha256_hex v "$" none 0 [] ≡ collect_schema sha256_hex w "$" none 0 []
  collect_schema-Alike v w = collect_schema_lem v w "$" none none 0 [] (λ o. refl)
