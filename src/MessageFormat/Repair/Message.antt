-- ===== src/MessageFormat/Repair/Message.antt =====
-- Messages: no issue exactly where they are well formed, and well-formed ones where all issues
-- were repaired.
use context_guardian.Prelude.{
  ℕ, String, Bool, true, false, ◌&&◌, Option, none, some, ◌≡◌, refl, ap, ◌∙◌, arith, ◌==◌, eq_iff,
  is_empty, ◌+s◌, map,
}
use context_guardian.Json.{Value, string, object, Map, lookup, insert, lookup_str}
use context_guardian.MessageFormat.Issue.{all_repaired}
use context_guardian.Json.Laws.{lookup-insert}
use context_guardian.MessageFormat.Message.{
  is_string, is_role, check_summary, diagnose_summary, diagnose_role_content, diagnose_role,
  diagnose_message_type, diagnose_message_map, diagnose_message,
}
use context_guardian.MessageFormat.Shape.{
  is_content, is_text_value, some_and, has_role, is_message_map, is_message,
}
use context_guardian.MessageFormat.Repair.Field.{
  quiet-with_field, unchanged-with_field, mended-with_field, kept-with_field,
}
use context_guardian.MessageFormat.Repair.Content.{quiet-content, unchanged-content, mended-content}

-- The check of a summary.
module _ (idx : ℕ) (payload : Map) where
  pub quiet-summary :
      is_empty (diagnose_summary idx payload).1 ≡ is_text_value (lookup "message" payload)
  unfolding diagnose_summary check_summary
  quiet-summary = quiet-with_field _ _ _ payload is_string refl (λ v. ground arith)

  pub unchanged-summary :
      is_empty (diagnose_summary idx payload).1 ≡ true → (diagnose_summary idx payload).0 ≡ payload
  unfolding diagnose_summary check_summary
  unchanged-summary = unchanged-with_field _ _ _ payload (λ v q. ground arith)

  pub mended-summary :
      all_repaired (diagnose_summary idx payload).1 ≡ true
      → is_text_value (lookup "message" (diagnose_summary idx payload).0) ≡ true
  unfolding diagnose_summary check_summary
  mended-summary = mended-with_field _ _ _ payload is_string refl (λ v r. ground arith)

  pub kept-summary :
      (k : String)
      → ("message" == k) ≡ false
      → lookup k (diagnose_summary idx payload).0 ≡ lookup k payload
  unfolding diagnose_summary
  kept-summary = kept-with_field _ _ _ payload

-- The content of a message whose role is known.
module _ (idx : ℕ) (path role : String) (map : Map) where
  quiet-role_content :
      is_empty (diagnose_role_content idx path role map).1
      ≡ some_and (lookup "content" map) (is_content (role == "assistant"))
  unfolding diagnose_role_content
  quiet-role_content =
      quiet-with_field _ _ _ map (is_content (role == "assistant")) refl
        (quiet-content (role == "assistant") idx (path +s ".content"))

  unchanged-role_content :
      is_empty (diagnose_role_content idx path role map).1 ≡ true
      → (diagnose_role_content idx path role map).0 ≡ map
  unfolding diagnose_role_content
  unchanged-role_content =
      unchanged-with_field _ _ _ map
        (unchanged-content (role == "assistant") idx (path +s ".content"))

  mended-role_content :
      all_repaired (diagnose_role_content idx path role map).1 ≡ true
      → some_and
          (lookup "content" (diagnose_role_content idx path role map).0)
          (is_content (role == "assistant"))
        ≡ true
  unfolding diagnose_role_content
  mended-role_content =
      mended-with_field _ _ _ map (is_content (role == "assistant")) refl
        (mended-content (role == "assistant") idx (path +s ".content"))

  kept-role_content :
      (k : String)
      → ("content" == k) ≡ false
      → lookup k (diagnose_role_content idx path role map).0 ≡ lookup k map
  unfolding diagnose_role_content
  kept-role_content = kept-with_field _ _ _ map

-- What is asked of a message behind its type, once its role is known.
abbrev has_content_for : Map → String → Bool
has_content_for map role =
    is_role role && some_and (lookup "content" map) (is_content (role == "assistant"))

module _ (idx : ℕ) (path : String) (map : Map) where
  quiet-role :
      (r : Option String)
      → is_empty (diagnose_role idx path map r).1 ≡ has_role (has_content_for map) r
  unfolding diagnose_role
  quiet-role none = refl
  quiet-role (some role) = ground (arith, quiet-role_content idx path role map)

  unchanged-role :
      (r : Option String)
      → is_empty (diagnose_role idx path map r).1 ≡ true
      → (diagnose_role idx path map r).0 ≡ map
  unfolding diagnose_role
  unchanged-role none q = refl
  unchanged-role (some role) q = ground (arith, unchanged-role_content idx path role map)

  kept-role :
      (r : Option String) (k : String)
      → ("content" == k) ≡ false
      → lookup k (diagnose_role idx path map r).0 ≡ lookup k map
  unfolding diagnose_role
  kept-role none k other = refl
  kept-role (some role) k other = ground (arith, kept-role_content idx path role map k)

  mended-role :
      (r : Option String)
      → all_repaired (diagnose_role idx path map r).1 ≡ true
      → has_role (has_content_for (diagnose_role idx path map r).0) r ≡ true
  unfolding diagnose_role
  mended-role none r = cc
  mended-role (some role) r = ground (arith, mended-role_content idx path role map)

-- A message whose type and role are in place.
is_message_map_from :
    (map : Map) (r : Option String)
    → lookup_str "type" map ≡ some "message"
    → lookup_str "role" map ≡ r
    → has_role (has_content_for map) r ≡ true
    → is_message_map map ≡ true
unfolding is_message_map
is_message_map_from map r typed known ok = rw (typed, known) ok

pub lookup_str-of :
    (k : String) (after map : Map)
    → lookup k after ≡ lookup k map
    → lookup_str k after ≡ lookup_str k map
lookup_str-of k after map h = rw h

mended-typed :
    (idx : ℕ) (path : String) (map : Map)
    → lookup_str "type" map ≡ some "message"
    → all_repaired (diagnose_role idx path map (lookup_str "role" map)).1 ≡ true
    → is_message_map (diagnose_role idx path map (lookup_str "role" map)).0 ≡ true
mended-typed idx path map typed r =
    let role = lookup_str "role" map in
    let after = (diagnose_role idx path map role).0 in
    is_message_map_from after role
      (lookup_str-of "type" after map (kept-role idx path map role "type" refl) ∙ typed)
      (lookup_str-of "role" after map (kept-role idx path map role "role" refl))
      (mended-role idx path map role r)

module _ (idx : ℕ) (path : String) (map : Map) where
  pub quiet-message_type :
      (t : Option String)
      → lookup_str "type" map ≡ t
      → is_empty (diagnose_message_type idx path map t).1 ≡ is_message_map map
  unfolding diagnose_message_type is_message_map
  quiet-message_type none h = rw h (ground arith)
  quiet-message_type (some t) h =
      rw h (ground (arith, quiet-role idx path map (lookup_str "role" map)))

  pub unchanged-message_type :
      (t : Option String)
      → is_empty (diagnose_message_type idx path map t).1 ≡ true
      → (diagnose_message_type idx path map t).0 ≡ map
  unfolding diagnose_message_type
  unchanged-message_type none q = ground arith
  unchanged-message_type (some t) q =
      ground (arith, unchanged-role idx path map (lookup_str "role" map))

  -- A repaired message still has, or now has, the type that a message has.
  pub mended-message_type :
      (t : Option String)
      → lookup_str "type" map ≡ t
      → all_repaired (diagnose_message_type idx path map t).1 ≡ true
      → is_message_map (diagnose_message_type idx path map t).0 ≡ true
  unfolding diagnose_message_type
  mended-message_type none h r = ground (
    arith,
    mended-typed idx path (insert "type" (string "message") map),
    lookup-insert "type" "type" (string "message") map,
  )
  mended-message_type (some t) h r = ground (arith, eq_iff t "message", mended-typed idx path map)

  -- A message that has the type keeps it.
  pub kept-message_type :
      (k : String)
      → ("content" == k) ≡ false
      → lookup k (diagnose_message_type idx path map (some "message")).0 ≡ lookup k map
  unfolding diagnose_message_type
  kept-message_type k other = kept-role idx path map (lookup_str "role" map) k other

module _ (idx : ℕ) (path : String) where
  pub quiet-message :
      (message : Value) → is_empty (diagnose_message idx path message).1 ≡ is_message message
  unfolding diagnose_message diagnose_message_map is_message
  quiet-message (object map) = quiet-message_type idx path map (lookup_str "type" map) refl
  quiet-message _ = refl

  pub unchanged-message :
      (message : Value)
      → is_empty (diagnose_message idx path message).1 ≡ true
      → (diagnose_message idx path message).0 ≡ message
  unfolding diagnose_message diagnose_message_map
  unchanged-message (object map) q =
      ap object (unchanged-message_type idx path map (lookup_str "type" map) q)
  unchanged-message _ q = refl

  pub mended-message :
      (message : Value)
      → all_repaired (diagnose_message idx path message).1 ≡ true
      → is_message (diagnose_message idx path message).0 ≡ true
  unfolding diagnose_message diagnose_message_map is_message
  mended-message (object map) r = mended-message_type idx path map (lookup_str "type" map) refl r
  mended-message _ r = cc
