-- ===== src/MessageFormat/Repair/History.antt =====
-- Compacted histories: no issue exactly where they are well formed, and well-formed ones where all
-- issues were repaired.
use context_guardian.Prelude.{
  ℕ, ◌+◌, String, true, false, ◌++◌, Option, none, some, ◌≡◌, refl, sym, ap, ◌∙◌, arith, ◌==◌,
  is_empty, all-append, is_empty-append, ◌+s◌, decimal, &&-true, map, Bool-apart,
}
use context_guardian.Json.{Value, null, string, array, object, Items, nil, cons, Map, lookup}
use context_guardian.MessageFormat.Issue.{all_repaired}
use context_guardian.MessageFormat.Message.{
  Serde, as_history, normalize_decoded, normalize_history_container, diagnose_messages,
  diagnose_history, check_history, diagnose_compacted_history,
}
use context_guardian.MessageFormat.Shape.{some_and, are_messages, is_history}
use context_guardian.MessageFormat.Repair.Field.{
  quiet-with_field, unchanged-with_field, mended-with_field, kept-with_field,
}
use context_guardian.MessageFormat.Repair.Message.{quiet-message, unchanged-message, mended-message}

module _ (idx : ℕ) where
  quiet-messages :
      (at : ℕ) (messages : Items)
      → is_empty (diagnose_messages idx at messages).1 ≡ are_messages messages
  unfolding diagnose_messages are_messages
  quiet-messages at nil = refl
  quiet-messages at (cons message messages) =
      simp (is_empty-append, quiet-message idx, quiet-messages (at + 1) messages)

  unchanged-messages :
      (at : ℕ) (messages : Items)
      → is_empty (diagnose_messages idx at messages).1 ≡ true
      → (diagnose_messages idx at messages).0 ≡ messages
  unfolding diagnose_messages
  unchanged-messages at nil q = refl
  unchanged-messages at (cons message messages) q =
      let here = "payload.replacement_history[" +s decimal at +s "]" in
      let (front, rest) = &&-true _ _ (rw is_empty-append at q) in
      λ i.
        cons (unchanged-message idx here message front i)
          (unchanged-messages (at + 1) messages rest i)

  mended-messages :
      (at : ℕ) (messages : Items)
      → all_repaired (diagnose_messages idx at messages).1 ≡ true
      → are_messages (diagnose_messages idx at messages).0 ≡ true
  unfolding diagnose_messages are_messages
  mended-messages at nil r = refl
  mended-messages at (cons message messages) r =
      let here = "payload.replacement_history[" +s decimal at +s "]" in
      let (front, rest) = &&-true _ _ (rw all-append at r) in
      rw (mended-message idx here message front) (mended-messages (at + 1) messages rest)

  -- A history that is an array: the part behind `normalize_history_container`.
  quiet-array :
      (items : Items) → is_empty (diagnose_history idx (array items)).1 ≡ is_history (array items)
  unfolding diagnose_history is_history
  quiet-array nil = refl
  quiet-array (cons message messages) = quiet-messages 0 (cons message messages)

  unchanged-array :
      (items : Items)
      → is_empty (diagnose_history idx (array items)).1 ≡ true
      → (diagnose_history idx (array items)).0 ≡ array items
  unfolding diagnose_history
  unchanged-array nil q = refl
  unchanged-array (cons message messages) q =
      ap array (unchanged-messages 0 (cons message messages) q)

  mended-array :
      (items : Items)
      → all_repaired (diagnose_history idx (array items)).1 ≡ true
      → is_history (diagnose_history idx (array items)).0 ≡ true
  unfolding diagnose_history is_history diagnose_messages
  mended-array nil r = cc
  mended-array (cons message messages) r = mended-messages 0 (cons message messages) r

-- A history that is a text, with what it decodes to.
module _ (idx : ℕ) (encoded : String) where
  quiet-decoded : (o : Option Value) → is_empty (normalize_decoded idx encoded o).1 ≡ false
  unfolding normalize_decoded
  quiet-decoded o = ground arith

  mended-decoded :
      (o : Option Value)
      → all_repaired (
          (normalize_decoded idx encoded o).1
          ++ (diagnose_history idx (normalize_decoded idx encoded o).0).1)
        ≡ true
      → is_history (diagnose_history idx (normalize_decoded idx encoded o).0).0 ≡ true
  unfolding normalize_decoded as_history
  mended-decoded (some (array items)) r = mended-array idx items r
  mended-decoded (some (object map)) r = mended-array idx (cons (object map) nil) r
  mended-decoded (some null) r = cc
  mended-decoded (some _) r = cc
  mended-decoded none r = cc

module _ (serde : Serde) (idx : ℕ) where
  quiet-check_history :
      (history : Value) → is_empty (check_history serde idx history).1 ≡ is_history history
  unfolding check_history normalize_history_container
  quiet-check_history (array items) = quiet-array idx items
  quiet-check_history (string encoded) =
      unfold is_history in rw (is_empty-append, quiet-decoded idx encoded (serde.decode encoded))
  quiet-check_history _ = unfold is_history in refl

  unchanged-check_history :
      (history : Value)
      → is_empty (check_history serde idx history).1 ≡ true
      → (check_history serde idx history).0 ≡ history
  unfolding check_history normalize_history_container
  unchanged-check_history (array items) q = unchanged-array idx items q
  unchanged-check_history (string encoded) q =
      let normal = normalize_decoded idx encoded (serde.decode encoded) in
      let (front, rest) =
        &&-true (is_empty normal.1) (is_empty (diagnose_history idx normal.0).1)
          (rw is_empty-append at q) in
      absurd (Bool-apart (sym front ∙ quiet-decoded idx encoded (serde.decode encoded)))
  unchanged-check_history _ q = cc

  mended-check_history :
      (history : Value)
      → all_repaired (check_history serde idx history).1 ≡ true
      → is_history (check_history serde idx history).0 ≡ true
  unfolding check_history normalize_history_container
  mended-check_history (array items) r = mended-array idx items r
  mended-check_history (object map) r = mended-array idx (cons (object map) nil) r
  mended-check_history (string encoded) r = mended-decoded idx encoded (serde.decode encoded) r
  mended-check_history _ r = cc

module _ (serde : Serde) (idx : ℕ) (payload : Map) where
  pub quiet-compacted_history :
      is_empty (diagnose_compacted_history serde idx payload).1
      ≡ some_and (lookup "replacement_history" payload) is_history
  unfolding diagnose_compacted_history
  quiet-compacted_history =
      quiet-with_field _ _ _ payload is_history refl (quiet-check_history serde idx)

  pub unchanged-compacted_history :
      is_empty (diagnose_compacted_history serde idx payload).1 ≡ true
      → (diagnose_compacted_history serde idx payload).0 ≡ payload
  unfolding diagnose_compacted_history
  unchanged-compacted_history =
      unchanged-with_field _ _ _ payload (unchanged-check_history serde idx)

  pub mended-compacted_history :
      all_repaired (diagnose_compacted_history serde idx payload).1 ≡ true
      → some_and
          (lookup "replacement_history" (diagnose_compacted_history serde idx payload).0)
          is_history
        ≡ true
  unfolding diagnose_compacted_history
  mended-compacted_history =
      mended-with_field _ _ _ payload is_history refl (mended-check_history serde idx)

  pub kept-compacted_history :
      (k : String)
      → ("replacement_history" == k) ≡ false
      → lookup k (diagnose_compacted_history serde idx payload).0 ≡ lookup k payload
  unfolding diagnose_compacted_history
  kept-compacted_history = kept-with_field _ _ _ payload
