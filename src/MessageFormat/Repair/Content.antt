-- ===== src/MessageFormat/Repair/Content.antt =====
-- Content containers: no issue exactly where the content is well formed, and well-formed content
-- where all issues were repaired.
use context_guardian.Prelude.{
  ℕ, ◌+◌, String, Bool, true, ◌≡◌, refl, is_empty, ◌+s◌, is_empty-append, ap, decimal, &&-true,
  all-append,
}
use context_guardian.Json.{Value, string, array, object, Items, nil, cons}
use context_guardian.MessageFormat.Issue.{all_repaired}
use context_guardian.MessageFormat.Content.{
  text_item, normalize_items, normalize_content_container, wrapped_content, normalize_content_array,
}
use context_guardian.MessageFormat.Shape.{text_type, are_content_items, is_content}
use context_guardian.MessageFormat.Repair.Items.{quiet-item, unchanged-item, mended-item}

-- The loop over the items, and then the container.
module _ (a : Bool) (idx : ℕ) (path : String) where
  quiet-items :
      (at : ℕ) (items : Items)
      → is_empty (normalize_items idx path (text_type a) at items).1 ≡ are_content_items a items
  unfolding normalize_items are_content_items
  quiet-items at nil = refl
  quiet-items at (cons item items) =
      simp (is_empty-append, quiet-item a idx, quiet-items (at + 1) items)

  unchanged-items :
      (at : ℕ) (items : Items)
      → is_empty (normalize_items idx path (text_type a) at items).1 ≡ true
      → (normalize_items idx path (text_type a) at items).0 ≡ items
  unfolding normalize_items
  unchanged-items at nil q = refl
  unchanged-items at (cons item items) q =
      let here = path +s "[" +s decimal at +s "]" in
      let (front, rest) = &&-true _ _ (rw is_empty-append at q) in
      λ i. cons (unchanged-item a idx here item front i) (unchanged-items (at + 1) items rest i)

  mended-items :
      (at : ℕ) (items : Items)
      → all_repaired (normalize_items idx path (text_type a) at items).1 ≡ true
      → are_content_items a (normalize_items idx path (text_type a) at items).0 ≡ true
  unfolding normalize_items are_content_items
  mended-items at nil r = refl
  mended-items at (cons item items) r =
      let here = path +s "[" +s decimal at +s "]" in
      let (front, rest) = &&-true _ _ (rw all-append at r) in
      rw (mended-item a idx here item front) (mended-items (at + 1) items rest)

-- The container.
module _ (a : Bool) (idx : ℕ) (path : String) where
  pub quiet-content :
      (content : Value)
      → is_empty (normalize_content_container idx path (text_type a) content).1
        ≡ is_content a content
  unfolding normalize_content_container normalize_content_array wrapped_content is_content
  quiet-content (array nil) = refl
  quiet-content (array (cons item items)) = quiet-items a idx path 0 (cons item items)
  quiet-content _ = refl

  pub unchanged-content :
      (content : Value)
      → is_empty (normalize_content_container idx path (text_type a) content).1 ≡ true
      → (normalize_content_container idx path (text_type a) content).0 ≡ content
  unfolding normalize_content_container normalize_content_array wrapped_content
  unchanged-content (array nil) q = cc
  unchanged-content (array (cons item items)) q =
      ap array (unchanged-items a idx path 0 (cons item items) q)
  unchanged-content _ q = cc

  mended-array :
      (item : Value) (items : Items)
      → all_repaired (normalize_content_array idx path (text_type a) (cons item items)).1 ≡ true
      → is_content a (normalize_content_array idx path (text_type a) (cons item items)).0 ≡ true
  unfolding normalize_content_array is_content normalize_items
  mended-array item items r = mended-items a idx path 0 (cons item items) r

  pub mended-content :
      (content : Value)
      → all_repaired (normalize_content_container idx path (text_type a) content).1 ≡ true
      → is_content a (normalize_content_container idx path (text_type a) content).0 ≡ true
  unfolding normalize_content_container wrapped_content normalize_content_array is_content
  mended-content (array nil) r = cc
  mended-content (array (cons item items)) r = mended-array item items r
  mended-content (string s) r = mended-array (text_item (text_type a) s) nil r
  mended-content (object map) r = mended-array (object map) nil r
  mended-content _ r = cc
