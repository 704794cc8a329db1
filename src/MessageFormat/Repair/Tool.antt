-- ===== src/MessageFormat/Repair/Tool.antt =====
-- Function calls and tool outputs: no issue exactly where they are well formed, and well-formed
-- ones where all issues were repaired.
use context_guardian.Prelude.{
  ℕ, String, true, false, ◌++◌, none, ◌≡◌, refl, ap, arith, ◌==◌, is_empty, is_empty-append,
  is_empty-parts, all-parts, map,
}
use context_guardian.Json.{Value, null, boolean, number, string, array, object, Map, lookup}
use context_guardian.MessageFormat.Issue.{issue, all_repaired, is_repaired}
use context_guardian.MessageFormat.Content.{normalize_content_container}
use context_guardian.MessageFormat.Message.{Serde, is_string}
use context_guardian.MessageFormat.Record.{
  require_nonempty_string, check_arguments, diagnose_arguments, diagnose_function_call,
  encode_output, normalize_output, diagnose_output, diagnose_tool_output,
}
use context_guardian.MessageFormat.Shape.{
  is_text_value, has_nonempty_text, is_content, is_function_call, is_output, is_tool_output,
}
use context_guardian.MessageFormat.Repair.Field.{
  quiet-with_field, unchanged-with_field, mended-with_field, kept-with_field,
}
use context_guardian.MessageFormat.Repair.Content.{quiet-content, unchanged-content, mended-content}

module _ (map : Map) (key : String) (idx : ℕ) (path : String) where
  quiet-nonempty : is_empty (require_nonempty_string map key idx path) ≡ has_nonempty_text key map
  unfolding require_nonempty_string
  quiet-nonempty = ground arith

  mended-nonempty :
      all_repaired (require_nonempty_string map key idx path) ≡ has_nonempty_text key map
  unfolding require_nonempty_string
  mended-nonempty = ground arith

has_nonempty_text-of :
    (key : String) (after map : Map)
    → lookup key after ≡ lookup key map
    → has_nonempty_text key after ≡ has_nonempty_text key map
has_nonempty_text-of key after map h = rw h

module _ (serde : Serde) (idx : ℕ) (map : Map) where
  quiet-arguments :
      is_empty (diagnose_arguments serde idx map).1 ≡ is_text_value (lookup "arguments" map)
  unfolding diagnose_arguments check_arguments
  quiet-arguments = quiet-with_field _ _ _ map is_string refl (λ v. ground arith)

  unchanged-arguments :
      is_empty (diagnose_arguments serde idx map).1 ≡ true
      → (diagnose_arguments serde idx map).0 ≡ map
  unfolding diagnose_arguments check_arguments
  unchanged-arguments = unchanged-with_field _ _ _ map (λ v q. ground arith)

  mended-arguments :
      all_repaired (diagnose_arguments serde idx map).1 ≡ true
      → is_text_value (lookup "arguments" (diagnose_arguments serde idx map).0) ≡ true
  unfolding diagnose_arguments check_arguments
  mended-arguments = mended-with_field _ _ _ map is_string refl (λ v r. ground arith)

  pub kept-arguments :
      (k : String)
      → ("arguments" == k) ≡ false
      → lookup k (diagnose_arguments serde idx map).0 ≡ lookup k map
  unfolding diagnose_arguments
  kept-arguments = kept-with_field _ _ _ map

  pub quiet-function_call :
      is_empty (diagnose_function_call serde idx (object map)).1 ≡ is_function_call map
  unfolding diagnose_function_call is_function_call
  quiet-function_call =
      simp
        (
          is_empty-append,
          quiet-nonempty map "call_id" idx "payload.call_id",
          quiet-nonempty map "name" idx "payload.name",
          quiet-arguments,
        )
        (ground arith)

  pub unchanged-function_call :
      is_empty (diagnose_function_call serde idx (object map)).1 ≡ true
      → (diagnose_function_call serde idx (object map)).0 ≡ object map
  unfolding diagnose_function_call
  unchanged-function_call q =
      let calls = require_nonempty_string map "call_id" idx "payload.call_id" in
      let names = require_nonempty_string map "name" idx "payload.name" in
      let last = (diagnose_arguments serde idx map).1 in
      ap object (
        unchanged-arguments
          (is_empty-parts names last (is_empty-parts calls (names ++ last) q).1).1)

  pub mended-function_call :
      all_repaired (diagnose_function_call serde idx (object map)).1 ≡ true
      → is_function_call (diagnose_arguments serde idx map).0 ≡ true
  unfolding diagnose_function_call is_function_call
  mended-function_call r =
      let after = (diagnose_arguments serde idx map).0 in
      let calls = require_nonempty_string map "call_id" idx "payload.call_id" in
      let names = require_nonempty_string map "name" idx "payload.name" in
      let last = (diagnose_arguments serde idx map).1 in
      let (call, rest) = all-parts is_repaired calls (names ++ last) r in
      let (name, arguments) = all-parts is_repaired names last rest in
      rw
        (
          has_nonempty_text-of "call_id" after map (kept-arguments "call_id" refl),
          has_nonempty_text-of "name" after map (kept-arguments "name" refl),
          ← mended-nonempty map "call_id" idx "payload.call_id",
          ← mended-nonempty map "name" idx "payload.name",
          call,
          name,
        )
        (mended-arguments arguments)

module _ (serde : Serde) (idx : ℕ) where
  quiet-output :
      (output : Value) → is_empty (normalize_output serde idx output).1 ≡ is_output output
  unfolding normalize_output encode_output is_output
  quiet-output (string text) = refl
  quiet-output (array items) = quiet-content false idx "payload.output" (array items)
  quiet-output (object map) =
      unfold is_content in ground (arith, quiet-content false idx "payload.output" (object map))
  quiet-output null = unfold is_content in ground arith
  quiet-output (boolean b) = unfold is_content in ground arith
  quiet-output (number n) = unfold is_content in ground arith

  unchanged-output :
      (output : Value)
      → is_empty (normalize_output serde idx output).1 ≡ true
      → (normalize_output serde idx output).0 ≡ output
  unfolding normalize_output encode_output
  unchanged-output (string text) q = refl
  unchanged-output (array items) q = unchanged-content false idx "payload.output" (array items) q
  unchanged-output (object map) q =
      ground (arith, unchanged-content false idx "payload.output" (object map))
  unchanged-output null q = ground arith
  unchanged-output (boolean b) q = ground arith
  unchanged-output (number n) q = ground arith

  is_output_of_content : (output : Value) → is_content false output ≡ true → is_output output ≡ true
  unfolding is_output
  is_output_of_content (string text) h = refl
  is_output_of_content _ h = h

  mended-encode_output :
      (output : Value)
      → all_repaired (encode_output serde idx output).1 ≡ true
      → is_output (encode_output serde idx output).0 ≡ true
  unfolding encode_output is_output
  mended-encode_output output r = ground arith

  mended-object_output :
      (map : Map)
      → all_repaired (normalize_output serde idx (object map)).1 ≡ true
      → is_output (normalize_output serde idx (object map)).0 ≡ true
  unfolding normalize_output
  mended-object_output map r =
      let content = normalize_content_container idx "payload.output" "input_text" (object map) in
      ground (
        arith,
        is_output_of_content content.0,
        mended-content false idx "payload.output" (object map),
        mended-encode_output (object map),
      )

  mended-output :
      (output : Value)
      → all_repaired (normalize_output serde idx output).1 ≡ true
      → is_output (normalize_output serde idx output).0 ≡ true
  unfolding normalize_output encode_output
  mended-output (string text) r = unfold is_output in refl
  mended-output (array items) r =
      is_output_of_content _ (mended-content false idx "payload.output" (array items) r)
  mended-output (object map) r = mended-object_output map r
  mended-output null r = unfold is_output in ground arith
  mended-output (boolean b) r = unfold is_output in ground arith
  mended-output (number n) r = unfold is_output in ground arith

module _ (serde : Serde) (idx : ℕ) (map : Map) where
  pub quiet-tool_output :
      is_empty (diagnose_tool_output serde idx (object map)).1 ≡ is_tool_output map
  unfolding diagnose_tool_output diagnose_output is_tool_output
  quiet-tool_output = simp (
    is_empty-append,
    quiet-nonempty map "call_id" idx "payload.call_id",
    quiet-with_field "output"
        (issue idx "payload.output" "string or typed content array" none false)
        (normalize_output serde idx) map is_output refl (quiet-output serde idx),
  )

  pub unchanged-tool_output :
      is_empty (diagnose_tool_output serde idx (object map)).1 ≡ true
      → (diagnose_tool_output serde idx (object map)).0 ≡ object map
  unfolding diagnose_tool_output diagnose_output
  unchanged-tool_output q =
      let calls = require_nonempty_string map "call_id" idx "payload.call_id" in
      ap object (
        unchanged-with_field _ _ _ map (unchanged-output serde idx)
          (is_empty-parts calls (diagnose_output serde idx map).1 q).1)

  pub kept-output :
      (k : String)
      → ("output" == k) ≡ false
      → lookup k (diagnose_output serde idx map).0 ≡ lookup k map
  unfolding diagnose_output
  kept-output = kept-with_field _ _ _ map

  pub mended-tool_output :
      all_repaired (diagnose_tool_output serde idx (object map)).1 ≡ true
      → is_tool_output (diagnose_output serde idx map).0 ≡ true
  unfolding diagnose_tool_output is_tool_output
  mended-tool_output r =
      let after = (diagnose_output serde idx map).0 in
      let calls = require_nonempty_string map "call_id" idx "payload.call_id" in
      let (call, output) = all-parts is_repaired calls (diagnose_output serde idx map).1 r in
      rw
        (
          has_nonempty_text-of "call_id" after map (kept-output "call_id" refl),
          ← mended-nonempty map "call_id" idx "payload.call_id",
          call,
        )
        (unfold diagnose_output in
          mended-with_field _ _ _ map is_output refl (mended-output serde idx) output)
