-- ===== src/MessageFormat/Issue.antt =====
-- The issues that a diagnosis reports. The functions of src/message_format.rs change a value in
-- place and push issues on a vector; here each returns the new value and the issues that it pushes.
use context_guardian.Prelude.{
  ℕ, suc, String, Bool, List, [], ◌∷◌, Option, none, some, if◌then◌else◌, ◌>>=◌, all, any, map,
}
use context_guardian.Json.{
  Value, null, boolean, number, string, array, object, Map, lookup, replace, get, as_object,
}

pub record FormatIssue : Type 0 where
  pub record_index : ℕ
  pub path : String
  pub expected : String
  pub actual : String
  pub repaired : Bool

unfoldable pub value_kind : Option Value → String
value_kind none = "missing"
value_kind (some null) = "null"
value_kind (some (boolean b)) = "boolean"
value_kind (some (number n)) = "number"
value_kind (some (string s)) = "string"
value_kind (some (array xs)) = "array"
value_kind (some (object m)) = "object"

-- `issue(issues, record_index, path, expected, actual, repaired)`, as the one issue that it pushes.
abbrev pub issue : ℕ → String → String → Option Value → Bool → List FormatIssue
issue record_index path expected actual repaired =
    record {
      record_index = record_index;
      path = path;
      expected = expected;
      actual = value_kind actual;
      repaired = repaired;
    }
    ∷ []

-- A value after its diagnosis, and the issues pushed.
abbrev pub Diagnosed : Type 0 → Type 0
Diagnosed A = A × List FormatIssue

abbrev pub is_repaired : FormatIssue → Bool
is_repaired i = i.repaired

-- No issue was left unrepaired.
abbrev pub all_repaired : List FormatIssue → Bool
all_repaired = all is_repaired

abbrev pub any_repaired : List FormatIssue → Bool
any_repaired = any is_repaired

-- `issues.iter().filter(|issue| !issue.repaired).count()`
unfoldable pub count_unrepaired : List FormatIssue → ℕ
count_unrepaired [] = 0
count_unrepaired (i ∷ is) = if i.repaired then count_unrepaired is else suc (count_unrepaired is)

-- `let Some(field) = map.get_mut(key) else { <the missing issues>; return }; diagnose(field)`
unfoldable pub with_field :
    String → List FormatIssue → (Value → Diagnosed Value) → Map → Diagnosed Map
with_field key missing diagnose map = elim (lookup key map) [
  | none ↦ (map, missing)
  | some field ↦ let (after, issues) = diagnose field in (replace key after map, issues)
]

abbrev pub set_field : String → Value → Value → Value
set_field key v (object map) = object (replace key v map)
set_field key v value = value

-- `let Some(payload) = value.get_mut("payload").and_then(Value::as_object_mut) else { … }`
unfoldable pub with_payload : List FormatIssue → (Map → Diagnosed Map) → Value → Diagnosed Value
with_payload missing diagnose value = elim (do payload ← get "payload" value; as_object payload) [
  | none ↦ (value, missing)
  | some payload ↦
      let (after, issues) = diagnose payload in (set_field "payload" (object after) value, issues)
]
