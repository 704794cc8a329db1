-- ===== src/Capture/Tests.antt =====
-- Tests of src/passive_capture.rs, and the theorems about it at concrete inputs.
use context_guardian.Rollout.Evidence.{first_chars}
use context_guardian.Capture.Schema.Redaction.{Alike}
use context_guardian.Prelude.{
  ℕ, ◌≤◌, ◌≡◌, refl, inl, inr, String, none, some, List, [], ◌∷◌, codes, length, Memᴰ, map, arith,
  sort_by_key, insert_by_key, decimal, sort_by_key,
}
use context_guardian.Json.{Value, string, object, array, number, unsigned, nil, cons, empty, entry}
use context_guardian.Capture.Stream.{
  Segment, reassemble, timestamp_for, join_segments, push_segment, wrapping_sub, last_mark,
  first_mark,
}
use context_guardian.Capture.Stream.Prefix.{IsPrefix, reassemble-IsPrefix}
use context_guardian.Capture.Schema.{
  SchemaField, collect_schema, push_field, value_kind, enum_of, safe_enum, escape_path,
  is_protocol_field, is_allowed, max_schema_fields, max_schema_depth, push_field, value_kind,
  is_protocol_field, enum_of, safe_enum,
}
use context_guardian.Capture.Schema.Limits.{
  nodes, height, collect_schema_bounds, collect_schema_answers,
}
use context_guardian.Capture.Schema.Redaction.{collect_schema-Alike, Alike}

-- "hello": a segment that is known already, one that overlaps, and one behind a gap.
abbrev part : ℕ → String → Segment
part at_byte text = record { sequence = at_byte; timestamp_ms = at_byte; bytes = codes text }

abbrev hello : List Segment
hello = part 102 "llo" ∷ part 100 "hel" ∷ part 101 "e" ∷ part 107 "x" ∷ []

abbrev sent : List ℕ
sent = codes "hello, x"

hello_bytes : (reassemble hello).bytes ≡ codes "hello"
unfolding reassemble join_segments push_segment wrapping_sub sort_by_key insert_by_key
hello_bytes = refl

hello_marks :
    map (timestamp_for (reassemble hello)) (0 ∷ 2 ∷ 3 ∷ 9 ∷ []) ≡ 100 ∷ 100 ∷ 102 ∷ 102 ∷ []
unfolding reassemble join_segments push_segment wrapping_sub sort_by_key insert_by_key timestamp_for
    last_mark first_mark
hello_marks = refl

reassemble-IsPrefix_example : IsPrefix (reassemble hello).bytes sent
reassemble-IsPrefix_example =
    reassemble-IsPrefix sent (part 100 "hel") hello (Memᴰ.tail (Memᴰ.head refl)) (
      (omega arith, omega arith, (codes ", x", refl)),
      (
        (omega arith, omega arith, (codes "lo, x", refl)),
        (
          (omega arith, omega arith, (codes "llo, x", refl)),
          ((omega arith, omega arith, ([], refl)), tt),
        ),
      ),
    )

abbrev toy_hash : List ℕ → String
toy_hash bytes = "0123456789abcdef0123"

abbrev message : String → String → Value
message key text = object (
    entry key (string text) (
      entry "content" (array (cons (number (unsigned 3)) nil))
        (entry "role" (string "user") empty)))

abbrev message_schema : List SchemaField
message_schema =
    record { path = "$"; value_type = "object"; safe_enum = none }
    ∷ record { path = "$.[key:0123456789abcdef]"; value_type = "string"; safe_enum = none }
    ∷ record { path = "$.content"; value_type = "array"; safe_enum = none }
    ∷ record { path = "$.content[0]"; value_type = "number"; safe_enum = none }
    ∷ record { path = "$.role"; value_type = "string"; safe_enum = some "user" }
    ∷ []

schema_runs : collect_schema toy_hash (message "secret" "plain") "$" none 0 [] ≡ some message_schema
unfolding collect_schema push_field value_kind enum_of safe_enum escape_path is_protocol_field
    is_allowed decimal first_chars
schema_runs = refl

collect_schema_bounds_example :
    (length message_schema ≡ nodes (message "secret" "plain"))
    × (nodes (message "secret" "plain") ≤ max_schema_fields)
    × (height (message "secret" "plain") ≤ max_schema_depth)
collect_schema_bounds_example =
    collect_schema_bounds toy_hash (message "secret" "plain") message_schema schema_runs

nodes-message : nodes (message "secret" "plain") ≡ 5
unfolding nodes
nodes-message = refl

height-message : height (message "secret" "plain") ≡ 2
unfolding height
height-message = refl

collect_schema_answers_example :
    (result : List SchemaField) × (collect_schema toy_hash (message "secret" "plain") "$" none 0 []
      ≡ some result)
collect_schema_answers_example =
    collect_schema_answers toy_hash (message "secret" "plain") (omega (arith, nodes-message))
      (omega (arith, height-message))

collect_schema-Alike_example :
    collect_schema toy_hash (message "secret" "plain") "$" none 0 []
    ≡ collect_schema toy_hash (message "hidden" "other") "$" none 0 []
unfolding Alike is_protocol_field first_chars
collect_schema-Alike_example =
    collect_schema-Alike toy_hash (message "secret" "plain") (message "hidden" "other")
      (inr (refl, refl, refl), inl refl, (inl refl, (tt, tt), (inl refl, inr (inl refl), tt)))
