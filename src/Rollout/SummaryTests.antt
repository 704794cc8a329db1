-- ===== src/Rollout/SummaryTests.antt =====
-- Tests of the requests for summaries of large outputs by src/main.rs, and of their answers.
use context_guardian.Prelude.{◌≡◌, refl, true, false, none, some, before, strip_suffix}
use context_guardian.Capture.Bytes.{trim, trim_end, trim_start, is_space}
use context_guardian.Json.{Value, string, object, array, nil, cons, empty, entry, lookup}
use context_guardian.Rollout.Summary.{
  is_responses_endpoint, trim_slashes, parse_cc_switch_summary, summary_text, join_outputs,
  output_texts, part_texts, join_with,
}

finds_endpoint : is_responses_endpoint "http://a/v1/responses/?x=/chat#y" ≡ true
unfolding is_responses_endpoint trim_slashes before strip_suffix
finds_endpoint = refl

abbrev two_outputs : Value
two_outputs = object (
    entry "output"
      (array (
        cons
          (object (
            entry "content"
              (array (
                cons (object (entry "text" (string "a") (entry "type" (string "text") empty))) nil))
              empty))
          (cons
            (object (
              entry "content"
                (array (
                  cons
                    (object
                      (entry "text" (string "b ") (entry "type" (string "output_text") empty)))
                    nil))
                empty))
            nil)))
      empty)

joins_outputs : parse_cc_switch_summary two_outputs true ≡ some "a\nb"
unfolding parse_cc_switch_summary summary_text join_outputs output_texts part_texts join_with lookup
    trim trim_end trim_start is_space
joins_outputs = refl

finds_no_choice : parse_cc_switch_summary two_outputs false ≡ none
unfolding parse_cc_switch_summary summary_text lookup
finds_no_choice = refl
