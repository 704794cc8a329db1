-- ===== src/Rollout/Images/Parts.antt =====
-- The spans that `data_image_spans` of src/main.rs finds.
use mathlib.Core.Path.{subst}
use Prim.Native.Char.{code}
use context_guardian.Prelude.{
  ℕ, zero, suc, ◌+◌, ◌<◌, String, true, false, none, some, bind_parts, none_apart, List, [], ◌∷◌,
  codes, length, is_some, ◌+s◌, strip_prefix, All, ◌≡◌, refl, sym, ap, ◌∙◌, arith, inl, inr,
  Bool-cases, Option-cases, Bool-apart, all, not, char_eq, &&-true,
}
use text.Mathlib.TextLemmas.{nil-append, cons-append}
use context_guardian.Capture.Bytes.{is_space}
use context_guardian.Rollout.Images.{ends_uri, find_uri, cut_uri, spans_from, data_image_spans}

-- The spans with the texts in front of them, and the text behind them.
abbrev pub join_spans : List (String × String) → String → String
join_spans [] rest = rest
join_spans ((front, uri) ∷ spans) rest = front +s (uri +s join_spans spans rest)

the_parts : (p q : String × String) → some p ≡ some q → p ≡ q
the_parts p q h = cc

abbrev IsFound : String → String × String → Type 0
IsFound text (front, found) =
    (text ≡ front +s found) × (is_some (strip_prefix "data:image" found) ≡ true)

find_uri-IsFound :
    (text : String) (parts : String × String) → find_uri text ≡ some parts → IsFound text parts
unfolding find_uri
find_uri-IsFound String.[] parts found = absurd (none_apart found)
find_uri-IsFound (String.◌∷◌ c s) parts found =
    elim (Bool-cases (is_some (strip_prefix "data:image" (String.◌∷◌ c s)))) [
      | inl here ↦
          subst (IsFound (String.◌∷◌ c s)) (the_parts _ parts (rw (here, find_uri) at found))
            (sym (nil-append (String.◌∷◌ c s)), here)
      | inr later ↦
          let ((front, rest), there, same) =
            bind_parts (find_uri s) _ parts (rw (later, find_uri) at found) in
          let (whole, starts) = find_uri-IsFound s (front, rest) there in
          subst (IsFound (String.◌∷◌ c s)) (the_parts _ parts same)
            (rw (whole, cons-append c front rest) refl, starts)
    ]

cut_uri-append : (text : String) → text ≡ (cut_uri text).0 +s (cut_uri text).1
unfolding cut_uri
cut_uri-append String.[] = sym (nil-append "")
cut_uri-append (String.◌∷◌ c s) = elim (Bool-cases (ends_uri (code c))) [
  | inl ended ↦ rw (ended, cut_uri, nil-append (String.◌∷◌ c s)) refl
  | inr more ↦
      rw (more, cut_uri, cons-append c (cut_uri s).0 (cut_uri s).1)
        (ap (String.◌∷◌ c) (cut_uri-append s))
]

-- A data URI keeps the characters it starts with, none of which ends it.
cut_uri_starts :
    (start found : String)
    → all (λ n. not (ends_uri n)) (codes start) ≡ true
    → is_some (strip_prefix start found) ≡ true
    → is_some (strip_prefix start (cut_uri found).0) ≡ true
unfolding strip_prefix cut_uri
cut_uri_starts String.[] found open_chars starts = refl
cut_uri_starts (String.◌∷◌ c p) String.[] open_chars starts = starts
cut_uri_starts (String.◌∷◌ c p) (String.◌∷◌ d s) open_chars starts =
    elim (Bool-cases (char_eq c d)) [
      | inr other ↦ absurd (Bool-apart (sym (rw (other) at starts)))
      | inl same ↦
          let more : ends_uri (code d) ≡ false = ground arith in
          rw (more, cut_uri, same)
            (cut_uri_starts p s (&&-true _ _ open_chars).1 (rw (same) at starts))
    ]

length-codes : (s t : String) → length (codes (s +s t)) ≡ length (codes s) + length (codes t)
length-codes String.[] t = rw (nil-append t) (omega arith)
length-codes (String.◌∷◌ c s) t = rw (cons-append c s t) (omega (arith, length-codes s t))

starts_longer : (s : String) → is_some (strip_prefix "data:image" s) ≡ true → 0 < length (codes s)
unfolding strip_prefix
starts_longer String.[] starts = absurd (Bool-apart (sym starts))
starts_longer (String.◌∷◌ c s) starts = omega arith

-- Spans that make up the text, each a data URI, with none left behind them.
abbrev pub AreSpans : String → List (String × String) × String → Type 0
AreSpans text (spans, rest) =
    (text ≡ join_spans spans rest)
    × All (λ span. is_some (strip_prefix "data:image" span.1) ≡ true) spans
    × (find_uri rest ≡ none)

spans_from-AreSpans :
    (fuel : ℕ) (text : String) → length (codes text) < fuel → AreSpans text (spans_from fuel text)
unfolding spans_from ends_uri is_space
spans_from-AreSpans zero text enough = absurd (omega arith)
spans_from-AreSpans (suc fuel) text enough = elim (Option-cases (find_uri text)) [
  | inl absent ↦ rw (absent, spans_from) (refl, tt, absent)
  | inr ((front, found), there) ↦
      let (whole, starts) = find_uri-IsFound text (front, found) there in
      let uri = (cut_uri found).0 in
      let behind = (cut_uri found).1 in
      let uri_starts : is_some (strip_prefix "data:image" uri) ≡ true =
        cut_uri_starts "data:image" found refl starts in
      let shorter : length (codes behind) < fuel = omega (
        arith,
        starts_longer uri uri_starts,
        length-codes uri behind,
        length-codes front found,
        ap (λ t. length (codes t)) whole,
        ap (λ t. length (codes t)) (cut_uri-append found),
      ) in
      let (again, others, nothing) = spans_from-AreSpans fuel behind shorter in
      rw (there, spans_from)
        (
          whole ∙ ap (λ t. front +s t) (cut_uri-append found ∙ ap (λ t. uri +s t) again),
          (uri_starts, others),
          nothing,
        )
]

-- The spans that are found in a text, with the texts between them, make up the text; each one starts
-- as the URI of an image does, and no such start is left behind the last one.
pub data_image_spans-AreSpans : (text : String) → AreSpans text (data_image_spans text)
unfolding data_image_spans
data_image_spans-AreSpans text = spans_from-AreSpans (suc (length (codes text))) text (omega arith)
