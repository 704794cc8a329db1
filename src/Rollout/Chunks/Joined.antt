-- ===== src/Rollout/Chunks/Joined.antt =====
-- The chunks of src/main.rs, put together again.
use Prim.Native.Char.{Char, code}
use text.Mathlib.TextLemmas.{nil-append, cons-append}
use text.Mathlib.TextLemmas.{append_assoc as text_assoc, append-nil as text_nil}
use context_guardian.Prelude.{
  ℕ, ◌+◌, max, String, ◌≡◌, refl, sym, ap, ◌∙◌, inl, inr, true, not, ◌&&◌, List, [], ◌∷◌, ◌++◌, ltb,
  eqb, is_empty_text, ◌+s◌, Bool-cases,
}
use context_guardian.Rollout.Chunks.{
  estimate_char_tokens, estimate_tokens, push_rest, char_text, split_loop, split_long_piece,
  lines_from, push_pieces, push_full, push_line, chunk_loop, chunk_by_estimated_tokens,
}

abbrev pub join : List String → String
join [] = ""
join (s ∷ texts) = s +s join texts

join-append : (xs ys : List String) → join (xs ++ ys) ≡ join xs +s join ys
join-append [] ys = sym (nil-append (join ys))
join-append (x ∷ xs) ys =
    ap (λ s. x +s s) (join-append xs ys) ∙ sym (text_assoc x (join xs) (join ys))

empty_text : (s : String) → is_empty_text s ≡ true → s ≡ ""
empty_text String.[] h = refl
empty_text (String.◌∷◌ c s) h = cc

join-push_rest : (current : String) → join (push_rest current) ≡ current
unfolding push_rest
join-push_rest current = elim (Bool-cases (is_empty_text current)) [
  | inl none_left ↦ rw (none_left, push_rest) (sym (empty_text current none_left))
  | inr some_left ↦ rw (some_left, push_rest) (text_nil current)
]

-- A character pushed on a text stands in front of what follows.
push_char :
    (current : String) (c : Char) (s : String)
    → (current +s char_text c) +s s ≡ current +s String.◌∷◌ c s
push_char current c s =
    text_assoc current (char_text c) s
    ∙ ap (λ u. current +s u) (cons-append c "" s ∙ ap (λ u. String.◌∷◌ c u) (nil-append s))

join-split_loop :
    (target : ℕ) (s current : String) (tokens : ℕ)
    → join (split_loop target s current tokens) ≡ current +s s
unfolding split_loop
join-split_loop target String.[] current tokens = join-push_rest current ∙ sym (text_nil current)
join-split_loop target (String.◌∷◌ c s) current tokens =
    elim (Bool-cases
      (not (is_empty_text current) && ltb target (tokens + estimate_char_tokens c))) [
        | inl full ↦
            rw (full, split_loop)
              (ap (λ u. current +s u)
                (join-split_loop target s ("" +s char_text c) (0 + estimate_char_tokens c)
                  ∙ push_char "" c s
                  ∙ nil-append (String.◌∷◌ c s)))
        | inr room ↦
            rw (room, split_loop)
              (join-split_loop target s (current +s char_text c) (tokens + estimate_char_tokens c)
                ∙ push_char current c s)
      ]

join-split_long_piece : (input : String) (target : ℕ) → join (split_long_piece input target) ≡ input
unfolding split_long_piece
join-split_long_piece input target = join-split_loop target input "" 0 ∙ nil-append input

join-lines_from : (s line : String) → join (lines_from line s) ≡ line +s s
unfolding lines_from
join-lines_from String.[] line = join-push_rest line ∙ sym (text_nil line)
join-lines_from (String.◌∷◌ c s) line = elim (Bool-cases (eqb (code c) 10)) [
  | inl ends ↦
      rw (ends, lines_from)
        (ap (λ u. (line +s char_text c) +s u) (join-lines_from s "" ∙ nil-append s)
          ∙ push_char line c s)
  | inr goes_on ↦
      rw (goes_on, lines_from) (join-lines_from s (line +s char_text c) ∙ push_char line c s)
]

front_empty : (current s : String) → is_empty_text current ≡ true → current +s s ≡ s
front_empty current s none_left = ap (λ u. u +s s) (empty_text current none_left) ∙ nil-append s

-- What a part of the loop pushes and leaves is what it had and the new text.
abbrev Keeps : String → List String × (String × ℕ) → Type 0
Keeps before (pushed, (current, tokens)) = join pushed +s current ≡ before

push_pieces-Keeps :
    (pieces : List String) (current : String) (tokens : ℕ)
    → Keeps (current +s join pieces) (push_pieces pieces (current, tokens))
unfolding push_pieces
push_pieces-Keeps [] current tokens = nil-append current ∙ sym (text_nil current)
push_pieces-Keeps (piece ∷ pieces) current tokens = elim (Bool-cases (is_empty_text current)) [
  | inl none_left ↦
      rw (none_left, push_pieces)
        (text_assoc piece (join (push_pieces pieces (current, tokens)).0)
            (push_pieces pieces (current, tokens)).1.0
          ∙ ap (λ u. piece +s u)
              (push_pieces-Keeps pieces current tokens
                ∙ front_empty current (join pieces) none_left)
          ∙ sym (front_empty current (piece +s join pieces) none_left))
  | inr some_left ↦
      rw (some_left, push_pieces)
        (text_assoc current (piece +s join (push_pieces pieces ("", 0)).0)
            (push_pieces pieces ("", 0)).1.0
          ∙ ap (λ u. current +s u)
              (text_assoc piece (join (push_pieces pieces ("", 0)).0)
                  (push_pieces pieces ("", 0)).1.0
                ∙ ap (λ u. piece +s u) (push_pieces-Keeps pieces "" 0 ∙ nil-append (join pieces))))
]

push_full-Keeps :
    (target line_tokens : ℕ) (current : String) (tokens : ℕ)
    → Keeps current (push_full target line_tokens (current, tokens))
unfolding push_full
push_full-Keeps target line_tokens current tokens =
    elim (Bool-cases (not (is_empty_text current) && ltb target (tokens + line_tokens))) [
      | inl full ↦ rw (full, push_full) (text_nil (current +s "") ∙ text_nil current)
      | inr room ↦ rw (room, push_full) (nil-append current)
    ]

push_line-Keeps :
    (target : ℕ) (line current : String) (tokens : ℕ)
    → Keeps (current +s line) (push_line target line (current, tokens))
unfolding push_line
push_line-Keeps target line current tokens = elim (Bool-cases (ltb target (estimate_tokens line))) [
  | inl long ↦
      rw (long, push_line)
        (push_pieces-Keeps (split_long_piece line target) current tokens
          ∙ ap (λ u. current +s u) (join-split_long_piece line target))
  | inr short ↦ rw (short, push_line) (nil-append (current +s line))
]

join-chunk_loop :
    (target : ℕ) (lines : List String) (current : String) (tokens : ℕ)
    → join (chunk_loop target lines (current, tokens)) ≡ current +s join lines
unfolding chunk_loop
join-chunk_loop target [] current tokens = join-push_rest current ∙ sym (text_nil current)
join-chunk_loop target (line ∷ lines) current tokens =
    let first = push_full target (estimate_tokens line) (current, tokens) in
    let second = push_line target line first.1 in
    let rest = chunk_loop target lines second.1 in
    join-append first.0 (second.0 ++ rest)
    ∙ ap (λ u. join first.0 +s u)
        (join-append second.0 rest
          ∙ ap (λ u. join second.0 +s u) (join-chunk_loop target lines second.1.0 second.1.1)
          ∙ sym (text_assoc (join second.0) second.1.0 (join lines))
          ∙ ap (λ u. u +s join lines) (push_line-Keeps target line first.1.0 first.1.1)
          ∙ text_assoc first.1.0 line (join lines))
    ∙ sym (text_assoc (join first.0) first.1.0 (line +s join lines))
    ∙ ap (λ u. u +s (line +s join lines))
        (push_full-Keeps target (estimate_tokens line) current tokens)

-- The chunks of a text, one after the other, are the text.
pub join-chunk_by_estimated_tokens :
    (input : String) (target : ℕ) → join (chunk_by_estimated_tokens input target) ≡ input
unfolding chunk_by_estimated_tokens
join-chunk_by_estimated_tokens input target =
    join-chunk_loop (max target 1) (lines_from "" input) "" 0
    ∙ nil-append (join (lines_from "" input))
    ∙ join-lines_from input ""
    ∙ nil-append input
