-- ===== src/Rollout/Chunks.antt =====
-- The cutting of a text into chunks by estimated tokens in src/main.rs. A loop that pushes on a
-- vector returns what it pushes.
pub mod Joined
use Prim.Native.Char.{Char, code}
use context_guardian.Prelude.{
  ℕ, zero, suc, ◌+◌, max, String, Bool, true, false, not, ◌&&◌, List, [], ◌∷◌, ◌++◌, ltb, eqb,
  if◌then◌else◌, is_empty_text, ◌+s◌,
}

unfoldable pub estimate_char_tokens : Char → ℕ
estimate_char_tokens ch = if ltb (code ch) 128 then 1 else 2

-- The sum over the characters, and the estimate, which is at least one.
unfoldable pub char_tokens : String → ℕ
char_tokens String.[] = 0
char_tokens (String.◌∷◌ c s) = estimate_char_tokens c + char_tokens s

unfoldable pub estimate_tokens : String → ℕ
estimate_tokens input = max (char_tokens input) 1

-- The last push of both loops.
unfoldable pub push_rest : String → List String
push_rest current = if is_empty_text current then [] else current ∷ []

abbrev pub char_text : Char → String
char_text c = String.◌∷◌ c String.[]

-- The loop over the characters, with the current piece and its tokens.
unfoldable pub split_loop : ℕ → String → String → ℕ → List String
split_loop target String.[] current tokens = push_rest current
split_loop target (String.◌∷◌ c s) current tokens =
    elim (not (is_empty_text current) && ltb target (tokens + estimate_char_tokens c)) [
      | true ↦ current ∷ split_loop target s ("" +s char_text c) (0 + estimate_char_tokens c)
      | false ↦ split_loop target s (current +s char_text c) (tokens + estimate_char_tokens c)
    ]

unfoldable pub split_long_piece : String → ℕ → List String
split_long_piece input target = split_loop target input "" 0

-- `input.split_inclusive('\n')`, with the line so far.
unfoldable pub lines_from : String → String → List String
lines_from line String.[] = push_rest line
lines_from line (String.◌∷◌ c s) = elim (eqb (code c) 10) [
  | true ↦ (line +s char_text c) ∷ lines_from "" s
  | false ↦ lines_from (line +s char_text c) s
]

-- The pieces of a long line, each after what is left of the current chunk.
unfoldable pub push_pieces : List String → String × ℕ → List String × (String × ℕ)
push_pieces [] state = ([], state)
push_pieces (piece ∷ pieces) (current, tokens) = elim (is_empty_text current) [
  | true ↦ let (pushed, state) = push_pieces pieces (current, tokens) in (piece ∷ pushed, state)
  | false ↦ let (pushed, state) = push_pieces pieces ("", 0) in (current ∷ piece ∷ pushed, state)
]

-- The first test of the loop over the lines.
unfoldable pub push_full : ℕ → ℕ → String × ℕ → List String × (String × ℕ)
push_full target line_tokens (current, tokens) =
    if not (is_empty_text current) && ltb target (tokens + line_tokens)
    then (current ∷ [], ("", 0))
    else ([], (current, tokens))

-- The rest of the loop's body.
unfoldable pub push_line : ℕ → String → String × ℕ → List String × (String × ℕ)
push_line target line (current, tokens) =
    if ltb target (estimate_tokens line)
    then push_pieces (split_long_piece line target) (current, tokens)
    else ([], (current +s line, tokens + estimate_tokens line))

unfoldable pub chunk_loop : ℕ → List String → String × ℕ → List String
chunk_loop target [] (current, tokens) = push_rest current
chunk_loop target (line ∷ lines) state =
    let (full, state') = push_full target (estimate_tokens line) state in
    let (pushed, state'') = push_line target line state' in
    full ++ (pushed ++ chunk_loop target lines state'')

unfoldable pub chunk_by_estimated_tokens : String → ℕ → List String
chunk_by_estimated_tokens input target_tokens =
    chunk_loop (max target_tokens 1) (lines_from "" input) ("", 0)
