-- ===== src/Capture/Bytes.antt =====
-- Texts and bytes, for src/passive_capture.rs: the methods of the standard library that it calls.
pub mod Find
use Prim.Native.Char.{Char, char, code, IsScalar}
use context_guardian.Prelude.{
  ℕ, zero, suc, ◌+◌, ◌-◌, ◌*◌, ◌/◌, ◌%◌, ◌^◌, ◌≡◌, refl, String, Bool, true, false, not, ◌&&◌, ◌||◌,
  Option, none, some, List, [], ◌∷◌, ◌++◌, ltb, leb, eqb, if◌then◌else◌, unwrap_or, ◌>>=◌, codes,
  strip_prefix, char_eq, Bool-apart, Ordering, compare, &&-true, is_empty_text, length, drop, inl,
  inr, ◌⊎◌,
}
use context_guardian.Rollout.Analysis.{lowercase, starts_codes}

-- The UTF-8 bytes of a character.
unfoldable pub encode_char : ℕ → List ℕ
encode_char n =
    if ltb n 128
    then n ∷ []
    else if ltb n 2048
    then (192 + n / 64) ∷ (128 + n % 64) ∷ []
    else if ltb n 65536
    then (224 + n / 4096) ∷ (128 + n / 64 % 64) ∷ (128 + n % 64) ∷ []
    else (240 + n / 262144) ∷ (128 + n / 4096 % 64) ∷ (128 + n / 64 % 64) ∷ (128 + n % 64) ∷ []

-- `text.as_bytes()`
unfoldable pub as_bytes : String → List ℕ
as_bytes String.[] = []
as_bytes (String.◌∷◌ c s) = encode_char (code c) ++ as_bytes s

-- The character with a number, where the number is one.
is_less : (o : Ordering) → (elim o [ Ordering.lt ↦ true | _ ↦ false ]) ≡ true → o ≡ Ordering.lt
is_less Ordering.lt h = refl
is_less Ordering.eq h = cc
is_less Ordering.gt h = cc

Ordering-cases : (o : Ordering) → (o ≡ Ordering.lt) ⊎ ((o ≡ Ordering.eq) ⊎ (o ≡ Ordering.gt))
Ordering-cases Ordering.lt = inl refl
Ordering-cases Ordering.eq = inr (inl refl)
Ordering-cases Ordering.gt = inr (inr refl)

pub low-IsScalar : (n : ℕ) → ltb n 55296 ≡ true → IsScalar n
low-IsScalar n low = rw (is_less (compare n 55296) low) tt

pub high-IsScalar : (n : ℕ) → (ltb 57343 n && ltb n 1114112) ≡ true → IsScalar n
high-IsScalar n range =
    let (above, under) = &&-true _ _ range in
    elim (Ordering-cases (compare n 55296)) [
      | inl low ↦ rw (low) tt
      | inr (inl same) ↦
          rw (same, is_less (compare 57343 n) above, is_less (compare n 1114112) under) tt
      | inr (inr high) ↦
          rw (high, is_less (compare 57343 n) above, is_less (compare n 1114112) under) tt
    ]

abbrev high_char : (n : ℕ) → (b : Bool) → (ltb 57343 n && ltb n 1114112) ≡ b → Option Char
high_char n true range = some (char n (high-IsScalar n range))
high_char n false outside = none

abbrev low_char : (n : ℕ) → (b : Bool) → ltb n 55296 ≡ b → Option Char
low_char n true low = some (char n (low-IsScalar n low))
low_char n false high = high_char n (ltb 57343 n && ltb n 1114112) refl

unfoldable pub char_of : ℕ → Option Char
char_of n = low_char n (ltb n 55296) refl

-- `std::str::from_utf8`. Between the bytes of one character the state has the number of bytes to come,
-- the bits so far and the least number that needs as many bytes.
pub data Utf8 : Type 0 where
  between : Utf8
  within : ℕ → ℕ → ℕ → Utf8

unfoldable pub leading_byte : ℕ → Option (Utf8 × Option ℕ)
leading_byte byte =
    if ltb byte 128
    then some (between, some byte)
    else if ltb byte 194
    then none
    else if ltb byte 224
    then some (within 0 (byte - 192) 128, none)
    else if ltb byte 240
    then some (within 1 (byte - 224) 2048, none)
    else if ltb byte 245
    then some (within 2 (byte - 240) 65536, none)
    else none

unfoldable pub following_byte : ℕ → ℕ → ℕ → ℕ → Option (Utf8 × Option ℕ)
following_byte missing bits least byte =
    let all_bits = bits * 64 + (byte - 128) in
    if ltb byte 128 || leb 192 byte then none else elim missing [
      | zero ↦ if leb least all_bits then some (between, some all_bits) else none
      | suc fewer ↦ some (within fewer all_bits least, none)
    ]

unfoldable pub utf8_step : Utf8 → ℕ → Option (Utf8 × Option ℕ)
utf8_step between byte = leading_byte byte
utf8_step (within missing bits least) byte = following_byte missing bits least byte

abbrev emit : Option ℕ → Option String → Option String
emit none rest = rest
emit (some n) rest = do c ← char_of n; s ← rest; some (String.◌∷◌ c s)

unfoldable pub utf8_from : Utf8 → List ℕ → Option String
utf8_from between [] = some ""
utf8_from (within missing bits least) [] = none
utf8_from state (byte ∷ bytes) = do
  (next, read) ← utf8_step state byte
  emit read (utf8_from next bytes)

unfoldable pub from_utf8 : List ℕ → Option String
unfolding utf8_from utf8_step leading_byte following_byte
from_utf8 bytes = utf8_from between bytes

-- `char::is_whitespace`
unfoldable pub is_space : ℕ → Bool
is_space n =
    (leb 9 n && leb n 13)
    || (eqb n 32
        || (eqb n 133
            || (eqb n 160
                || (eqb n 5760
                    || ((leb 8192 n && leb n 8202)
                        || (eqb n 8232
                            || (eqb n 8233 || (eqb n 8239 || (eqb n 8287 || eqb n 12288)))))))))

unfoldable pub trim_start : String → String
trim_start String.[] = ""
trim_start (String.◌∷◌ c s) =
    let rest = trim_start s in if is_space (code c) then rest else String.◌∷◌ c s

abbrev drop_space : Char → String → String
drop_space c String.[] = if is_space (code c) then "" else String.◌∷◌ c ""
drop_space c rest = String.◌∷◌ c rest

unfoldable pub trim_end : String → String
trim_end String.[] = ""
trim_end (String.◌∷◌ c s) = drop_space c (trim_end s)

unfoldable pub trim : String → String
trim text = trim_end (trim_start text)

unfoldable pub to_ascii_lowercase : String → String
to_ascii_lowercase String.[] = ""
to_ascii_lowercase (String.◌∷◌ c s) =
    String.◌∷◌ (unwrap_or (char_of (lowercase (code c))) c) (to_ascii_lowercase s)

-- `text.split_whitespace()`: the word that the text starts in, and those behind it.
unfoldable words_from : String → String × List String
words_from String.[] = ("", [])
words_from (String.◌∷◌ c s) =
    let (word, others) = words_from s in
    if is_space (code c)
    then ("", if is_empty_text word then others else word ∷ others)
    else (String.◌∷◌ c word, others)

unfoldable pub split_whitespace : String → List String
unfolding words_from
split_whitespace text =
    let (word, others) = words_from text in if is_empty_text word then others else word ∷ others

-- `text.split("\r\n")`: the first line and the others.
abbrev join_line : Char → Option String → String → List String → String × List String
join_line c (some behind) line others =
    if eqb (code c) 13 then ("", behind ∷ others) else (String.◌∷◌ c line, others)
join_line c none line others = (String.◌∷◌ c line, others)

unfoldable pub split_lines : String → String × List String
split_lines String.[] = ("", [])
split_lines (String.◌∷◌ c s) =
    let (line, others) = split_lines s in join_line c (strip_prefix "\n" line) line others

-- The value of a digit.
unfoldable pub digit_of : ℕ → ℕ → Option ℕ
digit_of radix n =
    let value =
      if leb 48 n && leb n 57
      then n - 48
      else if leb 97 n && leb n 122
      then n - 87
      else if leb 65 n && leb n 90
      then n - 55
      else radix in
    if ltb value radix then some value else none

-- A number is read digit by digit, and has to stay below `2 ^ bits`.
unfoldable pub digits_from : ℕ → ℕ → ℕ → List ℕ → Option ℕ
digits_from radix bits so_far [] = some so_far
digits_from radix bits so_far (n ∷ ns) = do
  digit ← digit_of radix n
  more ← if ltb (so_far * radix + digit) (2 ^ bits) then some (so_far * radix + digit) else none
  digits_from radix bits more ns

-- `from_str_radix` for unsigned numbers: at least one digit, behind at most one plus sign.
unfoldable pub from_digits : ℕ → ℕ → List ℕ → Option ℕ
from_digits radix bits [] = none
from_digits radix bits (n ∷ ns) = digits_from radix bits 0 (n ∷ ns)

unfoldable pub from_str_radix : ℕ → ℕ → List ℕ → Option ℕ
from_str_radix radix bits [] = none
from_str_radix radix bits (n ∷ ns) =
    if eqb n 43 then from_digits radix bits ns else from_digits radix bits (n ∷ ns)

-- `haystack.windows(needle.len()).position(|window| window == needle)`
unfoldable pub position : List ℕ → List ℕ → Option ℕ
position needle [] = none
position needle (b ∷ bs) =
    let later = (do i ← position needle bs; some (suc i)) in
    if starts_codes needle (b ∷ bs) then some 0 else later

unfoldable pub find_bytes : List ℕ → List ℕ → ℕ → Option ℕ
find_bytes haystack needle start =
    if ltb (length haystack) start
    then none
    else do i ← position needle (drop start haystack); some (start + i)
