-- ===== src/Capture/Bytes/Find.antt =====
-- Where `find_bytes` of src/passive_capture.rs finds what it looks for.
use mathlib.Core.Path.{subst}
use context_guardian.Prelude.{
  ℕ, suc, ◌+◌, ◌≤◌, ◌<◌, true, false, some, List, [], ◌∷◌, ◌++◌, ltb, length, drop, drop-drop,
  length-drop, ◌≡◌, refl, sym, arith, Bool-cases, inl, inr, none_apart, bind_parts, length-append,
  drop-append_length,
}
use context_guardian.Rollout.Analysis.{starts_codes}
use context_guardian.Capture.Bytes.{position, find_bytes}

pub starts_codes-length :
    (part bytes : List ℕ) → starts_codes part bytes ≡ true → length part ≤ length bytes
unfolding starts_codes
starts_codes-length [] bytes starts = omega arith
starts_codes-length (n ∷ ns) [] starts = cc
starts_codes-length (n ∷ ns) (m ∷ ms) starts = ground (arith, starts_codes-length ns ms)

the_number : (i j : ℕ) → some i ≡ some j → i ≡ j
the_number i j h = cc

position_sound :
    (needle bytes : List ℕ) (i : ℕ)
    → position needle bytes ≡ some i
    → starts_codes needle (drop i bytes) ≡ true
unfolding position
position_sound needle [] i found = absurd (none_apart found)
position_sound needle (b ∷ bs) i found = elim (Bool-cases (starts_codes needle (b ∷ bs))) [
  | inl here ↦ rw (sym (the_number 0 i (rw (position, here) at found))) here
  | inr later ↦
      let (j, there, next) = bind_parts (position needle bs) _ i (rw (position, later) at found) in
      rw (sym (the_number (suc j) i next)) (position_sound needle bs j there)
]

-- What is found starts at or behind the start, and lies in the bytes.
pub find_bytes_sound :
    (haystack needle : List ℕ) (start at_byte : ℕ)
    → 0 < length needle
    → find_bytes haystack needle start ≡ some at_byte
    → (start ≤ at_byte)
      × (at_byte + length needle ≤ length haystack)
      × (starts_codes needle (drop at_byte haystack) ≡ true)
unfolding find_bytes
find_bytes_sound haystack needle start at_byte some_needle found =
    elim (Bool-cases (ltb (length haystack) start)) [
      | inl outside ↦ absurd (none_apart (rw (outside) at found))
      | inr inside ↦
          let (i, there, next) =
            bind_parts (position needle (drop start haystack)) _ at_byte
              (rw (find_bytes, inside) at found) in
          let starts : starts_codes needle (drop (start + i) haystack) ≡ true =
            rw (sym (drop-drop start i haystack))
              (position_sound needle (drop start haystack) i there) in
          let room = starts_codes-length needle (drop (start + i) haystack) starts in
          subst
            (λ place.
              (start ≤ place)
              × (place + length needle ≤ length haystack)
              × (starts_codes needle (drop place haystack) ≡ true))
            (the_number (start + i) at_byte next)
            (omega arith, omega (arith, length-drop (start + i) haystack), starts)
    ]

-- A needle is found where it starts, when it starts nowhere in front of that.
abbrev pub StartsNowhere : List ℕ → List ℕ → List ℕ → Type 0
StartsNowhere needle [] rest = Unit
StartsNowhere needle (b ∷ bs) rest =
    (starts_codes needle (b ∷ bs ++ rest) ≡ false) × StartsNowhere needle bs rest

position-append :
    (needle front rest : List ℕ) (b : ℕ)
    → StartsNowhere needle front (b ∷ rest)
    → starts_codes needle (b ∷ rest) ≡ true
    → position needle (front ++ b ∷ rest) ≡ some (length front)
unfolding position
position-append needle [] rest b nowhere starts = rw (starts) refl
position-append needle (c ∷ front) rest b nowhere starts =
    rw (nowhere.0, position-append needle front rest b nowhere.1 starts) refl

-- In a list whose first part has the length of the start.
pub find_bytes-append :
    (before front rest needle : List ℕ) (b : ℕ)
    → StartsNowhere needle front (b ∷ rest)
    → starts_codes needle (b ∷ rest) ≡ true
    → find_bytes (before ++ (front ++ b ∷ rest)) needle (length before)
      ≡ some (length before + length front)
unfolding find_bytes
find_bytes-append before front rest needle b nowhere starts =
    let inside : ltb (length (before ++ (front ++ b ∷ rest))) (length before) ≡ false =
      ground (arith, length-append before (front ++ b ∷ rest)) in
    rw
      (
        inside,
        drop-append_length before (front ++ b ∷ rest),
        position-append needle front rest b nowhere starts,
      )
      refl
