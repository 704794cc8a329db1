-- ===== src/Prelude/Search.antt =====
-- Searches in a text: the methods of `str` that the Relay calls, with what they find.
use context_guardian.Prelude.Tests.{if◌then◌else◌, eqb, Bool-cases, Option-cases}
use context_guardian.Prelude.Text.{◌+s◌}
use Prim.Native.Char.{Char, code}
use Prim.Native.String.{String}
use mathlib.Core.Path.{◌≡◌, refl, sym, ap}
use mathlib.Core.Bool.{Bool, true, false, ◌||◌}
use mathlib.Core.Option.{Option, none, some}
use mathlib.Core.List.{List, [], ◌∷◌}
use mathlib.Core.Logic.{inl, inr}
use native.Mathlib.Omega.{arith}
use text.Mathlib.Text.{◌==◌}
use text.Mathlib.TextEquality.{eq_iff, Char-path}
use text.Mathlib.TextLemmas.{nil-append, cons-append}

abbrev pub char_eq : Char → Char → Bool
char_eq c d = eqb (code c) (code d)

pub char_eq_sound : (c d : Char) → char_eq c d ≡ true → c ≡ d
char_eq_sound c d h = Char-path c d (ground arith)

pub char_eq_refl : (c : Char) → char_eq c c ≡ true
char_eq_refl c = ground arith

-- `text.strip_prefix(prefix)`
unfoldable pub strip_prefix : String → String → Option String
strip_prefix String.[] s = some s
strip_prefix (String.◌∷◌ c p) String.[] = none
strip_prefix (String.◌∷◌ c p) (String.◌∷◌ d s) = if char_eq c d then strip_prefix p s else none

pub strip_prefix_sound : (p s t : String) → strip_prefix p s ≡ some t → s ≡ p +s t
unfolding strip_prefix
strip_prefix_sound String.[] s t h = rw (nil-append t) cc
strip_prefix_sound (String.◌∷◌ c p) String.[] t h = cc
strip_prefix_sound (String.◌∷◌ c p) (String.◌∷◌ d s) t h = elim (Bool-cases (char_eq c d)) [
  | inl same ↦
      rw (cons-append c p t, char_eq_sound c d same, sym (strip_prefix_sound p s t (ground arith)))
  | inr other ↦ ground arith
]

pub strip_prefix-append : (p s : String) → strip_prefix p (p +s s) ≡ some s
unfolding strip_prefix
strip_prefix-append String.[] s = rw (nil-append s)
strip_prefix-append (String.◌∷◌ c p) s =
    rw (cons-append c p s, char_eq_refl c, strip_prefix-append p s)

abbrev after_char : Char → Option String → Option String
after_char c none = none
after_char c (some s) = some (String.◌∷◌ c s)

-- `text.strip_suffix(suffix)`
unfoldable pub strip_suffix : String → String → Option String
strip_suffix p String.[] = if p == "" then some "" else none
strip_suffix p (String.◌∷◌ c s) =
    let rest = after_char c (strip_suffix p s) in if String.◌∷◌ c s == p then some "" else rest

the_text : (s t : String) → some s ≡ some t → s ≡ t
the_text s t h = cc

pub strip_suffix_sound : (p s t : String) → strip_suffix p s ≡ some t → s ≡ t +s p
unfolding strip_suffix
strip_suffix_sound p String.[] t h = elim (Bool-cases (p == "")) [
  | inl same ↦ rw ((eq_iff p "").0 same, sym (the_text "" t (ground arith)), nil-append "")
  | inr other ↦ ground arith
]
strip_suffix_sound p (String.◌∷◌ c s) t h = elim (Bool-cases (String.◌∷◌ c s == p)) [
  | inl same ↦
      rw ((eq_iff (String.◌∷◌ c s) p).0 same, sym (the_text "" t (ground arith)), nil-append p)
  | inr other ↦ elim (Option-cases (strip_suffix p s)) [
    | inl absent ↦ ground arith
    | inr (r, found) ↦ rw (
      sym (the_text (String.◌∷◌ c r) t (ground arith)),
      cons-append c r p,
      sym (strip_suffix_sound p s r found),
    )
  ]
]

-- `text.split(c).next()`: the part in front of the first `c`, and the rest from it on.
unfoldable pub before : Char → String → String
before k String.[] = ""
before k (String.◌∷◌ c s) = if char_eq c k then "" else String.◌∷◌ c (before k s)

unfoldable pub from : Char → String → String
from k String.[] = ""
from k (String.◌∷◌ c s) = if char_eq c k then String.◌∷◌ c s else from k s

abbrev first_after_char : Char → Option (String × String) → Option (String × String)
first_after_char c none = none
first_after_char c (some (a, b)) = some (String.◌∷◌ c a, b)

-- `text.split_once(c)`
unfoldable pub split_once : Char → String → Option (String × String)
split_once k String.[] = none
split_once k (String.◌∷◌ c s) =
    let rest = first_after_char c (split_once k s) in if char_eq c k then some ("", s) else rest

-- `text.split(c)`: the first part, and the others.
unfoldable pub split_from : Char → String → String × List String
split_from k String.[] = ("", [])
split_from k (String.◌∷◌ c s) =
    let (first, others) = split_from k s in
    if char_eq c k then ("", first ∷ others) else (String.◌∷◌ c first, others)

unfoldable pub split : Char → String → List String
unfolding split_from
split k s = let (first, others) = split_from k s in first ∷ others

-- `text.contains(c)`
unfoldable pub contains : Char → String → Bool
contains k String.[] = false
contains k (String.◌∷◌ c s) = char_eq c k || contains k s

pub before-from : (k : Char) (s : String) → before k s +s from k s ≡ s
unfolding before from
before-from k String.[] = refl
before-from k (String.◌∷◌ c s) = elim (Bool-cases (char_eq c k)) [
  | inl same ↦ rw (same, nil-append (String.◌∷◌ c s))
  | inr other ↦ rw (other, cons-append c (before k s) (from k s), before-from k s)
]

the_parts : (p q : String × String) → some p ≡ some q → (p.0 ≡ q.0) × (p.1 ≡ q.1)
the_parts p q h = let same : p ≡ q = cc in (ap (λ r. r.0) same, ap (λ r. r.1) same)

pub split_once_sound :
    (k : Char) (s a b : String) → split_once k s ≡ some (a, b) → s ≡ a +s String.◌∷◌ k b
unfolding split_once
split_once_sound k String.[] a b h = cc
split_once_sound k (String.◌∷◌ c s) a b h = elim (Bool-cases (char_eq c k)) [
  | inl same ↦ rw (
    char_eq_sound c k same,
    sym (the_parts ("", s) (a, b) (ground arith)).0,
    sym (the_parts ("", s) (a, b) (ground arith)).1,
    nil-append (String.◌∷◌ k s),
  )
  | inr other ↦ elim (Option-cases (split_once k s)) [
    | inl absent ↦ ground arith
    | inr ((a', b'), found) ↦ rw (
      sym (the_parts (String.◌∷◌ c a', b') (a, b) (ground arith)).0,
      sym (the_parts (String.◌∷◌ c a', b') (a, b) (ground arith)).1,
      cons-append c a' (String.◌∷◌ k b'),
      sym (split_once_sound k s a' b' found),
    )
  ]
]
