-- ===== src/Capture/Io.antt =====
-- Results of src/passive_capture.rs: a value, or an error of the standard library with its kind, in
-- the words of `Debug`, and its message.
use context_guardian.Prelude.{String, Option, none, some, ◌≡◌, refl, ◌⊎◌, inl, inr}

pub data IoError : Type 0 where
  io_error : String → String → IoError

pub data IoResult (A : Type 0) : Type 0 where
  ok : A → IoResult A
  error : IoError → IoResult A

-- `?`
infixl 5 ◌>>=◌
abbrev pub ◌>>=◌ : {A B : Type 0} → IoResult A → (A → IoResult B) → IoResult B
ok a >>= f = f a
error e >>= f = error e

abbrev pub invalid_data : {A : Type 0} → String → IoResult A
invalid_data message = error (io_error "InvalidData" message)

abbrev pub unexpected_eof : {A : Type 0} → String → IoResult A
unexpected_eof message = error (io_error "UnexpectedEof" message)

-- `map_err` to `InvalidData`, for calls that give no value.
abbrev pub or_invalid : {A : Type 0} → String → Option A → IoResult A
or_invalid message none = invalid_data message
or_invalid message (some a) = ok a

pub error_apart : {A : Type 0} {e : IoError} {a : A} → error e ≡ ok a → ⊥
error_apart h = cc

pub the_ok : {A : Type 0} (a b : A) → ok a ≡ ok b → a ≡ b
the_ok a b h = cc

-- A chain that gives a result gives one at each of its steps.
pub ok_parts :
    {A B : Type 0} (r : IoResult A) (f : A → IoResult B) (b : B)
    → (r >>= f) ≡ ok b
    → (a : A) × (r ≡ ok a) × (f a ≡ ok b)
ok_parts (ok a) f b h = (a, refl, h)
ok_parts (error e) f b h = absurd (error_apart h)

pub IoResult-cases :
    {A : Type 0} (r : IoResult A) → ((a : A) × (r ≡ ok a)) ⊎ ((e : IoError) × (r ≡ error e))
IoResult-cases (ok a) = inl (a, refl)
IoResult-cases (error e) = inr (e, refl)
