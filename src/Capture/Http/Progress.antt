-- ===== src/Capture/Http/Progress.antt =====
-- The loop of `parse_http_messages` in src/passive_capture.rs: it ends, and all it gives is limited.
use context_guardian.Prelude.{
  ltb→lt, ℕ, zero, suc, ◌-◌, ◌<◌, Bool, none, some, List, [], ◌∷◌, ltb, length, ◌≡◌, refl, arith,
  Bool-cases, inl, inr, All,
}
use mathlib.Core.Path.{subst}
use context_guardian.Capture.Io.{IoResult, IoResult-cases, ok, ok_parts, the_ok, error_apart}
use context_guardian.Capture.Stream.{ByteStream}
use context_guardian.Capture.Http.{HttpMessage, read_message, messages_from, parse_http_messages}
use context_guardian.Capture.Http.Bounds.{IsLimited, read_message-IsStep}

module _ (gunzip : ℕ → List ℕ → IoResult (List ℕ)) where
  -- With more fuel than there are bytes behind the offset the loop's result is the same, so that it
  -- never ends for lack of fuel.
  pub messages_from_fuel :
      (fuel fuel' : ℕ) (stream : ByteStream) (response : Bool) (max_body_bytes offset : ℕ)
      → length stream.bytes - offset < fuel
      → length stream.bytes - offset < fuel'
      → messages_from gunzip fuel stream response max_body_bytes offset
        ≡ messages_from gunzip fuel' stream response max_body_bytes offset
  unfolding messages_from
  messages_from_fuel zero fuel' stream response max_body_bytes offset enough enough' =
      absurd (omega arith)
  messages_from_fuel (suc fuel) zero stream response max_body_bytes offset enough enough' =
      absurd (omega arith)
  messages_from_fuel (suc fuel) (suc fuel') stream response max_body_bytes offset enough enough' =
      elim (Bool-cases (ltb offset (length stream.bytes))) [
        | inr ended ↦ rw (ended, messages_from) refl
        | inl more ↦
            elim (IoResult-cases (read_message gunzip stream response max_body_bytes offset)) [
              | inr (e, wrong) ↦ rw (more, wrong, messages_from) refl
              | inl (none, broken) ↦ rw (more, broken, messages_from) refl
              | inl (some (first, next), there) ↦
                  let (_, ahead, _) =
                    read_message-IsStep gunzip stream response max_body_bytes offset (first, next)
                      there in
                  let inside : offset < length stream.bytes =
                    ltb→lt offset (length stream.bytes) more in
                  rw
                    (
                      more,
                      there,
                      messages_from,
                      messages_from_fuel fuel fuel' stream response max_body_bytes next
                          (omega arith) (omega arith),
                    )
                    refl
            ]
      ]

  messages_from-IsLimited :
      (fuel : ℕ) (stream : ByteStream) (response : Bool) (max_body_bytes offset : ℕ)
      (messages : List HttpMessage)
      → messages_from gunzip fuel stream response max_body_bytes offset ≡ ok messages
      → All (IsLimited gunzip max_body_bytes) messages
  unfolding messages_from
  messages_from-IsLimited zero stream response max_body_bytes offset messages read =
      subst (All (IsLimited gunzip max_body_bytes)) (the_ok [] messages read) tt
  messages_from-IsLimited (suc fuel) stream response max_body_bytes offset messages read =
      elim (Bool-cases (ltb offset (length stream.bytes))) [
        | inr ended ↦
            subst (All (IsLimited gunzip max_body_bytes))
              (the_ok [] messages (rw (messages_from, ended) at read)) tt
        | inl more ↦
            elim (IoResult-cases (read_message gunzip stream response max_body_bytes offset)) [
              | inr (e, wrong) ↦ absurd (error_apart (rw (messages_from, more, wrong) at read))
              | inl (none, broken) ↦
                  subst (All (IsLimited gunzip max_body_bytes))
                    (the_ok [] messages (rw (messages_from, more, broken) at read)) tt
              | inl (some (first, next), there) ↦
                  let (limited, _, _) =
                    read_message-IsStep gunzip stream response max_body_bytes offset (first, next)
                      there in
                  let (others, rest, last) =
                    ok_parts (messages_from gunzip fuel stream response max_body_bytes next) _
                      messages (rw (messages_from, more, there) at read) in
                  subst (All (IsLimited gunzip max_body_bytes))
                    (the_ok (first ∷ others) messages last)
                    (
                      limited,
                      messages_from-IsLimited fuel stream response max_body_bytes next others rest,
                    )
            ]
      ]

  -- Every message that is found has a body, as it was sent and as it is decoded, of at most the allowed
  -- number of bytes.
  pub parse_http_messages-IsLimited :
      (stream : ByteStream) (response : Bool) (max_body_bytes : ℕ) (messages : List HttpMessage)
      → parse_http_messages gunzip stream response max_body_bytes ≡ ok messages
      → All (IsLimited gunzip max_body_bytes) messages
  unfolding parse_http_messages
  parse_http_messages-IsLimited stream response max_body_bytes =
      messages_from-IsLimited (suc (length stream.bytes)) stream response max_body_bytes 0
