-- ===== src/Wire/Loop.antt =====
-- internal/nodosum/conn.go: `streamReadLoop` as the list of what it hands on, in order, until the
-- end of the stream. The cancellation of the context is left out: it only ends the loop earlier.
use mathlib.Core.Option
use mycorrhizal.Base.{
  ℕ, zero, suc, Bool, true, false, Bool-cases, inl, inr, ◌||◌, refl, ltb, length-drop, ◌≤◌, ◌<◌,
  ◌≡◌, Option, none, some, List, [], ◌∷◌, Result, ok, err, length, ◌==◌, arith, if◌then◌else◌,
}
use mycorrhizal.Base.Bytes.{Bytes}
use mycorrhizal.Wire.Encode.{
  RequestFrame, ResponseFrame, frame_type_data, frame_type_request, frame_type_response,
  frame_type_stream_init,
}
use mycorrhizal.Wire.Decode.{
  IoError, eof, unexpected_eof, decode_request_frame, decode_response_frame,
}
use mycorrhizal.Wire.Ints.{uint16, uint32}
use mycorrhizal.Wire.Roundtrip.{read_full-type}
use mycorrhizal.Wire.Stream.{
  pure, Reader, and_then, read_full, read_data, read_error, read_message, read_payload, read_frame,
}

-- `routeToApplication`, the first step of `handleRequest` and of `handleResponse`, the warning for
-- an unknown frame type, and the log line for a read error after which the loop goes on
pub data Event : Type 0 where
  data_received : Bytes → Event
  request_received : Result IoError RequestFrame → Event
  response_received : Result IoError ResponseFrame → Event
  unknown_frame_type : ℕ → Event
  read_failed : Event

unfoldable pub dispatch : ℕ → Bytes → Event
dispatch frame_type payload =
    if frame_type == frame_type_data
    then data_received payload
    else if frame_type == frame_type_request
    then request_received (decode_request_frame payload)
    else if frame_type == frame_type_response
    then response_received (decode_response_frame payload)
    else unknown_frame_type frame_type

-- One turn of the loop, where `next` is the rest of it. `isQuicConnectionClosed` holds of `io.EOF`
-- and not of `io.ErrUnexpectedEOF`, after which nothing is left on the stream.
unfoldable pub after_read :
    Result IoError ((ℕ × Bytes) × Bytes) → (Bytes → Option (List Event)) → Option (List Event)
after_read (ok ((frame_type, payload), rest)) next =
    Option.map (◌∷◌ (dispatch frame_type payload)) (next rest)
after_read (err eof) next = some []
after_read (err unexpected_eof) next = Option.map (◌∷◌ read_failed) (next [])

-- `none` when the fuel runs out
unfoldable pub stream_read_loop : ℕ → Bytes → Option (List Event)
stream_read_loop zero s = none
stream_read_loop (suc fuel) s = after_read (read_frame s) (stream_read_loop fuel)

abbrev Within {ℓ} : {A : Type ℓ} → ℕ → Result IoError (A × Bytes) → Type 0
Within n (ok (a, s)) = length s ≤ n
Within n (err e) = Unit

Within-and_then {ℓ κ} :
    {A : Type ℓ} {B : Type κ} (n : ℕ) (r : Result IoError (A × Bytes)) (f : A → Reader B)
    → Within n r
    → ((a : A) (s : Bytes) → length s ≤ n → Within n (f a s))
    → Within n (and_then r f)
Within-and_then n (ok (a, s)) f h k = k a s h
Within-and_then n (err e) f h k = tt

read_full-Within : (n k : ℕ) (s : Bytes) → length s ≤ n → Within n (read_full k s)
unfolding read_full
read_full-Within n k s h = elim (Bool-cases (ltb (length s) k)) [
  | inl short ↦ rw short tt
  | inr enough ↦ rw enough (omega (arith, length-drop k s))
]

pure_or_read_full-Within :
    (n k : ℕ) (b : Bool) (s : Bytes)
    → length s ≤ n
    → Within n ((if b then read_full k else pure []) s)
pure_or_read_full-Within n k true s h = read_full-Within n k s h
pure_or_read_full-Within n k false s h = h

read_data-Within : (n : ℕ) (s : Bytes) → length s ≤ n → Within n (read_data s)
unfolding read_data
read_data-Within n s h =
    Within-and_then n (read_full 4 s) _ (read_full-Within n 4 s h)
      λ b t l. read_full-Within n (uint32 b) t l

read_error-Within : (n t : ℕ) (s : Bytes) → length s ≤ n → Within n (read_error t s)
unfolding read_error
read_error-Within n t s h = elim (Bool-cases (t == frame_type_response)) [
  | inl e ↦ rw e (
      Within-and_then n (read_full 2 s) _ (read_full-Within n 2 s h) λ b u l.
        Within-and_then n _ _ (pure_or_read_full-Within n (uint16 b) (ltb 0 (uint16 b)) u l)
          λ c v k. k)
  | inr e ↦ rw e h
]

read_message-Within : (n t : ℕ) (s : Bytes) → length s ≤ n → Within n (read_message t s)
unfolding read_message
read_message-Within n t s h =
    Within-and_then n (read_full 2 s) _ (read_full-Within n 2 s h) λ b s₁ h₁.
      Within-and_then n (read_full (uint16 b) s₁) _ (read_full-Within n (uint16 b) s₁ h₁) λ c s₂ h₂.
        Within-and_then n (read_error t s₂) _ (read_error-Within n t s₂ h₂) λ d s₃ h₃.
          Within-and_then n (read_full 4 s₃) _ (read_full-Within n 4 s₃ h₃) λ e s₄ h₄.
            Within-and_then n _ _ (pure_or_read_full-Within n (uint32 e) (ltb 0 (uint32 e)) s₄ h₄)
              λ f s₅ h₅. h₅

read_payload-Within : (n t : ℕ) (s : Bytes) → length s ≤ n → Within n (read_payload t s)
unfolding read_payload
read_payload-Within n t s h = elim (Bool-cases (t == frame_type_stream_init)) [
  | inl e ↦ rw e h
  | inr e ↦ rw e (elim (Bool-cases (t == frame_type_data)) [
    | inl f ↦ rw f (read_data-Within n s h)
    | inr f ↦ rw f (elim (Bool-cases (t == frame_type_request || t == frame_type_response)) [
      | inl g ↦ rw g (read_message-Within n t s h)
      | inr g ↦ rw g h
    ])
  ])
]

-- Each frame read takes its type byte at least.
read_frame-shrinks : (b : ℕ) (s : Bytes) → Within (length s) (read_frame (b ∷ s))
unfolding read_frame
read_frame-shrinks b s = rw read_full-type (
    Within-and_then (length s) (read_payload b s) _
      (read_payload-Within (length s) b s (omega arith)) λ a t h. h)

pub read_frame-nil : read_frame [] ≡ err eof
unfolding read_frame read_full
read_frame-nil = refl

after_read-some :
    (fuel : ℕ) (n : ℕ) (r : Result IoError ((ℕ × Bytes) × Bytes))
    → Within n r
    → ((t : Bytes) → length t ≤ n → (events : List Event) × (stream_read_loop fuel t ≡ some events))
    → (events : List Event) × (after_read r (stream_read_loop fuel) ≡ some events)
unfolding after_read
after_read-some fuel n (ok ((t, p), rest)) w ih =
    let (events, e) = ih rest w in (dispatch t p ∷ events, rw e)
after_read-some fuel n (err eof) w ih = ([], refl)
after_read-some fuel n (err unexpected_eof) w ih =
    let (events, e) = ih [] (omega arith) in (read_failed ∷ events, rw e)

-- The loop ends on every stream: more fuel than the stream has bytes is never used up.
pub stream_read_loop-some :
    (fuel : ℕ) (s : Bytes)
    → length s < fuel
    → (events : List Event) × (stream_read_loop fuel s ≡ some events)
unfolding stream_read_loop after_read
stream_read_loop-some zero s h = absurd (omega arith)
stream_read_loop-some (suc fuel) [] h = ([], rw (read_frame-nil, after_read))
stream_read_loop-some (suc fuel) (b ∷ s) h =
    after_read-some fuel (length s) (read_frame (b ∷ s)) (read_frame-shrinks b s)
      λ t l. stream_read_loop-some fuel t (omega arith)
