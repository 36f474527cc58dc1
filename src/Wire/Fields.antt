-- ===== src/Wire/Fields.antt =====
-- internal/nodosum/quic.go: the decoders of REQUEST and RESPONSE frames, on what the encoders make.
use mycorrhizal.Base.{
  ℕ, zero, suc, ◌+◌, ◌^◌, ◌≤◌, ◌<◌, ◌≡◌, ◌∙◌, [], ◌++◌, append_assoc, arith, ok, length,
  length-append, drop, slice, take-length-append, drop-length-append, drop-add, slice-add, ltb,
  if◌then◌else◌, le→ltb-false, lt→ltb,
}
use mycorrhizal.Base.Bytes.{Bytes}
use mycorrhizal.Wire.Ints.{
  be16, be32, uint16, uint32, uint16-be16, uint32-be32, take-be16, drop-be16, take-be32, drop-be32,
  length-be16, length-be32,
}
use mycorrhizal.Wire.Encode.{
  RequestFrame, ResponseFrame, request_body, response_body, short_field, long_field,
}
use mycorrhizal.Wire.Decode.{decode_request_frame, decode_response_frame}

-- `if errorLen > 0 { … offset += int(errorLen) }`
guarded_offset : (o k : ℕ) → (if ltb 0 k then o + k else o) ≡ o + k
guarded_offset o k = ground arith

guarded_slice :
    (frame : Bytes) (o k : ℕ)
    → (if ltb 0 k then slice frame o (o + k) else []) ≡ slice frame o (o + k)
guarded_slice frame o zero = rw slice-add
guarded_slice frame o (suc k) = rw (lt→ltb 0 (suc k) (omega arith))

module _ (frame : Bytes) {n m : ℕ} where
  -- what `decodeRequestFrame` returns on a frame that is long enough
  decode_request_frame-slices :
      uint16 (slice frame 0 2) ≡ n
      → uint32 (slice frame (2 + n) (2 + n + 4)) ≡ m
      → 2 + n + 4 + m ≤ length frame
      → decode_request_frame frame
        ≡ ok (record {
          correlation_id = slice frame 2 (2 + n);
          payload = slice frame (2 + n + 4) (2 + n + 4 + m);
        })
  unfolding decode_request_frame
  decode_request_frame-slices e f h = rw (
    e,
    f,
    le→ltb-false (length frame) 2 (omega arith),
    le→ltb-false (length frame) (2 + n) (omega arith),
    le→ltb-false (length frame) (2 + n + 4) (omega arith),
    le→ltb-false (length frame) (2 + n + 4 + m) (omega arith),
  )

  decode_response_frame-slices :
      (k : ℕ)
      → uint16 (slice frame 0 2) ≡ n
      → uint16 (slice frame (2 + n) (2 + n + 2)) ≡ k
      → uint32 (slice frame (2 + n + 2 + k) (2 + n + 2 + k + 4)) ≡ m
      → 2 + n + 2 + k + 4 + m ≤ length frame
      → decode_response_frame frame
        ≡ ok (record {
          correlation_id = slice frame 2 (2 + n);
          payload = slice frame (2 + n + 2 + k + 4) (2 + n + 2 + k + 4 + m);
          error = slice frame (2 + n + 2) (2 + n + 2 + k);
        })
  unfolding decode_response_frame
  decode_response_frame-slices k e g f h = rw (
    e,
    g,
    guarded_offset (2 + n + 2) k,
    guarded_slice frame (2 + n + 2) k,
    f,
    le→ltb-false (length frame) 2 (omega arith),
    le→ltb-false (length frame) (2 + n) (omega arith),
    le→ltb-false (length frame) (2 + n + 2) (omega arith),
    le→ltb-false (length frame) (2 + n + 2 + k) (omega arith),
    le→ltb-false (length frame) (2 + n + 2 + k + 4) (omega arith),
    le→ltb-false (length frame) (2 + n + 2 + k + 4 + m) (omega arith),
  )

-- Where a field of two length bytes and `s` stands at offset `o`, the offset behind it is
-- `o + 2 + length s`.
module _ (frame s rest : Bytes) (o : ℕ) where
  short_length :
      drop o frame ≡ short_field s ++ rest
      → length s < 2 ^ 16
      → uint16 (slice frame o (o + 2)) ≡ length s
  unfolding short_field
  short_length e h =
      rw (slice-add, e, append_assoc, take-be16) (omega (arith, uint16-be16 (length s)))

  short_text : drop o frame ≡ short_field s ++ rest → slice frame (o + 2) (o + 2 + length s) ≡ s
  unfolding short_field
  short_text e = rw (slice-add, drop-add, e, append_assoc, drop-be16, take-length-append)

  short_rest : drop o frame ≡ short_field s ++ rest → drop (o + 2 + length s) frame ≡ rest
  unfolding short_field
  short_rest e =
      rw (drop-add (o + 2) (length s), drop-add o 2, e, append_assoc, drop-be16, drop-length-append)

  long_length :
      drop o frame ≡ long_field s ++ rest
      → length s < 2 ^ 32
      → uint32 (slice frame o (o + 4)) ≡ length s
  unfolding long_field
  long_length e h =
      rw (slice-add, e, append_assoc, take-be32) (omega (arith, uint32-be32 (length s)))

  long_text : drop o frame ≡ long_field s ++ rest → slice frame (o + 4) (o + 4 + length s) ≡ s
  unfolding long_field
  long_text e = rw (slice-add, drop-add, e, append_assoc, drop-be32, take-length-append)

length-short_field : (s : Bytes) → length (short_field s) ≡ 2 + length s
unfolding short_field
length-short_field s = omega (arith, length-append (be16 (length s)) s, length-be16 (length s))

length-long_field : (s : Bytes) → length (long_field s) ≡ 4 + length s
unfolding long_field
length-long_field s = omega (arith, length-append (be32 (length s)) s, length-be32 (length s))

-- A REQUEST frame's body decodes to the request, whatever bytes follow it, if the identifier is
-- shorter than 65536 bytes and the payload shorter than 4 GiB.
pub decode_request_frame-request_body :
    (req : RequestFrame) (rest : Bytes)
    → length req.correlation_id < 2 ^ 16
    → length req.payload < 2 ^ 32
    → decode_request_frame (request_body req ++ rest) ≡ ok req
unfolding request_body
decode_request_frame-request_body req rest h k =
    let id = req.correlation_id in
    let frame = request_body req ++ rest in
    let start : drop 0 frame ≡ short_field id ++ (long_field req.payload ++ rest) =
      rw append_assoc in
    let after : drop (2 + length id) frame ≡ long_field req.payload ++ rest =
      short_rest frame id _ 0 start in
    rw (
      decode_request_frame-slices frame (short_length frame id _ 0 start h)
          (long_length frame req.payload rest (2 + length id) after k)
          (omega (
            arith,
            length-append (request_body req) rest,
            length-append (short_field id) (long_field req.payload),
            length-short_field id,
            length-long_field req.payload,
          )),
      short_text frame id _ 0 start,
      long_text frame req.payload rest (2 + length id) after,
    )

-- A RESPONSE frame's body decodes to the response, whatever bytes follow it, if the identifier and
-- the error text are shorter than 65536 bytes and the payload shorter than 4 GiB.
pub decode_response_frame-response_body :
    (resp : ResponseFrame) (rest : Bytes)
    → length resp.correlation_id < 2 ^ 16
    → length resp.error < 2 ^ 16
    → length resp.payload < 2 ^ 32
    → decode_response_frame (response_body resp ++ rest) ≡ ok resp
unfolding response_body
decode_response_frame-response_body resp rest h e k =
    let id = resp.correlation_id in
    let frame = response_body resp ++ rest in
    let start : drop 0 frame
        ≡ short_field id ++ ((short_field resp.error ++ long_field resp.payload) ++ rest) =
      rw append_assoc in
    let after : drop (2 + length id) frame
        ≡ short_field resp.error ++ (long_field resp.payload ++ rest) =
      short_rest frame id _ 0 start
      ∙ append_assoc (short_field resp.error) (long_field resp.payload) rest in
    let last : drop (2 + length id + 2 + length resp.error) frame
        ≡ long_field resp.payload ++ rest =
      short_rest frame resp.error _ (2 + length id) after in
    rw (
      decode_response_frame-slices frame (length resp.error) (short_length frame id _ 0 start h)
          (short_length frame resp.error _ (2 + length id) after e)
          (long_length frame resp.payload rest (2 + length id + 2 + length resp.error) last k)
          (omega (
            arith,
            length-append (response_body resp) rest,
            length-append (short_field id) (short_field resp.error ++ long_field resp.payload),
            length-append (short_field resp.error) (long_field resp.payload),
            length-short_field id,
            length-short_field resp.error,
            length-long_field resp.payload,
          )),
      short_text frame id _ 0 start,
      short_text frame resp.error _ (2 + length id) after,
      long_text frame resp.payload rest (2 + length id + 2 + length resp.error) last,
    )
