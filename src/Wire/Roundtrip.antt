-- ===== src/Wire/Roundtrip.antt =====
-- internal/nodosum/quic.go: the readers of a stream, on what the encoders make.
use mycorrhizal.Base.{
  ℕ, ◌^◌, ◌<◌, ◌≡◌, refl, [], ◌∷◌, ◌++◌, append_assoc, arith, ok, some, length, length-append,
  take-length-append, drop-length-append, ltb, le→ltb-false, suc, lt→ltb, if◌then◌else◌,
}
use mycorrhizal.Base.Bytes.{Bytes}
use mycorrhizal.Wire.Ints.{
  be16, be32, uint16, uint32, uint16-be16, uint32-be32, length-be16, length-be32,
}
use mycorrhizal.Wire.Encode.{
  RequestFrame, ResponseFrame, encode_stream_init, encode_data_frame, encode_request_frame,
  encode_response_frame, frame_type_request, frame_type_response, frame_type_data, request_body,
  response_body, short_field, long_field,
}
use mycorrhizal.Wire.Stream.{
  read_full, read_short, read_data, read_error, read_message, read_payload, read_frame,
  decode_stream_init, read_stream_init, pure,
}

read_full-append : (xs ys : Bytes) → read_full (length xs) (xs ++ ys) ≡ ok (xs, ys)
unfolding read_full
read_full-append xs ys = rw (
  le→ltb-false (length (xs ++ ys)) (length xs) (omega (arith, length-append xs ys)),
  take-length-append,
  drop-length-append,
)

read_full-be16 : (n : ℕ) (ys : Bytes) → read_full 2 (be16 n ++ ys) ≡ ok (be16 n, ys)
read_full-be16 n ys = rw (← length-be16 n) (read_full-append (be16 n) ys)

read_full-be32 : (n : ℕ) (ys : Bytes) → read_full 4 (be32 n ++ ys) ≡ ok (be32 n, ys)
read_full-be32 n ys = rw (← length-be32 n) (read_full-append (be32 n) ys)

uint16-length : (s : Bytes) → length s < 2 ^ 16 → uint16 (be16 (length s)) ≡ length s
uint16-length s h = omega (arith, uint16-be16 (length s))

uint32-length : (s : Bytes) → length s < 2 ^ 32 → uint32 (be32 (length s)) ≡ length s
uint32-length s h = omega (arith, uint32-be32 (length s))

read_short-field :
    (s rest : Bytes) → length s < 2 ^ 16 → read_short (short_field s ++ rest) ≡ ok (s, rest)
unfolding read_short short_field
read_short-field s rest h = rw (append_assoc, read_full-be16, uint16-length s h, read_full-append)

pub read_full-type : (b : ℕ) (rest : Bytes) → read_full 1 (b ∷ rest) ≡ ok (b ∷ [], rest)
read_full-type b rest = read_full-append (b ∷ []) rest

-- The three names of a new stream are read back and nothing after them is touched, when each is
-- shorter than 65536 bytes.
pub read_stream_init-encode_stream_init :
    (node_id app_id stream_name rest : Bytes)
    → length node_id < 2 ^ 16
    → length app_id < 2 ^ 16
    → length stream_name < 2 ^ 16
    → read_stream_init (encode_stream_init node_id app_id stream_name ++ rest)
      ≡ ok (some (node_id, app_id, stream_name), rest)
unfolding read_stream_init decode_stream_init encode_stream_init
read_stream_init-encode_stream_init node_id app_id stream_name rest h k l = simp (
  read_full-type,
  append_assoc,
  read_short-field node_id _ h,
  read_short-field app_id _ k,
  read_short-field stream_name _ l,
)

-- the guarded read of `readFrame`
read_full-guarded :
    (s rest : Bytes)
    → (if ltb 0 (length s) then read_full (length s) else pure []) (s ++ rest) ≡ ok (s, rest)
read_full-guarded [] rest = refl
read_full-guarded (x ∷ s) rest =
    rw (lt→ltb 0 (suc (length s)) (omega arith)) (read_full-append (x ∷ s) rest)

read_data-field :
    (s rest : Bytes) → length s < 2 ^ 32 → read_data (long_field s ++ rest) ≡ ok (s, rest)
unfolding read_data long_field
read_data-field s rest h = simp (append_assoc, read_full-be32, uint32-length s h, read_full-append)

read_message-request :
    (req : RequestFrame) (rest : Bytes)
    → length req.correlation_id < 2 ^ 16
    → length req.payload < 2 ^ 32
    → read_message frame_type_request (request_body req ++ rest) ≡ ok (request_body req, rest)
unfolding read_message read_error request_body short_field long_field
read_message-request req rest h k = simp (
  append_assoc,
  read_full-be16,
  read_full-be32,
  uint16-length req.correlation_id h,
  uint32-length req.payload k,
  read_full-append,
  read_full-guarded,
)

read_message-response :
    (resp : ResponseFrame) (rest : Bytes)
    → length resp.correlation_id < 2 ^ 16
    → length resp.error < 2 ^ 16
    → length resp.payload < 2 ^ 32
    → read_message frame_type_response (response_body resp ++ rest) ≡ ok (response_body resp, rest)
unfolding read_message read_error response_body short_field long_field
read_message-response resp rest h e k = simp (
  append_assoc,
  read_full-be16,
  read_full-be32,
  uint16-length resp.correlation_id h,
  uint16-length resp.error e,
  uint32-length resp.payload k,
  read_full-append,
  read_full-guarded,
)

-- `readFrame` takes exactly one DATA frame off the stream and yields its payload, if the payload is
-- shorter than 4 GiB.
pub read_frame-encode_data_frame :
    (payload rest : Bytes)
    → length payload < 2 ^ 32
    → read_frame (encode_data_frame payload ++ rest) ≡ ok ((frame_type_data, payload), rest)
unfolding read_frame read_payload encode_data_frame
read_frame-encode_data_frame payload rest h = simp (read_full-type, read_data-field payload rest h)

-- `readFrame` takes exactly one REQUEST frame off the stream and yields its body, if the identifier
-- is shorter than 65536 bytes and the payload shorter than 4 GiB.
pub read_frame-encode_request_frame :
    (req : RequestFrame) (rest : Bytes)
    → length req.correlation_id < 2 ^ 16
    → length req.payload < 2 ^ 32
    → read_frame (encode_request_frame req ++ rest)
      ≡ ok ((frame_type_request, request_body req), rest)
unfolding read_frame read_payload encode_request_frame
read_frame-encode_request_frame req rest h k =
    simp (read_full-type, read_message-request req rest h k)

-- `readFrame` takes exactly one RESPONSE frame off the stream and yields its body, if the identifier
-- and the error text are shorter than 65536 bytes and the payload shorter than 4 GiB.
pub read_frame-encode_response_frame :
    (resp : ResponseFrame) (rest : Bytes)
    → length resp.correlation_id < 2 ^ 16
    → length resp.error < 2 ^ 16
    → length resp.payload < 2 ^ 32
    → read_frame (encode_response_frame resp ++ rest)
      ≡ ok ((frame_type_response, response_body resp), rest)
unfolding read_frame read_payload encode_response_frame
read_frame-encode_response_frame resp rest h e k =
    simp (read_full-type, read_message-response resp rest h e k)
