-- ===== src/Wire/Encode.antt =====
-- internal/nodosum/quic.go: the frame types and the encoders.
use mycorrhizal.Base.{ℕ, ◌++◌, ◌∷◌, length}
use mycorrhizal.Base.Bytes.{Bytes}
use mycorrhizal.Wire.Ints.{be16, be32}

abbrev pub frame_type_stream_init : ℕ
frame_type_stream_init = 0x01

abbrev pub frame_type_data : ℕ
frame_type_data = 0x02

abbrev pub frame_type_request : ℕ
frame_type_request = 0x03

abbrev pub frame_type_response : ℕ
frame_type_response = 0x04

pub record RequestFrame : Type 0 where
  pub correlation_id : Bytes
  pub payload : Bytes

pub record ResponseFrame : Type 0 where
  pub correlation_id : Bytes
  pub payload : Bytes
  pub error : Bytes

-- a length in two bytes, and the text
unfoldable pub short_field : Bytes → Bytes
short_field s = be16 (length s) ++ s

-- a length in four bytes, and the payload
unfoldable pub long_field : Bytes → Bytes
long_field s = be32 (length s) ++ s

unfoldable pub encode_stream_init : (node_id app_id stream_name : Bytes) → Bytes
encode_stream_init node_id app_id stream_name =
    frame_type_stream_init
    ∷ (short_field node_id ++ (short_field app_id ++ short_field stream_name))

unfoldable pub encode_data_frame : Bytes → Bytes
encode_data_frame payload = frame_type_data ∷ long_field payload

unfoldable pub request_body : RequestFrame → Bytes
request_body req = short_field req.correlation_id ++ long_field req.payload

unfoldable pub encode_request_frame : RequestFrame → Bytes
encode_request_frame req = frame_type_request ∷ request_body req

unfoldable pub response_body : ResponseFrame → Bytes
response_body resp =
    short_field resp.correlation_id ++ (short_field resp.error ++ long_field resp.payload)

unfoldable pub encode_response_frame : ResponseFrame → Bytes
encode_response_frame resp = frame_type_response ∷ response_body resp
