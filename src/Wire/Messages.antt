-- ===== src/Wire/Messages.antt =====
-- internal/nodosum: the frames that one node writes on a stream, and the read loop of the other.
use mathlib.Core.Option
use mycorrhizal.Base.{
  ℕ, zero, suc, ◌<◌, ◌^◌, ◌≡◌, refl, some, List, [], ◌∷◌, ◌++◌, append-nil, ap, map, All, ok,
  length, arith,
}
use mycorrhizal.Base.Bytes.{Bytes}
use mycorrhizal.Wire.Encode.{
  RequestFrame, ResponseFrame, encode_data_frame, encode_request_frame, encode_response_frame,
  frame_type_request, frame_type_response, request_body, response_body,
}
use mycorrhizal.Wire.Roundtrip.{
  read_frame-encode_data_frame, read_frame-encode_request_frame, read_frame-encode_response_frame,
}
use mycorrhizal.Wire.Fields.{decode_request_frame-request_body, decode_response_frame-response_body}
use mycorrhizal.Wire.Loop.{
  Event, data_received, request_received, response_received, dispatch, after_read, stream_read_loop,
  read_frame-nil,
}

-- what `Send`, `sendRequestFrame` and `sendResponseFrame` write
pub data Message : Type 0 where
  payload : Bytes → Message
  request : RequestFrame → Message
  response : ResponseFrame → Message

unfoldable pub encode : Message → Bytes
encode (payload p) = encode_data_frame p
encode (request r) = encode_request_frame r
encode (response r) = encode_response_frame r

unfoldable pub encode_all : List Message → Bytes
encode_all [] = []
encode_all (m ∷ ms) = encode m ++ encode_all ms

-- Identifiers and error texts are shorter than 65536 bytes, and payloads than 4 GiB.
abbrev pub Fits : Message → Type 0
Fits (payload p) = length p < 2 ^ 32
Fits (request r) = (length r.correlation_id < 2 ^ 16) × (length r.payload < 2 ^ 32)
Fits (response r) =
    (length r.correlation_id < 2 ^ 16) × (length r.error < 2 ^ 16) × (length r.payload < 2 ^ 32)

pub event : Message → Event
event (payload p) = data_received p
event (request r) = request_received (ok r)
event (response r) = response_received (ok r)

dispatch-request :
    (r : RequestFrame)
    → Fits (request r)
    → dispatch frame_type_request (request_body r) ≡ event (request r)
unfolding dispatch event
dispatch-request r f =
    ap request_received (rw append-nil at (decode_request_frame-request_body r [] f.0 f.1))

dispatch-response :
    (r : ResponseFrame)
    → Fits (response r)
    → dispatch frame_type_response (response_body r) ≡ event (response r)
unfolding dispatch event
dispatch-response r f =
    ap response_received (rw append-nil at (decode_response_frame-response_body r [] f.0 f.1 f.2))

step-encode :
    (fuel : ℕ) (m : Message) (rest : Bytes)
    → Fits m
    → stream_read_loop (suc fuel) (encode m ++ rest)
      ≡ Option.map (◌∷◌ (event m)) (stream_read_loop fuel rest)
unfolding stream_read_loop after_read encode
step-encode fuel (payload p) rest f =
    rw (read_frame-encode_data_frame p rest f, after_read) (unfold dispatch event in refl)
step-encode fuel (request r) rest f =
    rw (read_frame-encode_request_frame r rest f.0 f.1, after_read, dispatch-request r f)
step-encode fuel (response r) rest f =
    rw (read_frame-encode_response_frame r rest f.0 f.1 f.2, after_read, dispatch-response r f)

-- For messages whose texts fit their length fields, and fuel above their number, the read loop hands
-- on exactly the messages written, each once and in order, and then ends.
pub stream_read_loop-encode_all :
    (fuel : ℕ) (ms : List Message)
    → All Fits ms
    → length ms < fuel
    → stream_read_loop fuel (encode_all ms) ≡ some (map event ms)
unfolding encode_all
stream_read_loop-encode_all zero ms f h = absurd (omega arith)
stream_read_loop-encode_all (suc fuel) [] f h =
    unfold stream_read_loop after_read in rw (read_frame-nil, after_read)
stream_read_loop-encode_all (suc fuel) (m ∷ ms) f h =
    rw (
      step-encode fuel m (encode_all ms) f.0,
      stream_read_loop-encode_all fuel ms f.1 (omega arith),
    )
