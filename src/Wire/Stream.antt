-- ===== src/Wire/Stream.antt =====
-- internal/nodosum/quic.go: the decoders that read a stream.
use mycorrhizal.Base.{
  ℕ, Option, none, some, ◌||◌, [], ◌++◌, Result, ok, err, length, take, drop, get_or, ltb, ◌==◌,
  if◌then◌else◌,
}
use mycorrhizal.Base.Bytes.{Bytes}
use mycorrhizal.Wire.Ints.{uint16, uint32}
use mycorrhizal.Wire.Encode.{
  frame_type_stream_init, frame_type_data, frame_type_request, frame_type_response,
}
use mycorrhizal.Wire.Decode.{IoError, eof, unexpected_eof}

-- A failed `io.ReadFull` has taken all that was left, so an error carries no remaining bytes.
abbrev pub Reader {ℓ} : Type ℓ → Type ℓ
Reader A = Bytes → Result IoError (A × Bytes)

abbrev pub and_then {ℓ κ} :
    {A : Type ℓ} {B : Type κ}
    → Result IoError (A × Bytes)
    → (A → Reader B)
    → Result IoError (B × Bytes)
and_then (ok (a, s)) f = f a s
and_then (err e) f = err e

infixl 5 ◌>>=◌
abbrev pub ◌>>=◌ {ℓ κ} : {A : Type ℓ} {B : Type κ} → Reader A → (A → Reader B) → Reader B
m >>= f = λ s. and_then (m s) f

abbrev pub pure {ℓ} : {A : Type ℓ} → A → Reader A
pure a s = ok (a, s)

-- `io.ReadFull` into a buffer of `n` bytes
unfoldable pub read_full : ℕ → Reader Bytes
read_full n s =
    if ltb (length s) n
    then err (if length s == 0 then eof else unexpected_eof)
    else ok (take n s, drop n s)

-- a length in two bytes, and that many bytes
unfoldable pub read_short : Reader Bytes
read_short = do len_buf ← read_full 2; read_full (uint16 len_buf)

unfoldable pub decode_stream_init : Reader (Bytes × Bytes × Bytes)
decode_stream_init = do
  node_id ← read_short
  app_id ← read_short
  stream_name ← read_short
  pure (node_id, app_id, stream_name)

-- `readFrame`'s part for a DATA frame
unfoldable pub read_data : Reader Bytes
read_data = do len_buf ← read_full 4; read_full (uint32 len_buf)

-- the error text of a RESPONSE frame, with its length; nothing for a REQUEST frame
unfoldable pub read_error : ℕ → Reader Bytes
read_error frame_type =
    if frame_type == frame_type_response
    then (do
      len_buf ← read_full 2
      error_str ← if ltb 0 (uint16 len_buf) then read_full (uint16 len_buf) else pure []
      pure (len_buf ++ error_str))
    else pure []

-- `readFrame`'s part for REQUEST and RESPONSE frames
unfoldable pub read_message : ℕ → Reader Bytes
read_message frame_type = do
  len_buf ← read_full 2
  correlation_id ← read_full (uint16 len_buf)
  error ← read_error frame_type
  payload_len_buf ← read_full 4
  payload_data ←
      if ltb 0 (uint32 payload_len_buf) then read_full (uint32 payload_len_buf) else pure []
  pure ((len_buf ++ correlation_id) ++ (error ++ (payload_len_buf ++ payload_data)))

-- what follows the type byte of a frame
unfoldable pub read_payload : ℕ → Reader Bytes
read_payload frame_type =
    if frame_type == frame_type_stream_init
    then pure []
    else if frame_type == frame_type_data
    then read_data
    else if frame_type == frame_type_request || frame_type == frame_type_response
    then read_message frame_type
    else pure []

unfoldable pub read_frame : Reader (ℕ × Bytes)
read_frame = do
  type_buf ← read_full 1
  payload ← read_payload (get_or type_buf 0 0)
  pure (get_or type_buf 0 0, payload)

-- what `handleStream` reads of a new stream; `none` for a frame type other than STREAM_INIT
unfoldable pub read_stream_init : Reader (Option (Bytes × Bytes × Bytes))
read_stream_init = do
  type_buf ← read_full 1
  if get_or type_buf 0 0 == frame_type_stream_init
      then (do names ← decode_stream_init; pure (some names))
      else pure none
