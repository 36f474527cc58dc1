-- ===== src/Wire/Decode.antt =====
-- internal/nodosum/quic.go: the decoders that index a frame already in memory.
use mycorrhizal.Base.{◌+◌, [], Result, ok, err, length, slice, ltb, if◌then◌else◌}
use mycorrhizal.Base.Bytes.{Bytes}
use mycorrhizal.Wire.Ints.{uint16, uint32}
use mycorrhizal.Wire.Encode.{RequestFrame, ResponseFrame}

pub data IoError : Type 0 where
  eof unexpected_eof : IoError

-- The frame that the caller passes in is zero, as it is at every call.
unfoldable pub decode_request_frame : Bytes → Result IoError RequestFrame
decode_request_frame frame_data =
    if ltb (length frame_data) 2
    then err unexpected_eof
    else let correlation_id_len = uint16 (slice frame_data 0 2) in
      if ltb (length frame_data) (2 + correlation_id_len)
      then err unexpected_eof
      else let correlation_id = slice frame_data 2 (2 + correlation_id_len) in
        let offset = 2 + correlation_id_len in
        if ltb (length frame_data) (offset + 4)
        then err unexpected_eof
        else let payload_len = uint32 (slice frame_data offset (offset + 4)) in
          let offset' = offset + 4 in
          if ltb (length frame_data) (offset' + payload_len)
          then err unexpected_eof
          else ok (record {
            correlation_id = correlation_id;
            payload = slice frame_data offset' (offset' + payload_len);
          })

unfoldable pub decode_response_frame : Bytes → Result IoError ResponseFrame
decode_response_frame frame_data =
    if ltb (length frame_data) 2
    then err unexpected_eof
    else let correlation_id_len = uint16 (slice frame_data 0 2) in
      if ltb (length frame_data) (2 + correlation_id_len)
      then err unexpected_eof
      else let correlation_id = slice frame_data 2 (2 + correlation_id_len) in
        let offset = 2 + correlation_id_len in
        if ltb (length frame_data) (offset + 2)
        then err unexpected_eof
        else let error_len = uint16 (slice frame_data offset (offset + 2)) in
          let offset' = offset + 2 in
          if ltb (length frame_data) (offset' + error_len)
          then err unexpected_eof
          else let error : Bytes =
              if ltb 0 error_len then slice frame_data offset' (offset' + error_len) else [] in
            let offset'' = if ltb 0 error_len then offset' + error_len else offset' in
            if ltb (length frame_data) (offset'' + 4)
            then err unexpected_eof
            else let payload_len = uint32 (slice frame_data offset'' (offset'' + 4)) in
              let offset''' = offset'' + 4 in
              if ltb (length frame_data) (offset''' + payload_len)
              then err unexpected_eof
              else ok (record {
                correlation_id = correlation_id;
                payload = slice frame_data offset''' (offset''' + payload_len);
                error = error;
              })
