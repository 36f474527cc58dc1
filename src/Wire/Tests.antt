-- ===== src/Wire/Tests.antt =====
-- Frames with small contents.
use mycorrhizal.Base.{◌≡◌, some, List, [], ◌∷◌, map, arith}
use mycorrhizal.Base.Bytes.{codes}
use mycorrhizal.Wire.Encode.{RequestFrame, ResponseFrame}
use mycorrhizal.Wire.Loop.{stream_read_loop}
use mycorrhizal.Wire.Messages.{
  Message, payload, request, response, event, encode_all, stream_read_loop-encode_all,
}

abbrev req : RequestFrame
req = record { correlation_id = codes "c1"; payload = codes "get" }

abbrev resp : ResponseFrame
resp = record { correlation_id = codes "c1"; payload = []; error = codes "no" }

abbrev three_messages : List Message
three_messages = payload (codes "hi") ∷ request req ∷ response resp ∷ []

stream_read_loop-encode_all_example :
    stream_read_loop 4 (encode_all three_messages) ≡ some (map event three_messages)
stream_read_loop-encode_all_example =
    stream_read_loop-encode_all 4 three_messages
      (omega arith, ((omega arith, omega arith), ((omega arith, omega arith, omega arith), tt)))
      (omega arith)
