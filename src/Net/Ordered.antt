-- ===== src/Net/Ordered.antt =====
-- internal/nodosum/application.go and conn.go: `Send` at one end of a stream, and what the read loop
-- makes of the bytes on it.
use mycorrhizal.Base.{
  ℕ, ◌<◌, ◌^◌, ◌≡◌, refl, ◌∙◌, true, false, none, some, List, [], ◌∷◌, ◌++◌, append_assoc,
  append-nil, map, All, ok, length, ◌==◌, if◌then◌else◌, arith,
}
use mycorrhizal.Base.Bytes.{Bytes, codes}
use mycorrhizal.Base.Maps.{lookup, lookup-put_self}
use mycorrhizal.Wire.Encode.{encode_stream_init, encode_data_frame}
use mycorrhizal.Wire.Stream.{read_stream_init}
use mycorrhizal.Wire.Loop.{stream_read_loop}
use mycorrhizal.Wire.Messages.{
  payload, encode, encode_all, event, Fits, stream_read_loop-encode_all,
}
use mycorrhizal.Wire.Roundtrip.{read_stream_init-encode_stream_init}
use mycorrhizal.Net.{Nodosum, Quic}
use mycorrhizal.Net.Streams.{stream_key, write_to, register_stream, get_or_open_quic_stream}
use mycorrhizal.Net.Apps.{send_to, send_all, send_targets, send}

-- the bytes on a stream
unfoldable pub sent_on : ℕ → List (ℕ × Bytes) → Bytes
sent_on s [] = []
sent_on s ((t, bytes) ∷ written) =
    let rest = sent_on s written in if t == s then bytes ++ rest else rest

-- `Send` to one node, payload after payload
unfoldable pub send_payloads : Quic → Bytes → Bytes → List Bytes → Nodosum → Nodosum
send_payloads q app_id node [] n = n
send_payloads q app_id node (p ∷ ps) n =
    send_payloads q app_id node ps (send q app_id p (node ∷ []) n).1

same_handle : (s : ℕ) → (s == s) ≡ true
same_handle s = ground arith

sent_on-append :
    (s : ℕ) (written : List (ℕ × Bytes)) (bytes : Bytes)
    → sent_on s (written ++ (s, bytes) ∷ []) ≡ sent_on s written ++ bytes
unfolding sent_on
sent_on-append s [] bytes = rw (same_handle s, append-nil) refl
sent_on-append s ((t, x) ∷ written) bytes =
    elim (t == s)
      as (λ b.
        (if b
          then x ++ sent_on s (written ++ (s, bytes) ∷ [])
          else sent_on s (written ++ (s, bytes) ∷ []))
        ≡ (if b then x ++ sent_on s written else sent_on s written) ++ bytes) [
          | true ↦ rw (sent_on-append s written bytes, append_assoc) refl
          | false ↦ sent_on-append s written bytes
        ]

module _ (q : Quic) (app_id node : Bytes) (s : ℕ)
    (writes : (bytes : Bytes) → q.write s bytes ≡ none) where
  abbrev key : Bytes
  key = stream_key node app_id (codes "data")

  -- the stream of the key, and what is on it
  abbrev OnStream : Bytes → Nodosum → Type 0
  OnStream bytes n =
      (lookup key n.quic_application_streams ≡ some s) × (sent_on s n.written ≡ bytes)

  -- `getOrOpenQuicStream` answers the stream, and these bytes are on it then
  abbrev Opens : Bytes → Nodosum → Type 0
  Opens bytes n =
      ((get_or_open_quic_stream q node app_id (codes "data") n).0 ≡ ok s)
      × OnStream bytes (get_or_open_quic_stream q node app_id (codes "data") n).1

  write_to-writes :
      (bytes : Bytes) (n : Nodosum)
      → write_to q s bytes n ≡ (none, record n { written = n.written ++ (s, bytes) ∷ [] })
  unfolding write_to
  write_to-writes bytes n = rw (writes bytes, write_to) refl

  OnStream-Opens : (bytes : Bytes) (n : Nodosum) → OnStream bytes n → Opens bytes n
  unfolding get_or_open_quic_stream
  OnStream-Opens bytes n (k, b) = rw (k, get_or_open_quic_stream) ((refl, (k, b)))

  send-OnStream :
      (bytes : Bytes) (p : Bytes) (n : Nodosum)
      → Opens bytes n
      → OnStream (bytes ++ encode_data_frame p) (send q app_id p (node ∷ []) n).1
  unfolding send send_targets send_all send_to
  send-OnStream bytes p n (o, (k, b)) =
      rw (o, send_to, write_to-writes) (k, sent_on-append s _ _ ∙ rw b refl)

  send_payloads-OnStream :
      (ps : List Bytes) (bytes : Bytes) (n : Nodosum)
      → OnStream bytes n
      → OnStream (bytes ++ encode_all (map payload ps)) (send_payloads q app_id node ps n)
  unfolding send_payloads encode_all encode
  send_payloads-OnStream [] bytes n (k, b) = (k, rw append-nil b)
  send_payloads-OnStream (p ∷ ps) bytes n o =
      let (k, b) =
        send_payloads-OnStream ps (bytes ++ encode_data_frame p) (send q app_id p (node ∷ []) n).1
          (send-OnStream bytes p n (OnStream-Opens bytes n o)) in
      (k, b ∙ append_assoc bytes (encode_data_frame p) _)

  new_stream-Opens :
      (n : Nodosum) (conn : ℕ)
      → lookup key n.quic_application_streams ≡ none
      → lookup node n.quic_conns ≡ some conn
      → q.open_stream conn ≡ ok s
      → sent_on s n.written ≡ []
      → Opens (encode_stream_init n.node_id app_id (codes "data")) n
  unfolding get_or_open_quic_stream register_stream
  new_stream-Opens n conn k c o empty =
      rw (k, get_or_open_quic_stream, c, o, write_to-writes)
        ((
          refl,
          (
            lookup-put_self key s n.quic_application_streams,
            sent_on-append s n.written _ ∙ rw empty refl,
          ),
        ))

  -- Payloads that are sent one after another to a connected node, over a stream that the first of them
  -- opens and on which every write succeeds: from the bytes that stand on the stream then, the reading
  -- of a stream's first frame takes the names that the stream is for, and the read loop on the rest hands
  -- on exactly the payloads, each once and in order. The names are shorter than 65536 bytes, the payloads
  -- than 4 GiB, and the loop's fuel exceeds their number. Whether the other end accepts the stream is not
  -- said.
  pub stream_read_loop-send_payloads :
      (n : Nodosum) (conn fuel : ℕ) (p : Bytes) (ps : List Bytes)
      → lookup key n.quic_application_streams ≡ none
      → lookup node n.quic_conns ≡ some conn
      → q.open_stream conn ≡ ok s
      → sent_on s n.written ≡ []
      → length n.node_id < 2 ^ 16
      → length app_id < 2 ^ 16
      → All Fits (map payload (p ∷ ps))
      → length (map payload (p ∷ ps)) < fuel
      → (rest : Bytes) × (read_stream_init
            (sent_on s (send_payloads q app_id node (p ∷ ps) n).written)
          ≡ ok (some (n.node_id, app_id, codes "data"), rest))
        × (stream_read_loop fuel rest ≡ some (map event (map payload (p ∷ ps))))
  unfolding send_payloads encode_all encode
  stream_read_loop-send_payloads n conn fuel p ps k c o empty l₁ l₂ fits enough =
      let init = encode_stream_init n.node_id app_id (codes "data") in
      let (k', b) =
        send_payloads-OnStream ps (init ++ encode_data_frame p) (send q app_id p (node ∷ []) n).1
          (send-OnStream init p n (new_stream-Opens n conn k c o empty)) in
      (
        encode_all (map payload (p ∷ ps)),
        rw (b, append_assoc)
            (read_stream_init-encode_stream_init n.node_id app_id (codes "data") _ l₁ l₂
              (omega arith)),
        stream_read_loop-encode_all fuel (map payload (p ∷ ps)) fits enough,
      )
