-- ===== src/Cache/Handler.antt =====
-- internal/mycel/task.go: `applicationRequestHandlerFunc`, which serves the requests of other nodes.
use mycorrhizal.Base.{ℕ, [], ◌∷◌, Result, ok, err, ◌==◌, if◌then◌else◌}
use mycorrhizal.Base.Bytes.{Bytes, codes}
use mycorrhizal.Base.Time.{zero_duration}
use mycorrhizal.Cache.{Cache, Error, empty_request, unknown_operation, Outcome, returns, ◌>>=◌}
use mycorrhizal.Cache.Local.{get_local, set_local, delete_local, set_ttl_local}
use mycorrhizal.Cache.Remote.{
  Codec, RemoteCachePayload, payload, get_op, set_op, set_ttl_op, delete_op, response_op,
}
use mycorrhizal.Cache.Replicated.{Answer}

-- `return []byte(text), nil`, or the error
unfoldable pub reply : Bytes → Answer → Result Error Bytes
reply text (ok _) = ok text
reply text (err e) = err e

module _ {A : Type 0} (codec : Codec (RemoteCachePayload A)) where
  -- the answer to GET
  unfoldable pub serve_get : RemoteCachePayload A → Cache A → Result Error Bytes × Cache A
  serve_get p c =
      let (r, c') = get_local p.bucket p.key c in
      elim r [
        | err e ↦ (err e, c')
        | ok val ↦ (codec.encode (payload response_op p.key p.bucket val zero_duration), c')
      ]

  unfoldable pub serve : ℕ → RemoteCachePayload A → Cache A → Outcome (Result Error Bytes × Cache A)
  serve now p c =
      if p.operation == get_op
      then returns (serve_get p c)
      else if p.operation == set_op
      then (do
        (a, c') ← set_local now p.bucket p.key p.value p.ttl c
        returns (reply (codes "REMOTE SET OK") a, c'))
      else if p.operation == set_ttl_op
      then (let (a, c') = set_ttl_local now p.bucket p.key p.ttl c in
          returns (reply (codes "REMOTE SET TTL OK") a, c'))
      else if p.operation == delete_op
      then (do
        (a, c') ← delete_local p.bucket p.key c
        returns (reply (codes "REMOTE DELETE OK") a, c'))
      else returns (err unknown_operation, c)

  unfoldable pub application_request_handler_func :
      ℕ → Bytes → Cache A → Outcome (Result Error Bytes × Cache A)
  application_request_handler_func now [] c = returns (err empty_request, c)
  application_request_handler_func now (b ∷ bs) c = elim (codec.decode (b ∷ bs)) [
    | err e ↦ returns (err e, c)
    | ok p ↦ serve now p c
  ]
