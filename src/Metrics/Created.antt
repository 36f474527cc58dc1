-- ===== src/Metrics/Created.antt =====
-- internal/mycel/otel.go and ds.go: what `newMetrics` creates, and the operations of a cache whose
-- metrics were not created.
use mycorrhizal.Base.{
  ℕ, ◌≡◌, refl, ap, Bool, false, Option, List, [], ◌∷◌, Result, err, is_ok, inl, inr, Result-cases,
  arith, Listed,
}
use mycorrhizal.Base.Bytes.{Bytes}
use mycorrhizal.Base.Int.{ℤ}
use mycorrhizal.Base.Time.{Duration}
use mycorrhizal.Cache.{Cache, Error, panics}
use mycorrhizal.Cache.Local.{get_local}
use mycorrhizal.Cache.Remote.{Codec, RemoteCachePayload}
use mycorrhizal.Cache.Replicated.{Answer}
use mycorrhizal.Metrics.{
  track_get, track_set, track_delete, track_set_ttl, Kind, Spec, create_all, new_metrics,
  all_instruments,
}
use mycorrhizal.Metrics.Facade.{
  use_metrics, measured_get, measured_set, measured_delete, measured_set_ttl,
}

module _ {E H : Type 0} (create : Kind → Bytes → Result E H) where
  create_all-err :
      (s : Spec) (specs : List Spec) {e : E}
      → Listed s specs
      → create s.kind s.name ≡ err e
      → is_ok (create_all create specs) ≡ false
  unfolding create_all
  create_all-err s [] m r = elim m [ ]
  create_all-err s (x ∷ specs) (inl m) r = rw (rw m at r) refl
  create_all-err s (x ∷ specs) (inr m) r = elim (Result-cases (create x.kind x.name)) [
    | inr (d, k) ↦ rw k refl
    | inl (h, k) ↦ elim (Result-cases (create_all create specs)) [
      | inr (d, l) ↦ rw (k, l) refl
      | inl (hs, l) ↦ absurd (ground (arith, create_all-err s specs m r, ap is_ok l))
    ]
  ]

  -- Where the meter refuses one of the instruments, every Get, Set, Delete and SetTtl of the cache
  -- panics, whatever the state of the cache and of the cluster.
  pub new_metrics-panics :
      (s : Spec) {e : E} {A : Type 0} (codec : Codec (RemoteCachePayload A))
      (request : Bytes → Bytes → Result Error Bytes) (sum64 : Bytes → ℕ) (nodes : List Bytes)
      (arrive : List Answer → List Answer) (elapsed : ℤ) (now : ℕ) (bucket key : Bytes)
      (value : Option A) (ttl : Duration) (c : Cache A)
      → Listed s all_instruments
      → create s.kind s.name ≡ err e
      → let metrics : Bool = is_ok (new_metrics create) in
        (measured_get codec request sum64 nodes metrics elapsed bucket key c ≡ panics)
        × (measured_set codec request sum64 nodes metrics elapsed arrive now bucket key value ttl c
            ≡ panics)
        × (measured_delete codec request sum64 nodes metrics elapsed arrive bucket key c ≡ panics)
        × (measured_set_ttl codec request sum64 nodes metrics elapsed arrive now bucket key ttl c
            ≡ panics)
  unfolding new_metrics measured_get measured_set measured_delete measured_set_ttl use_metrics
      track_get track_set track_delete track_set_ttl
  new_metrics-panics s codec request sum64 nodes arrive elapsed now bucket key value ttl c m r =
      let none_made = create_all-err s all_instruments m r in
      rw none_made (
        elim (Result-cases (get_local bucket key c).0) [
          | inl (v, o) ↦ rw (o, measured_get) refl
          | inr (d, o) ↦ rw (o, measured_get) refl
        ],
        refl,
        refl,
        refl,
      )
