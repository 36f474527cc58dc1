-- ===== src/Metrics/Counts.antt =====
-- internal/mycel/cache.go: the counters of the cache's operations against what the operations answer.
use mathlib.Core.List.{Perm}
use mycorrhizal.Base.{
  ◌<◌, ◌∙◌, ap, ltb, ℕ, ◌+◌, ◌≡◌, refl, Bool, true, false, none, some, List, [], ◌∷◌, ◌++◌, Result,
  ok, err, is_ok, inl, inr, ite, Result-cases, arith, length, if◌then◌else◌,
}
use mycorrhizal.Base.Bytes.{Bytes, Bytes-discrete, codes}
use mycorrhizal.Base.Int.{ℤ}
use mycorrhizal.Base.Maps.{lookup}
use mycorrhizal.Cache.{Cache, Error, Outcome, returns, panics, out_of_fuel, no_replicas}
use mycorrhizal.Cache.Local.{get_local}
use mycorrhizal.Cache.Remote.{Codec, RemoteCachePayload, get_remote}
use mycorrhizal.Cache.Replicated.{Answer, verdict, fan_out, replicate_write}
use mycorrhizal.Cache.Rendezvous.{ReplicaNode}
use mycorrhizal.Cache.Quorum.{succeeded, succeeded-perm, length-perm, fan_out-length}
use mycorrhizal.Cache.Facade.{get}
use mycorrhizal.Metrics.{
  Sample, locality_local, locality_remote, gets, hits, misses, replica_writes, quorum_failures,
  track_get, got, record_replica_write, record_quorum_failure,
}
use mycorrhizal.Metrics.Local.{Measured}
use mycorrhizal.Metrics.Facade.{
  use_metrics, measured_get, result_samples, quorum_samples, measured_replicate_write,
}

-- how many measurements pass a test
unfoldable pub count : (Sample → Bool) → List Sample → ℕ
count p [] = 0
count p (s ∷ samples) = (if p s then 1 else 0) + count p samples

unfoldable pub is_get : Sample → Bool
is_get s = elim s.instrument [ gets ↦ true | _ ↦ false ]

unfoldable pub is_hit : Sample → Bool
is_hit s = elim s.instrument [ hits ↦ true | _ ↦ false ]

unfoldable pub is_miss : Sample → Bool
is_miss s = elim s.instrument [ misses ↦ true | _ ↦ false ]

unfoldable pub is_quorum_failure : Sample → Bool
is_quorum_failure s = elim s.instrument [ quorum_failures ↦ true | _ ↦ false ]

-- a replica write with this result
unfoldable pub has_result : Bytes → Sample → Bool
has_result result s = elim s.instrument [
  | replica_writes ↦ elim (lookup (codes "result") s.attributes) [
    | none ↦ false
    | some r ↦ ite (Bytes-discrete r result) true false
  ]
  | _ ↦ false
]

-- what `trackGet` and the function that it returns record
track_get-got :
    (bucket locality : Bytes) (elapsed : ℤ) (hit : Bool)
    → let samples = track_get bucket locality ++ got bucket locality elapsed hit in
      (count is_get samples ≡ 1)
      × (count is_hit samples ≡ (if hit then 1 else 0))
      × (count is_miss samples ≡ (if hit then 0 else 1))
unfolding count is_get is_hit is_miss track_get got
track_get-got bucket locality elapsed true = (refl, refl, refl)
track_get-got bucket locality elapsed false = (refl, refl, refl)

module _ {A : Type 0} (codec : Codec (RemoteCachePayload A))
    (request : Bytes → Bytes → Result Error Bytes) (sum64 : Bytes → ℕ) (nodes : List Bytes)
    (elapsed : ℤ) where
  -- With metrics, Get answers and leaves what it does without them. It counts one get, and one hit if it
  -- returns a value or one miss if it returns an error.
  pub measured_get-get :
      (bucket key : Bytes) (c : Cache A)
      → let r = get codec request sum64 nodes bucket key c in
        (samples : List Sample) × (measured_get codec request sum64 nodes true elapsed bucket key c
          ≡ returns (r.0, r.1, samples))
        × ((count is_get samples ≡ 1)
            × (count is_hit samples ≡ (if is_ok r.0 then 1 else 0))
            × (count is_miss samples ≡ (if is_ok r.0 then 0 else 1)))
  unfolding measured_get use_metrics get track_get got
  measured_get-get bucket key c = elim (Result-cases (get_local bucket key c).0) [
    | inl (v, o) ↦ (
      track_get bucket locality_local ++ got bucket locality_local elapsed true,
      rw (o, measured_get, get) refl,
      rw (o, get) (track_get-got bucket locality_local elapsed true),
    )
    | inr (d, o) ↦
        let hit =
          is_ok (get_remote codec request sum64 nodes bucket key (get_local bucket key c).1).0 in
        (
          track_get bucket locality_remote ++ got bucket locality_remote elapsed hit,
          rw (o, measured_get, get) refl,
          rw (o, get) (track_get-got bucket locality_remote elapsed hit),
        )
  ]

result_samples-succeeded :
    (bucket : Bytes) (results : List Answer)
    → (count (has_result (codes "success")) (result_samples bucket results) ≡ succeeded results)
      × (count (has_result (codes "failure")) (result_samples bucket results) + succeeded results
          ≡ length results)
unfolding result_samples count has_result record_replica_write succeeded Bytes-discrete
result_samples-succeeded bucket [] = omega arith
result_samples-succeeded bucket (ok _ ∷ results) =
    omega (arith, result_samples-succeeded bucket results)
result_samples-succeeded bucket (err e ∷ results) =
    omega (arith, result_samples-succeeded bucket results)

pub count-append :
    (p : Sample → Bool) (xs ys : List Sample) → count p (xs ++ ys) ≡ count p xs + count p ys
unfolding count
count-append p [] ys = omega arith
count-append p (x ∷ xs) ys = omega (arith, count-append p xs ys)

result_samples-quorum :
    (bucket : Bytes) (results : List Answer)
    → count is_quorum_failure (result_samples bucket results) ≡ 0
unfolding result_samples count is_quorum_failure record_replica_write
result_samples-quorum bucket [] = refl
result_samples-quorum bucket (ok _ ∷ results) = omega (arith, result_samples-quorum bucket results)
result_samples-quorum bucket (err e ∷ results) = omega (arith, result_samples-quorum bucket results)

quorum_samples-result :
    (bucket result : Bytes) (results : List Answer)
    → count (has_result result) (quorum_samples bucket results) ≡ 0
unfolding quorum_samples count has_result record_quorum_failure
quorum_samples-result bucket result [] = refl
quorum_samples-result bucket result (r ∷ results) = ground arith

quorum_samples-verdict :
    (bucket : Bytes) (r : Answer) (results : List Answer)
    → count is_quorum_failure (quorum_samples bucket (r ∷ results))
      ≡ (if is_ok (verdict (r ∷ results)) then 0 else 1)
unfolding quorum_samples verdict count is_quorum_failure record_quorum_failure
quorum_samples-verdict bucket r results = ground arith

pub use_metrics-true : (samples : List Sample) → use_metrics true samples ≡ returns samples
unfolding use_metrics
use_metrics-true [] = refl
use_metrics-true (s ∷ samples) = refl

-- what a replicated write over these answers records
write_samples-counts :
    (bucket : Bytes) (results : List Answer)
    → let samples = result_samples bucket results ++ quorum_samples bucket results in
      (count (has_result (codes "success")) samples ≡ succeeded results)
      × (count (has_result (codes "failure")) samples + succeeded results ≡ length results)
      × (0 < length results
          → count is_quorum_failure samples ≡ (if is_ok (verdict results) then 0 else 1))
write_samples-counts bucket results =
    let (s, f) = result_samples-succeeded bucket results in
    let split = λ (p : Sample → Bool).
      count-append p (result_samples bucket results) (quorum_samples bucket results) in
    (
      split (has_result (codes "success"))
          ∙ omega (arith, s, quorum_samples-result bucket (codes "success") results),
      omega (
        arith,
        split (has_result (codes "failure")),
        f,
        quorum_samples-result bucket (codes "failure") results,
      ),
      λ z.
          split is_quorum_failure
          ∙ rw (result_samples-quorum bucket results) (some_verdict bucket results z),
    )
  where
    some_verdict :
        (bucket : Bytes) (rs : List Answer)
        → 0 < length rs
        → 0 + count is_quorum_failure (quorum_samples bucket rs)
          ≡ (if is_ok (verdict rs) then 0 else 1)
    some_verdict bucket [] z = absurd (omega arith)
    some_verdict bucket (r ∷ rs) z = omega (arith, quorum_samples-verdict bucket r rs)

-- What a write records over the answers of a replica set: `measured` is the write with metrics, and
-- `plain` the write without.
abbrev pub IsCounted :
    {A : Type 0}
    → Outcome (Measured Answer (Cache A))
    → Outcome (Answer × Cache A)
    → List ReplicaNode
    → List Answer
    → Cache A
    → Type 0
IsCounted measured plain rs results c' =
    (a : Answer) × (samples : List Sample) × (measured ≡ returns (a, c', samples))
    × (plain ≡ returns (a, c'))
    × (count (has_result (codes "success")) samples ≡ succeeded results)
    × (count (has_result (codes "failure")) samples + succeeded results ≡ length rs)
    × (count is_quorum_failure samples
        ≡ (if is_ok a then 0 else if ltb 0 (length rs) then 1 else 0))

module _ {A : Type 0} (bucket : Bytes) (arrive : List Answer → List Answer)
    (here : Cache A → Outcome (Answer × Cache A)) (there : Bytes → Answer) (c : Cache A) where
  -- What `Set` and `Delete` share: with metrics it answers and leaves what it does without them, and
  -- counts each replica once and a missed quorum once.
  pub measured_replicate_write-counts :
      (rs : List ReplicaNode) {c' : Cache A} {results : List Answer}
      → ((answers : List Answer) → Perm (arrive answers) answers)
      → fan_out here there rs c ≡ returns (results, c')
      → IsCounted
          (measured_replicate_write true bucket arrive here there rs c)
          (replicate_write arrive here there rs c)
          rs
          results
          c'
  unfolding measured_replicate_write replicate_write fan_out succeeded count verdict
  measured_replicate_write-counts [] {c'} {results} p e =
      let results_empty : [] ≡ results =
        ap {A = Outcome (List Answer × Cache A)} {B = List Answer}
          (λ o. elim o [ returns x ↦ x.0 | panics ↦ [] | out_of_fuel ↦ [] ]) e in
      let unchanged : c ≡ c' =
        ap {A = Outcome (List Answer × Cache A)} {B = Cache A}
          (λ o. elim o [ returns x ↦ x.1 | panics ↦ c | out_of_fuel ↦ c ]) e in
      rw (← results_empty, ← unchanged) (err no_replicas, [], refl, refl, refl, refl, refl)
  measured_replicate_write-counts (r ∷ rs) {c'} {results} p e =
      let answers = arrive results in
      let size : length answers ≡ length (r ∷ rs) =
        length-perm _ _ (p results) ∙ fan_out-length here there (r ∷ rs) c e in
      let same : succeeded answers ≡ succeeded results = succeeded-perm _ _ (p results) in
      let not_empty : ltb 0 (length (r ∷ rs)) ≡ true = ground arith in
      let (s, f, q) = write_samples-counts bucket answers in
      (
        verdict answers,
        result_samples bucket answers ++ quorum_samples bucket answers,
        rw
            (
              e,
              use_metrics-true (result_samples bucket answers),
              use_metrics-true (quorum_samples bucket answers),
            )
            refl,
        rw e refl,
        s ∙ same,
        omega (arith, f, same, size),
        rw not_empty (q (omega (arith, size))),
      )
