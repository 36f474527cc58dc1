-- ===== src/Metrics/Written.antt =====
-- internal/mycel/cache.go: the counters of `Set` and `Delete` against what they answer.
use mathlib.Core.List.{Perm}
use mycorrhizal.Base.{ℕ, ◌≡◌, ◌∙◌, refl, Bool, true, Option, List, ◌++◌, Result, ok, err, arith}
use mycorrhizal.Base.Bytes.{Bytes, codes}
use mycorrhizal.Base.Int.{ℤ}
use mycorrhizal.Base.Time.{Duration}
use mycorrhizal.Cache.{Cache, Error, Outcome, returns}
use mycorrhizal.Cache.Local.{set_local, delete_local}
use mycorrhizal.Cache.Routing.{is_local, get_replica_nodes}
use mycorrhizal.Cache.Remote.{
  Codec, RemoteCachePayload, set_remote_to_node, delete_remote_from_node,
}
use mycorrhizal.Cache.Replicated.{
  Answer, fan_out, forgive, forgiving, replicate_write, set_replicated, delete_replicated,
}
use mycorrhizal.Cache.Facade.{set, delete}
use mycorrhizal.Metrics.{Sample, track_set, track_delete, done}
use mycorrhizal.Metrics.Local.{Measured}
use mycorrhizal.Metrics.Facade.{measured_replicate_write, measured_set, measured_delete, locality}
use mycorrhizal.Metrics.Counts.{
  count, has_result, is_quorum_failure, count-append, use_metrics-true, IsCounted,
  measured_replicate_write-counts,
}

-- a Set or a Delete
pub data Write (A : Type 0) : Type 0 where
  set_write : ℕ → Option A → Duration → Write A
  delete_write : Write A

-- what `trackSet` or `trackDelete`, and the function that it returns, record
abbrev tracked : {A : Type 0} → Write A → Bytes → Bytes → List Sample
tracked (set_write now value ttl) bucket here = track_set bucket here
tracked delete_write bucket here = track_delete bucket here

-- neither of them is a replica write or a failure of the quorum
tracked-uncounted :
    {A : Type 0} (w : Write A) (bucket here : Bytes) (elapsed : ℤ) (a : Answer)
    → (count is_quorum_failure (tracked w bucket here) ≡ 0)
      × (count is_quorum_failure (done bucket here elapsed a) ≡ 0)
      × ((result : Bytes)
          → (count (has_result result) (tracked w bucket here) ≡ 0)
            × (count (has_result result) (done bucket here elapsed a) ≡ 0))
unfolding count is_quorum_failure has_result track_set track_delete done
tracked-uncounted (set_write now value ttl) bucket here elapsed (ok _) =
    (refl, refl, λ r. (refl, refl))
tracked-uncounted (set_write now value ttl) bucket here elapsed (err e) =
    (refl, refl, λ r. (refl, refl))
tracked-uncounted delete_write bucket here elapsed (ok _) = (refl, refl, λ r. (refl, refl))
tracked-uncounted delete_write bucket here elapsed (err e) = (refl, refl, λ r. (refl, refl))

count-around :
    (p : Sample → Bool) (s u t : List Sample)
    → count p s ≡ 0
    → count p t ≡ 0
    → count p (s ++ (u ++ t)) ≡ count p u
count-around p s u t e f = omega (arith, count-append p s (u ++ t), count-append p u t, e, f)

module _ {A : Type 0} (codec : Codec (RemoteCachePayload A))
    (request : Bytes → Bytes → Result Error Bytes) (sum64 : Bytes → ℕ) (nodes : List Bytes)
    (elapsed : ℤ) (arrive : List Answer → List Answer) (bucket key : Bytes) where
  abbrev pub here : Write A → Cache A → Outcome (Answer × Cache A)
  here (set_write now value ttl) = set_local now bucket key value ttl
  here delete_write = forgiving (delete_local bucket key)

  abbrev pub there : Write A → Bytes → Answer
  there (set_write now value ttl) = set_remote_to_node codec request bucket key value ttl
  there delete_write = λ id. forgive (delete_remote_from_node codec request bucket key id)

  abbrev pub measured_write : Write A → Cache A → Outcome (Measured Answer (Cache A))
  measured_write (set_write now value ttl) =
      measured_set codec request sum64 nodes true elapsed arrive now bucket key value ttl
  measured_write delete_write =
      measured_delete codec request sum64 nodes true elapsed arrive bucket key

  abbrev pub write : Write A → Cache A → Outcome (Answer × Cache A)
  write (set_write now value ttl) = set codec request sum64 nodes arrive now bucket key value ttl
  write delete_write = delete codec request sum64 nodes arrive bucket key

  write-replicate :
      (w : Write A) (c : Cache A)
      → let c₁ = (is_local sum64 nodes bucket key c).1 in
        write w c
        ≡ replicate_write arrive (here w) (there w) (get_replica_nodes sum64 nodes bucket key c₁) c₁
  unfolding set delete set_replicated delete_replicated
  write-replicate (set_write now value ttl) c = refl
  write-replicate delete_write c = refl

  measured_write-replicate :
      (w : Write A) (c : Cache A) {c' : Cache A} {a : Answer} {u : List Sample}
      → let (l, c₁) = is_local sum64 nodes bucket key c in
        measured_replicate_write true bucket arrive
            (here w)
            (there w)
            (get_replica_nodes sum64 nodes bucket key c₁)
            c₁
          ≡ returns (a, c', u)
        → measured_write w c
          ≡ returns
              (a, c', tracked w bucket (locality l) ++ (u ++ done bucket (locality l) elapsed a))
  unfolding measured_set measured_delete
  measured_write-replicate (set_write now value ttl) c {c'} {a} {u} e =
      let (l, c₁) = is_local sum64 nodes bucket key c in
      rw
        (
          use_metrics-true (track_set bucket (locality l)),
          e,
          use_metrics-true (done bucket (locality l) elapsed a),
        )
        refl
  measured_write-replicate delete_write c {c'} {a} {u} e =
      let (l, c₁) = is_local sum64 nodes bucket key c in
      rw
        (
          use_metrics-true (track_delete bucket (locality l)),
          e,
          use_metrics-true (done bucket (locality l) elapsed a),
        )
        refl

  -- When the answers of the key's replica set are collected, and arrive in any order, a Set or a Delete
  -- with metrics answers and leaves what it does without them: it counts each replica as a success or as
  -- a failure, and a failure of the quorum exactly if it returns an error and the replica set is not
  -- empty. What the local write measures is not among these.
  pub measured_write-counts :
      (w : Write A) (c : Cache A) {c' : Cache A} {results : List Answer}
      → let c₁ = (is_local sum64 nodes bucket key c).1 in
        let rs = get_replica_nodes sum64 nodes bucket key c₁ in
        ((answers : List Answer) → Perm (arrive answers) answers)
        → fan_out (here w) (there w) rs c₁ ≡ returns (results, c')
        → IsCounted (measured_write w c) (write w c) rs results c'
  measured_write-counts w c p e =
      let (l, c₁) = is_local sum64 nodes bucket key c in
      let (a, u, m, n, s, f, q) =
        measured_replicate_write-counts bucket arrive (here w) (there w) c₁
          (get_replica_nodes sum64 nodes bucket key c₁) p e in
      let before = tracked w bucket (locality l) in
      let after = done bucket (locality l) elapsed a in
      let (k, k', r) = tracked-uncounted w bucket (locality l) elapsed a in
      let around : (result : Bytes)
          → count (has_result result) (before ++ (u ++ after)) ≡ count (has_result result) u =
        λ result. count-around (has_result result) before u after (r result).0 (r result).1 in
      (
        a,
        before ++ (u ++ after),
        measured_write-replicate w c m,
        write-replicate w c ∙ n,
        rw (around (codes "success")) s,
        rw (around (codes "failure")) f,
        rw (count-around is_quorum_failure before u after k k') q,
      )
