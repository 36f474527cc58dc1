-- ===== src/Geo/Fill.antt =====
-- internal/mycel/geo_local.go: the queue of `coveringCells`, and the fuel that it needs.
use mycorrhizal.Base.{
  ℕ, zero, suc, ◌+◌, ◌≤◌, ◌≡◌, refl, true, false, inl, inr, Bool-cases, some, List, [], ◌∷◌, ◌++◌,
  All, length, length-append, arith, if◌then◌else◌,
}
use mycorrhizal.Base.Bytes.{Bytes}
use mycorrhizal.Geo.{Floats, Box, Geohash}
use mycorrhizal.Geo.Local.{is_user}
use mycorrhizal.Geo.Query.{enqueue, is_apart, flood, covering_cells}

-- how many of the cells were never in the queue
unfoldable pub unseen : List Bytes → List Bytes → ℕ
unfolding is_user
unseen [] enqueued = 0
unseen (c ∷ cs) enqueued = (if is_user c enqueued then 0 else 1) + unseen cs enqueued

unseen-le : (n : Bytes) (cs enqueued : List Bytes) → unseen cs (n ∷ enqueued) ≤ unseen cs enqueued
unfolding unseen is_user
unseen-le n [] enqueued = omega arith
unseen-le n (c ∷ cs) enqueued = ground (arith, unseen-le n cs enqueued)

unseen-lt :
    (n : Bytes) (cs enqueued : List Bytes)
    → is_user n cs ≡ true
    → is_user n enqueued ≡ false
    → suc (unseen cs (n ∷ enqueued)) ≤ unseen cs enqueued
unfolding unseen is_user
unseen-lt n [] enqueued h k = ground arith
unseen-lt n (c ∷ cs) enqueued h k = ground (arith, unseen-le n cs enqueued, unseen-lt n cs enqueued)

unseen-le-length : (cs enqueued : List Bytes) → unseen cs enqueued ≤ length cs
unfolding unseen
unseen-le-length [] enqueued = omega arith
unseen-le-length (c ∷ cs) enqueued = ground (arith, unseen-le-length cs enqueued)

unseen-lt-length :
    (n : Bytes) (cs : List Bytes) → is_user n cs ≡ true → suc (unseen cs (n ∷ [])) ≤ length cs
unfolding unseen is_user
unseen-lt-length n [] h = ground arith
unseen-lt-length n (c ∷ cs) h = ground (arith, unseen-le-length cs (n ∷ []), unseen-lt-length n cs)

All-snoc :
    (P : Bytes → Type 0) (n : Bytes) (ns : List Bytes) → P n → All P ns → All P (ns ++ (n ∷ []))
All-snoc P n [] h a = (h, tt)
All-snoc P n (m ∷ ns) h a = (a.0, All-snoc P n ns h a.1)

module _ (num : Floats) (geo : Geohash num.F) (cells : List Bytes) where
  -- every neighbour of a cell of the set is in the set
  abbrev pub Closed : Type 0
  Closed =
      (c : Bytes) → is_user c cells ≡ true → All (λ n. is_user n cells ≡ true) (geo.neighbors c)

  enqueue-le :
      (ns queue enqueued : List Bytes)
      → All (λ n. is_user n cells ≡ true) ns
      → length (enqueue num geo ns queue enqueued).0
          + unseen cells (enqueue num geo ns queue enqueued).1
        ≤ length queue + unseen cells enqueued
  unfolding enqueue
  enqueue-le [] queue enqueued a = omega arith
  enqueue-le (n ∷ ns) queue enqueued a = elim (Bool-cases (is_user n enqueued)) [
    | inl b ↦ rw (b, enqueue) (enqueue-le ns queue enqueued a.1)
    | inr b ↦
        rw (b, enqueue)
          (omega (
            arith,
            enqueue-le ns (queue ++ (n ∷ [])) (n ∷ enqueued) a.1,
            unseen-lt n cells enqueued a.0 b,
            length-append queue (n ∷ []),
          ))
  ]

  enqueue-All :
      (ns queue enqueued : List Bytes)
      → All (λ n. is_user n cells ≡ true) ns
      → All (λ n. is_user n cells ≡ true) queue
      → All (λ n. is_user n cells ≡ true) (enqueue num geo ns queue enqueued).0
  unfolding enqueue
  enqueue-All [] queue enqueued a q = q
  enqueue-All (n ∷ ns) queue enqueued a q = elim (Bool-cases (is_user n enqueued)) [
    | inl b ↦ rw (b, enqueue) (enqueue-All ns queue enqueued a.1 q)
    | inr b ↦
        rw (b, enqueue)
          (enqueue-All ns (queue ++ (n ∷ [])) (n ∷ enqueued) a.1 (All-snoc _ n queue a.0 q))
  ]

  flood-some :
      (closed : Closed) (fuel : ℕ) (q : Box num.F) (queue enqueued result : List Bytes)
      → All (λ n. is_user n cells ≡ true) queue
      → length queue + unseen cells enqueued ≤ fuel
      → (r : List Bytes) × (flood num geo fuel q queue enqueued result ≡ some r)
  unfolding flood
  flood-some closed zero q [] enqueued result a h = (result, refl)
  flood-some closed (suc fuel) q [] enqueued result a h = (result, refl)
  flood-some closed zero q (c ∷ queue) enqueued result a h = let z : ⊥ = omega arith in elim z [ ]
  flood-some closed (suc fuel) q (c ∷ queue) enqueued result a h =
      elim (Bool-cases (is_apart num geo (geo.box c) q)) [
        | inl b ↦ rw (b, flood) (flood-some closed fuel q queue enqueued result a.1 (omega arith))
        | inr b ↦
            let le = enqueue-le (geo.neighbors c) queue enqueued (closed c a.0) in
            rw (b, flood)
              (flood-some closed fuel q _ _ (c ∷ result)
                (enqueue-All (geo.neighbors c) queue enqueued (closed c a.0) a.1)
                (omega (arith, le)))
      ]

  -- On a finite set of cells that is closed under neighbours and has the box's centre, the flood
  -- fill ends, with as much fuel as the set has cells.
  pub covering_cells-some :
      (fuel : ℕ) (q : Box num.F) (p : ℕ)
      → Closed
      → is_user
          (geo.encode
            (num.div (num.add q.min_lat q.max_lat) num.two)
            (num.div (num.add q.min_lng q.max_lng) num.two)
            p)
          cells
        ≡ true
      → length cells ≤ fuel
      → (r : List Bytes) × (covering_cells num geo fuel q p ≡ some r)
  unfolding covering_cells
  covering_cells-some fuel q p closed seed h =
      flood-some closed fuel q _ _ [] (seed, tt) (omega (arith, unseen-lt-length _ cells seed))
