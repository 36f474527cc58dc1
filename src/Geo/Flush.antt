-- ===== src/Geo/Flush.antt =====
-- internal/mycel/flush.go: the task that hands every bucket's entries to the callback. The model
-- keeps the calls, in the order in which the range visits the buckets; the callback's error is only
-- logged.
use mycorrhizal.Base.{Bool, true, false, none, some, List, [], ◌∷◌}
use mycorrhizal.Base.Bytes.{Bytes}
use mycorrhizal.Base.Maps.{lookup}
use mycorrhizal.Geo.{GeoEntry, GeoStore, GeoCache}

module _ {F : Type 0} where
  -- the entries of a store
  unfoldable pub entries : List (Bytes × GeoEntry F) → List (GeoEntry F)
  entries [] = []
  entries ((user, e) ∷ points) = e ∷ entries points

  unfoldable pub store_names : List (Bytes × GeoStore F) → List Bytes
  store_names [] = []
  store_names ((name, s) ∷ stores) = name ∷ store_names stores

  -- the loop over the names; a bucket that is gone or empty is skipped
  unfoldable pub flush_buckets :
      List (Bytes × GeoStore F) → List Bytes → List (Bytes × List (GeoEntry F))
  flush_buckets stores [] = []
  flush_buckets stores (name ∷ names) =
      let rest = flush_buckets stores names in
      elim (lookup name stores) [
        | none ↦ rest
        | some s ↦ elim (entries s.points) [ [] ↦ rest | e ∷ es ↦ (name, e ∷ es) ∷ rest ]
      ]

  -- `has_callback` is `g.flushFunc != nil`
  unfoldable pub flush_worker_task :
      {A : Type 0} → Bool → GeoCache F A → List (Bytes × List (GeoEntry F))
  flush_worker_task false g = []
  flush_worker_task true g = flush_buckets g.stores (store_names g.stores)
