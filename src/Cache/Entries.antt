-- ===== src/Cache/Entries.antt =====
-- internal/mycel/local.go: the entries that the nodes of a bucket stand for.
use mycorrhizal.Base.{suc, ◌≡◌, ◌≢◌, ◌≤◌, refl, true, none, some, List, [], ◌∷◌, map, arith, length}
use mycorrhizal.Base.Bytes.{Bytes}
use mycorrhizal.Base.Time.{Instant}
use mycorrhizal.Lru.{LruBucket, Heap, update, unlink}
use mycorrhizal.Lru.Order.{Ptr, has, without, Distinct}
use mycorrhizal.Cache.Abstract.{Entry, find, drop_key, extend}

module _ {A : Type 0} where
  -- the entry of a node
  abbrev pub entry : Heap A → Ptr → Entry A
  entry h p = record { key = h.key p; contents = h.contents p; expires_at = h.expires_at p }

  -- heaps that agree on the nodes of a list
  abbrev pub Agrees : Heap A → Heap A → List Ptr → Type 0
  Agrees h g xs = (p : Ptr) → has p xs ≡ true → entry h p ≡ entry g p

  pub entry-same :
      (h g : Heap A) (xs : List Ptr) → Agrees h g xs → map (entry h) xs ≡ map (entry g) xs
  entry-same h g [] s = refl
  entry-same h g (x ∷ xs) s = ground (arith, s x, entry-same h g xs (λ p k. s p (ground arith)))

  -- only the node `n` of the list has the key
  abbrev pub OnlyAt : Heap A → Bytes → Ptr → List Ptr → Type 0
  OnlyAt h key n xs = (p : Ptr) → has p xs ≡ true → h.key p ≡ key → p ≡ n

  pub find-entry :
      (h : Heap A) (key : Bytes) (n : Ptr) (xs : List Ptr)
      → OnlyAt h key n xs
      → has n xs ≡ true
      → h.key n ≡ key
      → (find key (map (entry h) xs) ≡ some (entry h n))
        × (drop_key key (map (entry h) xs) ≡ map (entry h) (without n xs))
  unfolding find drop_key
  find-entry h key n [] only m e = absurd (ground arith)
  find-entry h key n (x ∷ xs) only m e =
      ground (arith, only x, find-entry h key n xs (λ p k. only p (ground arith)))

  pub find-none :
      (h : Heap A) (key : Bytes) (xs : List Ptr)
      → ((p : Ptr) → has p xs ≡ true → h.key p ≢ key)
      → (find key (map (entry h) xs) ≡ none) × (drop_key key (map (entry h) xs) ≡ map (entry h) xs)
  unfolding find drop_key
  find-none h key [] absent = (refl, refl)
  find-none h key (x ∷ xs) absent =
      ground (arith, absent x, find-none h key xs (λ p k. absent p (ground arith)))

  pub extend-entry :
      (h : Heap A) (key : Bytes) (n : Ptr) (t : Instant) (xs : List Ptr)
      → OnlyAt h key n xs
      → has n xs ≡ true
      → h.key n ≡ key
      → Distinct xs
      → extend key t (map (entry h) xs)
        ≡ map (entry (record h { expires_at = update h.expires_at n t })) xs
  unfolding extend
  extend-entry h key n t [] only m e d = absurd (ground arith)
  extend-entry h key n t (x ∷ xs) only m e d = ground (
    arith,
    only x,
    extend-entry h key n t xs (λ p k. only p (ground arith)),
    entry-same h (record h { expires_at = update h.expires_at n t }) xs,
  )

  pub length-drop_key :
      (key : Bytes) (es : List (Entry A)) (e : Entry A)
      → find key es ≡ some e
      → suc (length (drop_key key es)) ≡ length es
  unfolding find drop_key
  length-drop_key key [] e f = cc
  length-drop_key key (x ∷ es) e f = ground (arith, length-drop_key key es e)

  pub length-drop_key-le :
      (key : Bytes) (es : List (Entry A)) → length (drop_key key es) ≤ length es
  unfolding drop_key
  length-drop_key-le key [] = omega arith
  length-drop_key-le key (e ∷ es) = ground (arith, length-drop_key-le key es)

  pub length-extend :
      (key : Bytes) (t : Instant) (es : List (Entry A)) → length (extend key t es) ≡ length es
  unfolding extend
  length-extend key t [] = refl
  length-extend key t (e ∷ es) = ground (arith, length-extend key t es)

  pub length-map-entry : (h : Heap A) (xs : List Ptr) → length (map (entry h) xs) ≡ length xs
  length-map-entry h [] = refl
  length-map-entry h (x ∷ xs) = ground (arith, length-map-entry h xs)

  pub unlink-entry :
      (n : Ptr) (l : LruBucket) (h : Heap A) (p : Ptr)
      → (p ≡ n → ⊥)
      → entry (unlink n l h).1 p ≡ entry h p
  unfolding unlink
  unlink-entry n l h p ne = ground arith
