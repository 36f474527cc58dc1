-- ===== src/Cache/Walk.antt =====
-- internal/mycel: the loops over a bucket from its head along the `next` pointers, which the
-- rebalancer and the TTL eviction use.
use mathlib.Core.Option
use mycorrhizal.Base.{ℕ, zero, suc, Option, none, some, List, [], ◌∷◌, if◌then◌else◌}
use mycorrhizal.Lru.{Heap, LruBucket, is_nil}
use mycorrhizal.Lru.Order.{Ptr}

-- the nodes that the loop visits from `n`; `none` when the fuel runs out
unfoldable pub walk : {A : Type 0} → ℕ → Ptr → Heap A → Option (List Ptr)
walk zero n h = none
walk (suc fuel) n h =
    let rest = walk fuel (h.next n) h in if is_nil n then some [] else Option.map (◌∷◌ n) rest

-- A chain of distinct nodes is shorter than the first unused address.
unfoldable pub nodes_of : {A : Type 0} → LruBucket → Heap A → Option (List Ptr)
nodes_of l h = walk h.fresh l.head h
