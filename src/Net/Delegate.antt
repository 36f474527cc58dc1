-- ===== src/Net/Delegate.antt =====
-- internal/nodosum/memberlist.go: the callbacks of the library memberlist. A dial runs in a goroutine
-- between two critical sections, `begin_join` and `after_dial`; the goroutines and timers that a
-- callback starts are its actions.
use mycorrhizal.Base.{
  ℕ, ◌+◌, ◌*◌, Bool, true, false, Option, none, some, List, [], ◌∷◌, ◌++◌, Result, ok, err, length,
  take, ltb, ite, if◌then◌else◌,
}
use mycorrhizal.Base.Bytes.{Bytes, Bytes-discrete}
use mycorrhizal.Base.Decimal.{itoa}
use mycorrhizal.Base.Maps.{lookup, put, del}
use mycorrhizal.Wire.Ints.{be16, uint16}
use mycorrhizal.Net.{NetError, Nodosum}
use mycorrhizal.Net.Conns.{close_conn, drop_conn, close_quic_connection}

-- `memberlist.Node`: its name, the text of its address, and the meta data that it announces
pub record Member : Type 0 where
  pub name : Bytes
  pub addr : Bytes
  pub meta : Bytes

-- `go d.NotifyJoin(node)`, the same after some milliseconds, and a call of the topology hook
pub data Action : Type 0 where
  join_now : Member → Action
  join_after : ℕ → Member → Action
  topology_changed : Bytes → Bool → Action

-- the first two bytes of the meta data; fewer of them panic, and the panic is recovered
unfoldable pub quic_port : Bytes → Option ℕ
quic_port meta = if ltb (length meta) 2 then none else some (uint16 (take 2 meta))

-- `NodeMeta`
unfoldable pub node_meta_bytes : Nodosum → Bytes
node_meta_bytes n = be16 n.quic_advertise_port

unfoldable pub forget_attempts : Bytes → Nodosum → Nodosum
forget_attempts name n = record n { dial_attempts = del name n.dial_attempts }

-- `delete` of one entry of the goroutines that wait for a dial
unfoldable pub drop_first : Bytes → List Bytes → List Bytes
drop_first name [] = []
drop_first name (x ∷ xs) = ite (Bytes-discrete x name) xs (x ∷ drop_first name xs)

-- `NotifyJoin` of another node up to the dial: the address to dial, and the state. `resolve` is
-- `net.ResolveUDPAddr`.
unfoldable pub join_other : (Bytes → Option Bytes) → Member → Nodosum → Option Bytes × Nodosum
join_other resolve m n = elim (lookup m.name n.quic_conns) [
  | some conn ↦ (none, forget_attempts m.name n)
  | none ↦ elim (quic_port m.meta) [
    | none ↦ (none, n)
    | some port ↦ elim (resolve (m.addr ++ (b':' ∷ itoa port))) [
      | none ↦ (none, n)
      | some address ↦ (some address, record n { dialling = m.name ∷ n.dialling })
    ]
  ]
]

unfoldable pub begin_join : (Bytes → Option Bytes) → Member → Nodosum → Option Bytes × Nodosum
begin_join resolve m n = ite (Bytes-discrete m.name n.node_id) (none, n) (join_other resolve m n)

unfoldable pub attempts_of : Bytes → Nodosum → ℕ
attempts_of name n = elim (lookup name n.dial_attempts) [ none ↦ 0 | some k ↦ k ]

-- whether a failed dial is tried again, and after how many milliseconds
unfoldable pub retry : Member → ℕ → List Action
retry m attempts = if ltb attempts 5 then join_after (attempts * attempts * 100) m ∷ [] else []

-- `NotifyJoin` after the dial
unfoldable pub after_dial : Member → Result NetError ℕ → Nodosum → List Action × Nodosum
after_dial m (err e) n =
    let attempts = attempts_of m.name n + 1 in
    (
      retry m attempts,
      record n {
        dial_attempts = put m.name attempts n.dial_attempts;
        dialling = drop_first m.name n.dialling;
      },
    )
after_dial m (ok conn) n = elim (lookup m.name n.quic_conns) [
  | some other ↦ ([], close_conn conn (record n { dialling = drop_first m.name n.dialling }))
  | none ↦ (
    topology_changed m.name true ∷ [],
    forget_attempts m.name (record n {
      quic_conns = put m.name conn n.quic_conns;
      dialling = drop_first m.name n.dialling;
    }),
  )
]

-- the whole of `NotifyJoin`, when nothing else runs during the dial; `dial` is given the address and
-- the server name
unfoldable pub notify_join :
    (Bytes → Option Bytes)
    → (Bytes → Bytes → Result NetError ℕ)
    → Member
    → Nodosum
    → List Action × Nodosum
notify_join resolve dial m n =
    let (address, n') = begin_join resolve m n in
    elim address [ none ↦ ([], n') | some a ↦ after_dial m (dial a m.name) n' ]

unfoldable pub notify_leave : Member → Nodosum → List Action × Nodosum
notify_leave m n =
    (topology_changed m.name false ∷ [], forget_attempts m.name (close_quic_connection m.name n))

unfoldable pub notify_update : Member → Nodosum → List Action × Nodosum
notify_update m n = (join_now m ∷ [], forget_attempts m.name (drop_conn m.name n))

-- `NotifyAlive` of another node; `is_cancelled` is `conn.Context().Err() != nil`
unfoldable pub alive_other : (ℕ → Bool) → Member → Nodosum → List Action × Nodosum
alive_other is_cancelled m n = elim (lookup m.name n.quic_conns) [
  | none ↦ (join_now m ∷ [], n)
  | some conn ↦
      if is_cancelled conn then (join_now m ∷ [], close_quic_connection m.name n) else ([], n)
]

unfoldable pub notify_alive : (ℕ → Bool) → Member → Nodosum → List Action × Nodosum
notify_alive is_cancelled m n =
    ite (Bytes-discrete m.name n.node_id) ([], n) (alive_other is_cancelled m n)

unfoldable pub notify_merge : List Member → Nodosum → List Action
notify_merge [] n = []
notify_merge (m ∷ ms) n =
    let rest = notify_merge ms n in ite (Bytes-discrete m.name n.node_id) rest (join_now m ∷ rest)
