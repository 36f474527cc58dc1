-- ===== src/Net/Startup.antt =====
-- internal/nodosum/nodosum.go: `New` with its error paths, and what `Start` joins.
use mycorrhizal.Base.{
  ◌≡◌, ◌⊎◌, inl, inr, refl, ℕ, Bool, true, false, not, ◌&&◌, List, [], ◌∷◌, Result, ok, err, ite,
  if◌then◌else◌,
}
use mycorrhizal.Base.Bytes.{Bytes, Bytes-discrete}
use mycorrhizal.Net.{Nodosum, NodeMeta}
use mycorrhizal.Net.Delegate.{Member, Action, notify_merge}
use mycorrhizal.Net.Steps.{new_nodosum}

pub data StartError : Type 0 where
  bad_ca : StartError
  no_socket : StartError
  no_node_cert : StartError
  no_memberlist : StartError

-- Whether the library calls of `New` succeed, in their order, and whether the `Close` of a QUIC transport
-- also closes the socket that the transport was given.
pub record Outside : Type 0 where
  pub parse_ca : Bool
  pub listen : Bool
  pub generate_node_cert : Bool
  pub create_memberlist : Bool
  pub close_frees : Bool

-- What `New` leaves: whether the UDP socket is open, whether there is a QUIC transport that was not
-- closed, and whether the context is not cancelled.
pub record Resources : Type 0 where
  pub socket_open : Bool
  pub transport_open : Bool
  pub context_open : Bool

abbrev pub nothing_open : Resources
nothing_open = record { socket_open = false; transport_open = false; context_open = false }

abbrev pub all_open : Resources
all_open = record { socket_open = true; transport_open = true; context_open = true }

-- After `quicTransport.Close()` and `cancel()`. `New` never closes the socket itself.
unfoldable pub after_close : Outside → Resources
after_close o = record {
  socket_open = not o.close_frees;
  transport_open = false;
  context_open = false;
}

-- `New`
unfoldable pub start_nodosum :
    Outside → (node_id : Bytes) → (port : ℕ) → List NodeMeta → Result StartError Nodosum × Resources
start_nodosum o node_id port meta =
    if o.parse_ca
    then if o.listen
      then if o.generate_node_cert
        then if o.create_memberlist
          then (ok (new_nodosum node_id port meta), all_open)
          else (err no_memberlist, after_close o)
        else (err no_node_cert, after_close o)
      else (err no_socket, nothing_open)
    else (err bad_ca, nothing_open)

-- whether all of them succeed
abbrev pub succeeds : Outside → Bool
succeeds o = o.parse_ca && o.listen && o.generate_node_cert && o.create_memberlist

-- what is left where `New` returns an error
abbrev pub left_open : Outside → Resources
left_open o = record {
  socket_open = o.parse_ca && o.listen && not o.close_frees;
  transport_open = false;
  context_open = false;
}

start_cases :
    (a b c d f : Bool) (node_id : Bytes) (port : ℕ) (meta : List NodeMeta)
    → let o : Outside = record {
      parse_ca = a;
      listen = b;
      generate_node_cert = c;
      create_memberlist = d;
      close_frees = f;
    } in
      ((succeeds o ≡ true)
        × (start_nodosum o node_id port meta ≡ (ok (new_nodosum node_id port meta), all_open)))
      ⊎ ((succeeds o ≡ false)
          × ((e : StartError) × (start_nodosum o node_id port meta ≡ (err e, left_open o))))
unfolding start_nodosum after_close
start_cases false b c d f node_id port meta = inr (refl, (bad_ca, refl))
start_cases true false c d f node_id port meta = inr (refl, (no_socket, refl))
start_cases true true false d f node_id port meta = inr (refl, (no_node_cert, refl))
start_cases true true true false f node_id port meta = inr (refl, (no_memberlist, refl))
start_cases true true true true f node_id port meta = inl (refl, refl)

-- Either everything succeeds, and the socket, the transport and the context are open; or `New` returns
-- an error and has closed the transport and the context, and the socket is open exactly when it was
-- opened and the transport's `Close` leaves it.
pub start_nodosum-cases :
    (o : Outside) (node_id : Bytes) (port : ℕ) (meta : List NodeMeta)
    → ((succeeds o ≡ true)
        × (start_nodosum o node_id port meta ≡ (ok (new_nodosum node_id port meta), all_open)))
      ⊎ ((succeeds o ≡ false)
          × ((e : StartError) × (start_nodosum o node_id port meta ≡ (err e, left_open o))))
start_nodosum-cases o =
    start_cases o.parse_ca o.listen o.generate_node_cert o.create_memberlist o.close_frees

-- `filterNodes`, where `local_addr` is the address of the local member
unfoldable pub filter_nodes : Bytes → List Bytes → List Bytes
filter_nodes local_addr [] = []
filter_nodes local_addr (ip ∷ ips) =
    let rest = filter_nodes local_addr ips in ite (Bytes-discrete ip local_addr) rest (ip ∷ rest)

-- `Start`, which runs once: the addresses that it gives to `Join`, and a `NotifyJoin` for each member
unfoldable pub start :
    (started : Bool) → Bytes → List Bytes → List Member → Nodosum → List Bytes × List Action
start true local_addr ips members n = ([], [])
start false local_addr ips members n = (filter_nodes local_addr ips, notify_merge members n)
