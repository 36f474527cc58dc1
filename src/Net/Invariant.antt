-- ===== src/Net/Invariant.antt =====
-- internal/nodosum/memberlist.go and conn.go: the invariant `IsConns` of a node's connections, and the
-- operations that change them.
use mathlib.Core.Logic.{if_pos, if_neg}
use mycorrhizal.Base.{
  ℕ, ◌≡◌, ◌≢◌, sym, ◌∙◌, inl, inr, Listed, Option-cases, false, Option, none, some, List, [], ◌∷◌,
  ◌++◌, ok, err, ite, ℕ_discrete, arith,
}
use mycorrhizal.Base.Bytes.{Bytes, Bytes-discrete}
use mycorrhizal.Base.Decimal.{itoa}
use mycorrhizal.Base.Maps.{lookup, put, del, lookup-put, lookup-del}
use mycorrhizal.Net.{NetError, Nodosum, has_handle}
use mycorrhizal.Net.Conns.{close_conn, register_conn, handle_quic_conn, unregister_conn, drop_conn}
use mycorrhizal.Net.Delegate.{
  Member, join_other, begin_join, after_dial, drop_first, forget_attempts, quic_port,
}

-- No connection to this node and no dial of it; this node has closed no connection of the map, and each
-- is that of one node. The other end may have closed it, or it may have been idle for too long.
pub record IsConns (n : Nodosum) : Type 0 where
  pub no_self : lookup n.node_id n.quic_conns ≡ none
  pub no_self_dial : (k : Bytes) → Listed k n.dialling → k ≢ n.node_id
  pub conn_unclosed :
      (k : Bytes) (c : ℕ) → lookup k n.quic_conns ≡ some c → has_handle c n.closed_conns ≡ false
  pub conn_owned :
      (k j : Bytes) (c : ℕ)
      → lookup k n.quic_conns ≡ some c
      → lookup j n.quic_conns ≡ some c
      → k ≡ j

-- a connection that the library has just made
pub record IsNewConn (c : ℕ) (n : Nodosum) : Type 0 where
  pub not_closed : has_handle c n.closed_conns ≡ false
  pub not_used : (k : Bytes) → lookup k n.quic_conns ≢ some c

Listed-drop_first : (k name : Bytes) (xs : List Bytes) → Listed k (drop_first name xs) → Listed k xs
unfolding drop_first
Listed-drop_first k name [] m = m
Listed-drop_first k name (x ∷ xs) m = elim (Bytes-discrete x name) [
  | yes e ↦ let m' : Listed k xs = rw (if_pos _ e) at m in inr m'
  | no e ↦
      let m' : Listed k (x ∷ drop_first name xs) = rw (if_neg _ e) at m in
      elim m' [ inl f ↦ inl f | inr l ↦ inr (Listed-drop_first k name xs l) ]
]

module _ {n : Nodosum} (w : IsConns n) where
  pub begin_join-IsConns :
      (resolve : Bytes → Option Bytes) (m : Member) → IsConns (begin_join resolve m n).1
  unfolding begin_join join_other forget_attempts
  begin_join-IsConns resolve m =
      elim (Bytes-discrete m.name n.node_id)
        as (λ d. IsConns (ite d (none, n) (join_other resolve m n)).1) [
          | yes e ↦ w
          | no e ↦ (elim (Option-cases (lookup m.name n.quic_conns)) [
            | inr (c, o) ↦
                rw (o, join_other)
                  (record {
                    no_self = w.no_self;
                    no_self_dial = w.no_self_dial;
                    conn_unclosed = w.conn_unclosed;
                    conn_owned = w.conn_owned;
                  })
            | inl o ↦
                rw (o, join_other)
                  (elim (Option-cases (quic_port m.meta)) [
                    | inl p ↦ rw p w
                    | inr (port, p) ↦
                        rw p (elim (Option-cases (resolve (m.addr ++ (b':' ∷ itoa port)))) [
                          | inl r ↦ rw r w
                          | inr (a, r) ↦ rw r (record {
                            no_self = w.no_self;
                            no_self_dial = λ k l. elim l [
                              | inl f ↦ (λ g. e (sym f ∙ g))
                              | inr i ↦ w.no_self_dial k i
                            ];
                            conn_unclosed = w.conn_unclosed;
                            conn_owned = w.conn_owned;
                          })
                        ])
                  ])
          ])
        ]

  pub dial_failed-IsConns : (m : Member) (e : NetError) → IsConns (after_dial m (err e) n).1
  unfolding after_dial
  dial_failed-IsConns m e = record {
    no_self = w.no_self;
    no_self_dial = λ k l. w.no_self_dial k (Listed-drop_first k m.name n.dialling l);
    conn_unclosed = w.conn_unclosed;
    conn_owned = w.conn_owned;
  }

  put-IsConns :
      (name : Bytes) (c : ℕ) (dialling : List Bytes) (attempts : List (Bytes × ℕ))
      → IsNewConn c n
      → name ≢ n.node_id
      → ((k : Bytes) → Listed k dialling → k ≢ n.node_id)
      → IsConns (record n {
        quic_conns = put name c n.quic_conns;
        dialling = dialling;
        dial_attempts = attempts;
      })
  put-IsConns name c dialling attempts new ne d = record {
    no_self = ground (arith, w.no_self, lookup-put name n.node_id c n.quic_conns);
    no_self_dial = d;
    conn_unclosed = λ k x h.
        ground (arith, new.not_closed, w.conn_unclosed k x, lookup-put name k c n.quic_conns);
    conn_owned = λ k j x h i. ground (
      arith,
      new.not_used k,
      new.not_used j,
      w.conn_owned k j x,
      lookup-put name k c n.quic_conns,
      lookup-put name j c n.quic_conns,
    );
  }

  del-IsConns :
      (name : Bytes) (attempts : List (Bytes × ℕ))
      → IsConns (record n { quic_conns = del name n.quic_conns; dial_attempts = attempts })
  del-IsConns name attempts = record {
    no_self = ground (arith, w.no_self, lookup-del name n.node_id n.quic_conns);
    no_self_dial = w.no_self_dial;
    conn_unclosed = λ k x h. ground (arith, w.conn_unclosed k x, lookup-del name k n.quic_conns);
    conn_owned = λ k j x h i.
        ground (
          arith,
          w.conn_owned k j x,
          lookup-del name k n.quic_conns,
          lookup-del name j n.quic_conns,
        );
  }

  close_new-IsConns :
      (c : ℕ) (dialling : List Bytes)
      → IsNewConn c n
      → ((k : Bytes) → Listed k dialling → k ≢ n.node_id)
      → IsConns (close_conn c (record n { dialling = dialling }))
  unfolding close_conn has_handle
  close_new-IsConns c dialling new d = record {
    no_self = w.no_self;
    no_self_dial = d;
    conn_unclosed = λ k x h. ground (arith, w.conn_unclosed k x h, new.not_used k);
    conn_owned = w.conn_owned;
  }

  -- A dial that succeeds keeps the invariant, also where another connection was made meanwhile.
  pub dial_succeeded-IsConns :
      (m : Member) (c : ℕ)
      → Listed m.name n.dialling
      → IsNewConn c n
      → IsConns (after_dial m (ok c) n).1
  unfolding after_dial forget_attempts
  dial_succeeded-IsConns m c l new =
      let d : (k : Bytes) → Listed k (drop_first m.name n.dialling) → k ≢ n.node_id =
        λ k i. w.no_self_dial k (Listed-drop_first k m.name n.dialling i) in
      elim (Option-cases (lookup m.name n.quic_conns)) [
        | inl o ↦ rw (o, after_dial) (put-IsConns m.name c _ _ new (w.no_self_dial m.name l) d)
        | inr (other, o) ↦ rw (o, after_dial) (close_new-IsConns c _ new d)
      ]

  pub handle_quic_conn-IsConns :
      (name : Option Bytes) (c : ℕ) → IsNewConn c n → IsConns (handle_quic_conn name c n).1
  unfolding handle_quic_conn register_conn
  handle_quic_conn-IsConns none c new = w
  handle_quic_conn-IsConns (some []) c new = close_new-IsConns c n.dialling new w.no_self_dial
  handle_quic_conn-IsConns (some (b ∷ bs)) c new =
      elim (Bytes-discrete (b ∷ bs) n.node_id)
        as (λ d. IsConns (ite d (false, close_conn c n) (register_conn (b ∷ bs) c n)).1) [
          | yes e ↦ (close_new-IsConns c n.dialling new w.no_self_dial)
          | no e ↦ (elim (Option-cases (lookup (b ∷ bs) n.quic_conns)) [
            | inl o ↦
                rw (o, register_conn)
                  (put-IsConns (b ∷ bs) c n.dialling n.dial_attempts new e w.no_self_dial)
            | inr (other, o) ↦ rw (o, register_conn) w
          ])
        ]

  pub unregister_conn-IsConns : (name : Bytes) (c : ℕ) → IsConns (unregister_conn name c n)
  unfolding unregister_conn
  unregister_conn-IsConns name c = elim (Option-cases (lookup name n.quic_conns)) [
    | inl o ↦ rw (o, unregister_conn) w
    | inr (x, o) ↦
        rw (o, unregister_conn)
          (elim (ℕ_discrete x c) [
            | yes e ↦ rw (if_pos _ e) (del-IsConns name n.dial_attempts)
            | no e ↦ rw (if_neg _ e) w
          ])
  ]

  pub drop_conn-IsConns : (name : Bytes) → IsConns (drop_conn name n)
  unfolding drop_conn close_conn has_handle
  drop_conn-IsConns name = elim (Option-cases (lookup name n.quic_conns)) [
    | inl o ↦ rw (o, drop_conn) w
    | inr (c, o) ↦
        rw (o, drop_conn)
          (record {
            no_self = ground (arith, w.no_self, lookup-del name n.node_id n.quic_conns);
            no_self_dial = w.no_self_dial;
            conn_unclosed = λ k x h.
                ground (
                  arith,
                  w.conn_unclosed k x,
                  w.conn_owned k name c,
                  lookup-del name k n.quic_conns,
                );
            conn_owned = λ k j x h i. ground (
              arith,
              w.conn_owned k j x,
              lookup-del name k n.quic_conns,
              lookup-del name j n.quic_conns,
            );
          })
  ]
