-- ===== src/Net/Views.antt =====
-- internal/nodosum: the steps that leave the streams alone, or the connections.
use mycorrhizal.Base.Decimal.{itoa}
use mycorrhizal.Base.{
  Bool, ap, ℕ_discrete, ℕ, ◌≡◌, refl, ◌∙◌, false, Option, none, some, List, [], ◌∷◌, ◌++◌, Result,
  ok, err, Option-cases, inl, inr, ite,
}
use mycorrhizal.Base.Bytes.{Bytes, Bytes-discrete}
use mycorrhizal.Base.Maps.{lookup, del}
use mycorrhizal.Net.{NetError, Nodosum}
use mycorrhizal.Net.Conns.{register_conn, handle_quic_conn, unregister_conn, drop_conn, close_conn}
use mycorrhizal.Net.Streams.{close_quic_stream, close_quic_streams}
use mycorrhizal.Net.Delegate.{
  Member, join_other, begin_join, after_dial, forget_attempts, quic_port,
}
use mycorrhizal.Net.Invariant.{IsConns}
use mycorrhizal.Net.Open.{IsStreams}

-- what the invariant of the streams reads, and that of the connections
abbrev pub stream_view :
    Nodosum → List (Bytes × ℕ) × List (Bytes × ℕ) × List (Bytes × ℕ) × List ℕ × Bool
stream_view n =
    (n.quic_application_streams, n.read_loops, n.ended_loops, n.closed_streams, n.streams_locked)

abbrev pub conn_view : Nodosum → Bytes × List (Bytes × ℕ) × List Bytes × List ℕ
conn_view n = (n.node_id, n.quic_conns, n.dialling, n.closed_conns)

pub stream_view-IsStreams :
    {n o : Nodosum} → stream_view o ≡ stream_view n → IsStreams n → IsStreams o
stream_view-IsStreams e w = record {
  stream_unclosed = λ k s h c.
      rw (ap (λ v. v.2) e)
        (w.stream_unclosed k s (rw (ap (λ v. v.0) e) at h) (rw (ap (λ v. v.3) e) at c));
  stream_looped = λ k s h. rw (ap (λ v. v.1) e) (w.stream_looped k s (rw (ap (λ v. v.0) e) at h));
  loop_owned =
      λ k j s h i. w.loop_owned k j s (rw (ap (λ v. v.1) e) at h) (rw (ap (λ v. v.1) e) at i);
}

pub conn_view-IsConns : {n o : Nodosum} → conn_view o ≡ conn_view n → IsConns n → IsConns o
conn_view-IsConns e w = record {
  no_self = rw (ap (λ v. v.0) e, ap (λ v. v.1) e) w.no_self;
  no_self_dial = λ k l. rw (ap (λ v. v.0) e) (w.no_self_dial k (rw (ap (λ v. v.2) e) at l));
  conn_unclosed = λ k c h. rw (ap (λ v. v.3) e) (w.conn_unclosed k c (rw (ap (λ v. v.1) e) at h));
  conn_owned =
      λ k j c h i. w.conn_owned k j c (rw (ap (λ v. v.1) e) at h) (rw (ap (λ v. v.1) e) at i);
}

pub begin_join-stream_view :
    (resolve : Bytes → Option Bytes) (m : Member) (n : Nodosum)
    → stream_view (begin_join resolve m n).1 ≡ stream_view n
unfolding begin_join join_other forget_attempts
begin_join-stream_view resolve m n =
    elim (Bytes-discrete m.name n.node_id)
      as (λ d. stream_view (ite d (none, n) (join_other resolve m n)).1 ≡ stream_view n) [
        | yes e ↦ refl
        | no e ↦ (elim (Option-cases (lookup m.name n.quic_conns)) [
          | inr (c, o) ↦ rw (o, join_other) refl
          | inl o ↦
              rw (o, join_other)
                (elim (Option-cases (quic_port m.meta)) [
                  | inl p ↦ rw p refl
                  | inr (port, p) ↦
                      rw p (elim (Option-cases (resolve (m.addr ++ (b':' ∷ itoa port)))) [
                        | inl r ↦ rw r refl
                        | inr (a, r) ↦ rw r refl
                      ])
                ])
        ])
      ]

pub after_dial-stream_view :
    (m : Member) (r : Result NetError ℕ) (n : Nodosum)
    → stream_view (after_dial m r n).1 ≡ stream_view n
unfolding after_dial forget_attempts close_conn
after_dial-stream_view m (err e) n = refl
after_dial-stream_view m (ok c) n = elim (Option-cases (lookup m.name n.quic_conns)) [
  | inl o ↦ rw (o, after_dial) refl
  | inr (x, o) ↦ rw (o, after_dial) refl
]

pub handle_quic_conn-stream_view :
    (name : Option Bytes) (c : ℕ) (n : Nodosum)
    → stream_view (handle_quic_conn name c n).1 ≡ stream_view n
unfolding handle_quic_conn register_conn close_conn
handle_quic_conn-stream_view none c n = refl
handle_quic_conn-stream_view (some []) c n = refl
handle_quic_conn-stream_view (some (b ∷ bs)) c n =
    elim (Bytes-discrete (b ∷ bs) n.node_id)
      as (λ d.
        stream_view (ite d (false, close_conn c n) (register_conn (b ∷ bs) c n)).1
        ≡ stream_view n) [
          | yes e ↦ refl
          | no e ↦ (elim (Option-cases (lookup (b ∷ bs) n.quic_conns)) [
            | inl o ↦ rw (o, register_conn) refl
            | inr (x, o) ↦ rw (o, register_conn) refl
          ])
        ]

pub unregister_conn-stream_view :
    (name : Bytes) (c : ℕ) (n : Nodosum) → stream_view (unregister_conn name c n) ≡ stream_view n
unfolding unregister_conn
unregister_conn-stream_view name c n = elim (Option-cases (lookup name n.quic_conns)) [
  | inl o ↦ rw (o, unregister_conn) refl
  | inr (x, o) ↦
      rw (o, unregister_conn)
        (elim (ℕ_discrete x c)
          as (λ d.
            stream_view (ite d (record n { quic_conns = del name n.quic_conns }) n)
            ≡ stream_view n) [ yes e ↦ refl | no e ↦ refl ])
]

pub drop_conn-stream_view :
    (name : Bytes) (n : Nodosum) → stream_view (drop_conn name n) ≡ stream_view n
unfolding drop_conn close_conn
drop_conn-stream_view name n = elim (Option-cases (lookup name n.quic_conns)) [
  | inl o ↦ rw (o, drop_conn) refl
  | inr (x, o) ↦ rw (o, drop_conn) refl
]

pub close_quic_streams-conn_view :
    (ks : List Bytes) (n : Nodosum) → conn_view (close_quic_streams ks n) ≡ conn_view n
unfolding close_quic_streams close_quic_stream
close_quic_streams-conn_view [] n = refl
close_quic_streams-conn_view (k ∷ ks) n =
    close_quic_streams-conn_view ks (close_quic_stream k n)
    ∙ (elim (Option-cases (lookup k n.quic_application_streams)) [
      | inl o ↦ rw (o, close_quic_stream) refl
      | inr (x, o) ↦ rw (o, close_quic_stream) refl
    ])
