-- ===== src/Net/Open.antt =====
-- internal/nodosum/registry.go and conn.go: the invariant `IsStreams` of a node's streams, and the
-- operations that change them.
use mycorrhizal.Base.{
  ℕ, ◌≡◌, sym, ap, ◌∙◌, inl, inr, Listed, Option-cases, true, false, some, List, [], ◌∷◌,
  ℕ_discrete, arith,
}
use mycorrhizal.Base.Bytes.{Bytes, Bytes-discrete}
use mycorrhizal.Base.Maps.{lookup, lookup-put, lookup-del}
use mycorrhizal.Net.{Nodosum, has_handle}
use mycorrhizal.Net.Streams.{
  register_stream, close_quic_stream, close_quic_streams, close_read_loop, forget_stream,
}

-- A stream of the map that this node has closed is one whose read loop has closed it; the streams of the map have a read
-- loop under their key, and no stream has read loops under two keys.
pub record IsStreams (n : Nodosum) : Type 0 where
  pub stream_unclosed :
      (k : Bytes) (s : ℕ)
      → lookup k n.quic_application_streams ≡ some s
      → has_handle s n.closed_streams ≡ true
      → Listed (k, s) n.ended_loops
  pub stream_looped :
      (k : Bytes) (s : ℕ)
      → lookup k n.quic_application_streams ≡ some s
      → Listed (k, s) n.read_loops
  pub loop_owned :
      (k j : Bytes) (s : ℕ) → Listed (k, s) n.read_loops → Listed (j, s) n.read_loops → k ≡ j

-- a stream that the library has just made
pub record IsNewStream (s : ℕ) (n : Nodosum) : Type 0 where
  pub not_closed : has_handle s n.closed_streams ≡ false
  pub not_looped : (k : Bytes) → ¬ Listed (k, s) n.read_loops

module _ {n : Nodosum} (w : IsStreams n) where
  pub close_quic_stream-IsStreams : (key : Bytes) → IsStreams (close_quic_stream key n)
  unfolding close_quic_stream has_handle
  close_quic_stream-IsStreams key = elim (Option-cases (lookup key n.quic_application_streams)) [
    | inl o ↦ rw (o, close_quic_stream) w
    | inr (x, o) ↦
        rw (o, close_quic_stream)
          (record {
            stream_unclosed = λ k s h c.
                w.stream_unclosed k s (ground (arith, lookup-del key k n.quic_application_streams))
                  (ground (
                    arith,
                    lookup-del key k n.quic_application_streams,
                    w.loop_owned k key s,
                    w.stream_looped k s,
                    w.stream_looped key x o,
                  ));
            stream_looped = λ k s h.
                w.stream_looped k s (ground (arith, lookup-del key k n.quic_application_streams));
            loop_owned = w.loop_owned;
          })
  ]

  pub close_read_loop-IsStreams :
      (key : Bytes) (x : ℕ) → Listed (key, x) n.read_loops → IsStreams (close_read_loop key x n)
  unfolding close_read_loop has_handle
  close_read_loop-IsStreams key x l = record {
    stream_unclosed = λ k s h c. elim (ℕ_discrete s x) [
      | yes e ↦
          let ke : k ≡ key = w.loop_owned k key s (w.stream_looped k s h) (rw e l) in
          inl (rw (e, ke))
      | no e ↦ inr (w.stream_unclosed k s h (ground arith))
    ];
    stream_looped = w.stream_looped;
    loop_owned = w.loop_owned;
  }

  pub forget_stream-IsStreams : (key : Bytes) → IsStreams (forget_stream key n)
  unfolding forget_stream
  forget_stream-IsStreams key = record {
    stream_unclosed = λ k s h c.
        w.stream_unclosed k s (ground (arith, lookup-del key k n.quic_application_streams)) c;
    stream_looped =
        λ k s h. w.stream_looped k s (ground (arith, lookup-del key k n.quic_application_streams));
    loop_owned = w.loop_owned;
  }

  pub register_stream-IsStreams :
      (key : Bytes) (x : ℕ) → IsNewStream x n → IsStreams (register_stream key x n)
  unfolding register_stream
  register_stream-IsStreams key x new = record {
    stream_unclosed = λ k s h c.
        w.stream_unclosed k s
          (ground (arith, new.not_closed, lookup-put key k x n.quic_application_streams)) c;
    stream_looped = λ k s h. elim (Bytes-discrete key k) [
      | yes e ↦
          let xs : x ≡ s = ground (arith, lookup-put key k x n.quic_application_streams) in
          inl (rw (e, xs))
      | no e ↦
          inr (w.stream_looped k s (ground (arith, lookup-put key k x n.quic_application_streams)))
    ];
    loop_owned = λ k j s h i. elim h [
      | inl f ↦ elim i [
        | inl g ↦ ap (λ z. z.0) (f ∙ sym g)
        | inr g ↦ elim (new.not_looped j (rw (ap (λ z. z.1) f) at g)) [ ]
      ]
      | inr f ↦ elim i [
        | inl g ↦ elim (new.not_looped k (rw (ap (λ z. z.1) g) at f)) [ ]
        | inr g ↦ w.loop_owned k j s f g
      ]
    ];
  }

pub close_quic_streams-IsStreams :
    (ks : List Bytes) (n : Nodosum) → IsStreams n → IsStreams (close_quic_streams ks n)
unfolding close_quic_streams
close_quic_streams-IsStreams [] n w = w
close_quic_streams-IsStreams (k ∷ ks) n w =
    close_quic_streams-IsStreams ks (close_quic_stream k n) (close_quic_stream-IsStreams w k)
