-- ===== src/Net/Leave.antt =====
-- internal/nodosum/memberlist.go: what `NotifyLeave` leaves of a node.
use mathlib.Core.Logic.{if_pos, if_neg}
use mycorrhizal.Base.{
  ◌≡◌, ◌⊎◌, refl, sym, ◌∙◌, inl, inr, Listed, Option-cases, Bool-cases, true, false, none, some,
  List, [], ◌∷◌, ◌++◌, ite, arith, ap,
}
use mycorrhizal.Base.Bytes.{Bytes, Bytes-discrete}
use mycorrhizal.Base.Maps.{lookup, lookup-del, lookup-del_self}
use mycorrhizal.Net.{Nodosum, keys}
use mycorrhizal.Net.Streams.{has_prefix, close_quic_stream, close_quic_streams}
use mycorrhizal.Net.Conns.{keys_with_prefix, drop_conn, close_conn, close_quic_connection}
use mycorrhizal.Net.Delegate.{Member, forget_attempts, notify_leave}
use mycorrhizal.Net.Views.{drop_conn-stream_view}

lookup-close_quic_stream :
    (key k : Bytes) (n : Nodosum)
    → lookup k (close_quic_stream key n).quic_application_streams
      ≡ ite (Bytes-discrete key k) none (lookup k n.quic_application_streams)
unfolding close_quic_stream
lookup-close_quic_stream key k n = elim (Option-cases (lookup key n.quic_application_streams)) [
  | inl o ↦
      rw (o, close_quic_stream)
        (elim (Bytes-discrete key k) [
          | yes e ↦ rw (if_pos _ e, sym e) o
          | no e ↦ rw (if_neg _ e) refl
        ])
  | inr (x, o) ↦ rw (o, close_quic_stream) (lookup-del key k n.quic_application_streams)
]

-- a stream that is gone stays gone, and one of the list goes
close_quic_streams-gone :
    (ks : List Bytes) (k : Bytes) (n : Nodosum)
    → (lookup k n.quic_application_streams ≡ none) ⊎ Listed k ks
    → lookup k (close_quic_streams ks n).quic_application_streams ≡ none
unfolding close_quic_streams
close_quic_streams-gone [] k n (inl g) = g
close_quic_streams-gone [] k n (inr i) = elim i [ ]
close_quic_streams-gone (key ∷ ks) k n h =
    close_quic_streams-gone ks k (close_quic_stream key n) (elim h [
      | inl g ↦ inl (ground (arith, lookup-close_quic_stream key k n))
      | inr i ↦ elim i [
        | inl e ↦ inl (ground (arith, lookup-close_quic_stream key k n))
        | inr j ↦ inr j
      ]
    ])

Listed-keys :
    {V : Type 0} (k : Bytes) (v : V) (m : List (Bytes × V))
    → lookup k m ≡ some v
    → Listed k (keys m)
unfolding keys
Listed-keys k v [] h = absurd (ground arith)
Listed-keys k v ((j, x) ∷ m) h = elim (Bytes-discrete j k) [
  | yes e ↦ inl (sym e)
  | no e ↦ inr (Listed-keys k v m (ground arith))
]

Listed-keys_with_prefix :
    (p k : Bytes) (ks : List Bytes)
    → has_prefix p k ≡ true
    → Listed k ks
    → Listed k (keys_with_prefix p ks)
unfolding keys_with_prefix
Listed-keys_with_prefix p k [] h i = elim i [ ]
Listed-keys_with_prefix p k (j ∷ ks) h (inl e) =
    let h' : has_prefix p j ≡ true = rw e at h in rw h' (inl e)
Listed-keys_with_prefix p k (j ∷ ks) h (inr i) =
    let l = Listed-keys_with_prefix p k ks h i in
    elim (Bool-cases (has_prefix p j)) [ inl b ↦ rw b (inr l) | inr b ↦ rw b l ]

close_quic_streams-other :
    (p k : Bytes) (ks : List Bytes) (n : Nodosum)
    → has_prefix p k ≡ false
    → lookup k (close_quic_streams (keys_with_prefix p ks) n).quic_application_streams
      ≡ lookup k n.quic_application_streams
unfolding keys_with_prefix close_quic_streams
close_quic_streams-other p k [] n h = refl
close_quic_streams-other p k (j ∷ ks) n h = elim (Bool-cases (has_prefix p j)) [
  | inr b ↦ rw b (close_quic_streams-other p k ks n h)
  | inl b ↦ rw b (
      close_quic_streams-other p k ks (close_quic_stream j n) h
      ∙ ground (arith, lookup-close_quic_stream j k n))
]

lookup-drop_conn : (name : Bytes) (n : Nodosum) → lookup name (drop_conn name n).quic_conns ≡ none
unfolding drop_conn close_conn
lookup-drop_conn name n = elim (Option-cases (lookup name n.quic_conns)) [
  | inl o ↦ rw (o, drop_conn) o
  | inr (c, o) ↦ rw (o, drop_conn) (lookup-del_self name n.quic_conns)
]

-- the node has no connection, no failed dials and no stream whose key begins with its name; the other
-- streams are as before
pub record IsGone (name : Bytes) (n o : Nodosum) : Type 0 where
  pub no_conn : lookup name o.quic_conns ≡ none
  pub no_attempts : lookup name o.dial_attempts ≡ none
  pub no_stream :
      (k : Bytes)
      → has_prefix (name ++ b':' ∷ []) k ≡ true
      → lookup k o.quic_application_streams ≡ none
  pub other_stream :
      (k : Bytes)
      → has_prefix (name ++ b':' ∷ []) k ≡ false
      → lookup k o.quic_application_streams ≡ lookup k n.quic_application_streams

-- After `NotifyLeave` there is no connection to the node, no count of its failed dials, and no stream
-- under a key that begins with its name and a colon; every other stream is as before.
pub notify_leave-IsGone : (m : Member) (n : Nodosum) → IsGone m.name n (notify_leave m n).1
unfolding notify_leave close_quic_connection forget_attempts
notify_leave-IsGone m n =
    let p = m.name ++ b':' ∷ [] in
    let ks = keys n.quic_application_streams in
    let n' = close_quic_streams (keys_with_prefix p ks) n in
    let same = ap (λ v. v.0) (drop_conn-stream_view m.name n') in
    record {
      no_conn = lookup-drop_conn m.name n';
      no_attempts = lookup-del_self m.name _;
      no_stream = λ k h.
          ap (lookup k) same
          ∙ close_quic_streams-gone (keys_with_prefix p ks) k n
              (elim (Option-cases (lookup k n.quic_application_streams)) [
                | inl o ↦ inl o
                | inr (s, o) ↦ inr (
                    Listed-keys_with_prefix p k ks h (Listed-keys k s n.quic_application_streams o))
              ]);
      other_stream = λ k h. ap (lookup k) same ∙ close_quic_streams-other p k ks n h;
    }
