-- ===== src/Net/Locked.antt =====
-- internal/nodosum/conn.go: the streams' map after the end of a `streamReadLoop`, which does not release
-- the lock.
use mycorrhizal.Base.{◌≡◌, ◌∙◌, ap, true, arith, refl, ok, err}
use mycorrhizal.Base.Bytes.{Bytes}
use mycorrhizal.Base.Maps.{del}
use mycorrhizal.Net.{Nodosum}
use mycorrhizal.Net.Streams.{close_read_loop, forget_stream}
use mycorrhizal.Net.Delegate.{forget_attempts}
use mycorrhizal.Net.Steps.{
  Step, begins, dial_fails, dial_succeeds, accepts, unregisters, drops, forgets_attempts, registers,
  closes, loop_closes, loop_ends, writes, Reach, here, after,
}
use mycorrhizal.Net.Views.{
  stream_view, begin_join-stream_view, after_dial-stream_view, handle_quic_conn-stream_view,
  unregister_conn-stream_view, drop_conn-stream_view,
}

abbrev Locked : Nodosum → Nodosum → Type 0
Locked n o = (o.quic_application_streams ≡ n.quic_application_streams) × (o.streams_locked ≡ true)

stream_view-Locked :
    (n o : Nodosum) → stream_view o ≡ stream_view n → n.streams_locked ≡ true → Locked n o
stream_view-Locked n o e l = (ap (λ v. v.0) e, ap (λ v. v.4) e ∙ l)

Step-Locked : {n o : Nodosum} → Step n o → n.streams_locked ≡ true → Locked n o
unfolding close_read_loop forget_attempts
Step-Locked {n} {o} (begins resolve m) l =
    stream_view-Locked n o (begin_join-stream_view resolve m n) l
Step-Locked {n} {o} (dial_fails m e i) l =
    stream_view-Locked n o (after_dial-stream_view m (err e) n) l
Step-Locked {n} {o} (dial_succeeds m c i new) l =
    stream_view-Locked n o (after_dial-stream_view m (ok c) n) l
Step-Locked {n} {o} (accepts name c new) l =
    stream_view-Locked n o (handle_quic_conn-stream_view name c n) l
Step-Locked {n} {o} (unregisters name c) l =
    stream_view-Locked n o (unregister_conn-stream_view name c n) l
Step-Locked {n} {o} (drops name) l = stream_view-Locked n o (drop_conn-stream_view name n) l
Step-Locked {n} {o} (forgets_attempts name) l = stream_view-Locked n o refl l
Step-Locked (registers key s new free) l = absurd (ground arith)
Step-Locked (closes ks free) l = absurd (ground arith)
Step-Locked (loop_closes key s i) l = (refl, l)
Step-Locked (loop_ends key s i free) l = absurd (ground arith)
Step-Locked (writes s bytes) l = (refl, l)

Reach-Locked : {n o : Nodosum} → Reach n o → n.streams_locked ≡ true → Locked n o
Reach-Locked here l = (refl, l)
Reach-Locked (after r s) l =
    let (e, l') = Reach-Locked r l in let (f, k) = Step-Locked s l' in (f ∙ e, k)

-- Once one read loop has ended, no stream is registered or removed any more, whatever the node does:
-- the map of streams stays as the read loop left it.
pub Reach-forget_stream :
    (key : Bytes) (n : Nodosum) {o : Nodosum}
    → Reach (forget_stream key n) o
    → o.quic_application_streams ≡ del key n.quic_application_streams
unfolding forget_stream
Reach-forget_stream key n r = (Reach-Locked r refl).0
