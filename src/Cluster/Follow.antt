-- ===== src/Cluster/Follow.antt =====
-- The replica's loop on the bytes of a sequence of messages.
use mathlib.Core.List.{map}
use kvstore.Prelude.{
  ℕ, zero, suc, ◌≤◌, ◌<◌, ◌≡◌, refl, subst, ◌∙◌, Option, none, some, List, [], ◌∷◌, ◌++◌, All,
  arith, length, length-append, Option-cases, inl, inr,
}
use kvstore.Protocol.Limits
use kvstore.Engine.Snapshot.{SnapIo}
use kvstore.Cluster.Node.{Node}
use kvstore.Cluster.Stream.{
  Read, read_msg, io, write_record, write_heartbeat, write_lsn_msg, write_reject,
}
use kvstore.Wal.Record.{append_record}
use kvstore.Cluster.Stream.RoundTrip.{
  Sent, a_record, heartbeat, full_begin, full_end, ack, reject, written, meaning, Fits, room_after,
  read_msg-written,
}
use kvstore.Cluster.Replica.{
  Clock, next_readings, LinkError, Handled, read_failed, handle, handle_all, follow,
}

-- The bytes of the messages, one after another.
abbrev pub stream : List Sent → List ℕ
stream [] = []
stream (m ∷ ms) = written m ++ stream ms

written_some : (m : Sent) → 0 < length (written m)
unfolding write_record write_heartbeat write_lsn_msg write_reject append_record
written_some (a_record r) = omega arith
written_some (heartbeat lsn epoch) = omega arith
written_some (full_begin lsn) = omega arith
written_some (full_end lsn) = omega arith
written_some (ack lsn) = omega arith
written_some (reject reason) = omega arith

stream_some : (ms : List Sent) → length ms ≤ length (stream ms)
stream_some [] = omega arith
stream_some (m ∷ ms) =
    omega (arith, length-append (written m) (stream ms), written_some m, stream_some ms)

-- The connection that ends behind the messages, unless one of them ended it before.
abbrev pub closed_after {ℓ} : {X : Type ℓ} → Handled X → Handled X
closed_after (n, some x) = (n, some x)
closed_after (n, none) = (n, some (read_failed (io Limits.eof)))

module _ {ℓ} {X : Type ℓ} (disk : SnapIo X) where
  -- One turn of the loop, on what was read.
  abbrev turn : (ℕ → Clock) → ℕ → Node X → Read → Option (LinkError X) → Handled X
  turn c fuel n r (some x) = ((handle disk n (c 0) r.msg).0, some x)
  turn c fuel n r none =
      follow fuel disk (handle disk n (c 0) r.msg).0 (next_readings c) r.cap r.stream

  follow-turn :
      (c : ℕ → Clock) (fuel : ℕ) (n : Node X) (room : ℕ) (src : List ℕ) (o : Option (LinkError X))
      → (read_msg room src).error ≡ none
      → (handle disk n (c 0) (read_msg room src).msg).1 ≡ o
      → follow (suc fuel) disk n c room src ≡ turn c fuel n (read_msg room src) o
  unfolding follow
  follow-turn c fuel n room src none f g = rw (f, g, follow) refl
  follow-turn c fuel n room src (some x) f g = rw (f, g, follow) refl

  follow_read :
      (c : ℕ → Clock) (fuel : ℕ) (n : Node X) (room : ℕ) (src : List ℕ) (r : Read)
      → read_msg room src ≡ r
      → r.error ≡ none
      → (o : Option (LinkError X)) → (handle disk n (c 0) r.msg).1 ≡ o
      → follow (suc fuel) disk n c room src ≡ turn c fuel n r o
  follow_read c fuel n room src r e =
      subst
        (λ q.
          q.error ≡ none
          → (o : Option (LinkError X)) → (handle disk n (c 0) q.msg).1 ≡ o
          → follow (suc fuel) disk n c room src ≡ turn c fuel n q o)
        e (λ f o g. follow-turn c fuel n room src o f g)

  follow-handle_all :
      (c : ℕ → Clock) (fuel : ℕ) (n : Node X) (room : ℕ) (ms : List Sent)
      → All Fits ms
      → length ms < fuel
      → follow fuel disk n c room (stream ms) ≡ closed_after (handle_all disk n c (map meaning ms))
  unfolding handle_all follow read_msg
  follow-handle_all c zero n room ms fit h = absurd (omega arith)
  follow-handle_all c (suc fuel) n room [] fit h = refl
  follow-handle_all c (suc fuel) n room (m ∷ ms) fit h =
      let read = read_msg-written room (stream ms) m fit.0 in
      let n1 = (handle disk n (c 0) (meaning m)).0 in
      elim (Option-cases (handle disk n (c 0) (meaning m)).1) [
        | inl e ↦
            follow_read c fuel n room (stream (m ∷ ms)) _ read refl none e
            ∙ follow-handle_all (next_readings c) fuel n1 (room_after room m) ms fit.1 (omega arith)
            ∙ rw (e, handle_all) refl
        | inr (x, e) ↦
            follow_read c fuel n room (stream (m ∷ ms)) _ read refl (some x) e
            ∙ rw (e, handle_all) refl
      ]

  -- A replica that reads the bytes of messages whose fields are in range does what the messages
  -- say, in order, to the first that ends the connection; if none does, the connection ends with
  -- an end of file. A turn for every byte and one more are enough.
  pub follow-stream :
      (c : ℕ → Clock) (n : Node X) (room : ℕ) (ms : List Sent)
      → All Fits ms
      → follow (suc (length (stream ms))) disk n c room (stream ms)
        ≡ closed_after (handle_all disk n c (map meaning ms))
  follow-stream c n room ms fit =
      follow-handle_all c (suc (length (stream ms))) n room ms fit (omega (arith, stream_some ms))
