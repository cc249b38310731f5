-- ===== src/Cluster/Position.antt =====
-- The number from which a replica asks its primary to go on.
use mathlib.Core.List.{map}
use kvstore.Prelude.{
  ℕ, ◌+◌, ◌%◌, ◌^◌, ◌<◌, ◌≡◌, ◌≢◌, ap, none, some, List, [], ◌∷◌, arith, length, Option-cases, inl,
  inr,
}
use kvstore.Wal.Record.{Record}
use kvstore.Wal.Writer.{Writer, plus, submit}
use kvstore.Engine.{Engine, deliver, apply_record, apply_replicated}
use kvstore.Engine.Replicated.{deliver_wal}
use kvstore.Engine.Snapshot.{SnapIo}
use kvstore.Cluster.Node.{Node, engine_of, last_lsn, connect}
use kvstore.Cluster.Stream.RoundTrip.{a_record, meaning}
use kvstore.Cluster.Replica.{Clock, next_readings, on_record, handle, handle_all}

some-ne-none {ℓ} : {A : Type ℓ} {a : A} → some a ≢ none
some-ne-none h = cc

module _ {ℓ} {X : Type ℓ} where
  abbrev next_of : Engine X → ℕ
  next_of e = e.wal.next_lsn

  submit_next :
      (w : Writer X) (r : Record) (now : ℕ)
      → (submit w r now).1 ≡ none
      → (submit w r now).0.next_lsn ≡ (w.next_lsn + 1) % 2 ^ 64
  unfolding submit
  submit_next w r now h = ground arith

  apply_next :
      (e : Engine X) (r : Record) (now mono : ℕ)
      → (apply_replicated e r now mono).1 ≡ none
      → next_of (apply_replicated e r now mono).0 ≡ (next_of e + 1) % 2 ^ 64
  unfolding apply_replicated
  apply_next e r now mono h =
      let after = (apply_record {X = X} e.shard r now mono).0 in
      let same = deliver_wal e after in
      let next = submit_next (deliver e after).wal r now in
      let same_next = ap (λ (w : Writer X). w.next_lsn) same in ground (arith, next, same_next)

  record_next :
      (n : Node X) (r : Record) (now mono : ℕ)
      → (on_record n r now mono).1 ≡ none
      → next_of (engine_of (on_record n r now mono).0) ≡ (next_of (engine_of n) + 1) % 2 ^ 64
  unfolding on_record
  record_next n r now mono h = let next = apply_next (engine_of n) r now mono in ground arith

  record_handled :
      (io : SnapIo X) (n : Node X) (c : Clock) (r : Record)
      → (handle io n c (meaning (a_record r))).1 ≡ none
      → next_of (engine_of (handle io n c (meaning (a_record r))).0)
        ≡ (next_of (engine_of n) + 1) % 2 ^ 64
  unfolding handle
  record_handled io n c r h = record_next _ r c.now_ms c.now_mono h

  records_handled :
      (io : SnapIo X) (n : Node X) (c : ℕ → Clock) (rs : List Record)
      → next_of (engine_of n) < 2 ^ 64
      → (handle_all io n c (map (λ r. meaning (a_record r)) rs)).1 ≡ none
      → next_of (engine_of (handle_all io n c (map (λ r. meaning (a_record r)) rs)).0)
        ≡ (next_of (engine_of n) + length rs) % 2 ^ 64
  unfolding handle_all
  records_handled io n c [] small h = omega arith
  records_handled io n c (r ∷ rs) small h =
      let n1 = (handle io n (c 0) (meaning (a_record r))).0 in
      elim (Option-cases (handle io n (c 0) (meaning (a_record r))).1) [
        | inr (x, e) ↦
            let bad : some x ≡ none = rw (e, handle_all) at h in absurd (some-ne-none bad)
        | inl e ↦
            let one = record_handled io n (c 0) r e in
            let h' : (handle_all io n1 (next_readings c) (map (λ r. meaning (a_record r)) rs)).1
                ≡ none =
              rw (e, handle_all) at h in
            let more = records_handled io n1 (next_readings c) rs (omega arith) h' in
            rw (e, handle_all) (omega (arith, one, more))
      ]

  -- The number from which a replica asks its primary to go on, at its next connection, is the last
  -- one of its own log: it has gone up by one for each record that was applied without an error,
  -- whatever numbers the primary had given to the records.
  pub connect-length :
      (io : SnapIo X) (n : Node X) (c : ℕ → Clock) (rs : List Record) (at : ℕ)
      → next_of (engine_of n) < 2 ^ 64
      → (handle_all io n c (map (λ r. meaning (a_record r)) rs)).1 ≡ none
      → (connect (handle_all io n c (map (λ r. meaning (a_record r)) rs)).0 at).1
        ≡ plus (last_lsn (engine_of n)) (length rs)
  unfolding connect last_lsn
  connect-length io n c rs at small h = omega (arith, records_handled io n c rs small h)
