-- ===== src/Cluster/Resync.antt =====
-- A full resync: what a primary ships, and the store that a replica makes of it.
use mathlib.Core.List.{map}
use kvstore.Prelude.{
  ℕ, suc, Bool, not, ◌&&◌, ◌^◌, ◌≤◌, ◌≡◌, refl, ap, sym, ◌∙◌, true, false, none, some, List, [],
  ◌∷◌, ◌++◌, All, arith, length, ltb, if◌then◌else◌,
}
use kvstore.Store.Operations
use kvstore.Store.Shard.{Shard, Key}
use kvstore.Store.Reference.{Data}
use kvstore.Store.Invariant.Sound.{IsSound}
use kvstore.Store.Invariant.Operations.{flush-IsSound}
use kvstore.Store.Refinement.{shows, visible, Agrees}
use kvstore.Store.Refinement.Background.{hidden_later}
use kvstore.Store.Range.{Copy, clone, batch_size, range}
use kvstore.Store.Range.Restored.{range-All, range-restore}
use kvstore.Store.Range.Restore.{restore, restore_step, nothing}
use kvstore.Wal.Record.{max_key_len, max_val_len}
use kvstore.Wal.Writer.{plus}
use kvstore.Engine.{Engine, apply_replicated}
use kvstore.Engine.Snapshot.{SnapIo, reset_keyspace}
use kvstore.Engine.Snapshot.Kept.{reset_kept}
use kvstore.Engine.Replicated.{Ready, apply-Ready}
use kvstore.Cluster.Node.{Node, alive, engine_of}
use kvstore.Cluster.Stream.RoundTrip.{Sent, a_record, full_begin, full_end, meaning}
use kvstore.Cluster.Replica.{
  Clock, next_readings, on_full_begin, on_full_end, on_record, handle, handle_all,
}
use kvstore.Cluster.Primary.{resync_record, full_resync}

-- The lengths that the log takes.
abbrev pub Short : Copy → Type 0
Short c = (length c.key ≤ max_key_len) × (length c.value ≤ max_val_len)

either {ℓ κ} :
    {A : Type ℓ} (P : A → Type κ) (b : Bool) (x y : A) → P x → P y → P (if b then x else y)
either P true x y h g = h
either P false x y h g = g

abbrev shipped : ℕ → List Copy → List Sent
shipped lsn cs = map (λ x. a_record (resync_record lsn x)) cs ++ (full_end lsn ∷ [])

module _ {ℓ} {X : Type ℓ} where
  -- A replica inside a full resync that has what a reference store has, and room for more keys.
  record IsFilled (t left : ℕ) (d : Data) (n : Node X) : Type ℓ where
    ready : Ready left (engine_of n)
    inside : n.in_full_sync ≡ true
    agrees : Agrees t (engine_of n).shard d

  on_record-IsFilled :
      (t : ℕ) (d : Data) (n : Node X) (lsn : ℕ) (x : Copy) (now mono : ℕ) {left : ℕ}
      → Short x
      → IsFilled t (suc left) d n
      → ((on_record n (resync_record lsn x) now mono).1 ≡ none)
        × IsFilled t left (restore_step d x) (on_record n (resync_record lsn x) now mono).0
  unfolding on_record resync_record
  on_record-IsFilled t d n lsn x now mono {left = left} h f =
      let r = resync_record lsn x in
      let (done, ready, same) = apply-Ready (engine_of n) r now mono refl h.0 h.1 f.ready in
      let after = (apply_replicated (engine_of n) r now mono).0 in
      let n1 : Node X = record n {
        saved = record (n.saved) { engine = after };
        applied = plus n.applied 1;
      } in
      rw (done, on_record)
        (
          refl,
          either (IsFilled t left (restore_step d x)) (not n.in_full_sync && ltb n.applied_lsn lsn)
              (record n1 { applied_lsn = lsn }) n1
              (record { ready = ready; inside = f.inside; agrees = same t d f.agrees })
              (record { ready = ready; inside = f.inside; agrees = same t d f.agrees }),
        )

  abbrev touched : Node X → Clock → Node X
  touched n c = record n { last_msg_at = c.at; peer = alive }

  touched-IsFilled :
      (t left : ℕ) (d : Data) (n : Node X) (c : Clock)
      → IsFilled t left d n
      → IsFilled t left d (touched n c)
  touched-IsFilled t left d n c f = record { ready = f.ready; inside = f.inside; agrees = f.agrees }

  -- The end of a resync to the number `lsn`.
  pub record IsResynced (t lsn : ℕ) (d : Data) (n : Node X) : Type ℓ where
    pub outside : n.in_full_sync ≡ false
    pub position : n.applied_lsn ≡ lsn
    pub agrees : Agrees t (engine_of n).shard d

  module _ (io : SnapIo X) (t lsn : ℕ) where
    rest_handled :
        (c : ℕ → Clock) (cs : List Copy) (d : Data) (n : Node X)
        → All Short cs
        → IsFilled t (length cs) d n
        → ((handle_all io n c (map meaning (shipped lsn cs))).1 ≡ none)
          × IsResynced t lsn (restore d cs) (handle_all io n c (map meaning (shipped lsn cs))).0
    unfolding handle_all handle on_full_end
    rest_handled c [] d n h f =
        (refl, record { outside = refl; position = refl; agrees = f.agrees })
    rest_handled c (x ∷ cs) d n h f =
        let first = c 0 in
        let (done, filled) =
          on_record-IsFilled t d (touched n first) lsn x first.now_ms first.now_mono h.0
            (touched-IsFilled t (suc (length cs)) d n first f) in
        rw (done, handle_all) (rest_handled (next_readings c) cs (restore_step d x) _ h.1 filled)

  -- A replica that can take a full resync.
  pub record IsOpen (n : Node X) : Type ℓ where
    pub unlimited : (engine_of n).shard.budget ≡ 0
    pub sampled : (engine_of n).shard.exact_lru ≡ false
    pub opened : (engine_of n).wal.closed ≡ false
    pub running : (engine_of n).wal.fatal ≡ none

  abbrev shard_of : Engine X → Shard
  shard_of e = e.shard

  begin-IsFilled :
      (io : SnapIo X) (n : Node X) (t left now : ℕ)
      → IsOpen n
      → left ≤ 2 ^ 31
      → (reset_keyspace io n.saved now).1 ≡ none
      → ((on_full_begin io n now).1 ≡ none) × IsFilled t left nothing (on_full_begin io n now).0
  unfolding on_full_begin Operations.flush
  begin-IsFilled io n t left now o fit ok =
      let emptied = reset_kept shard_of (λ e older. refl) io n.saved now in
      let opened = reset_kept (λ (e : Engine X). e.wal.closed) (λ e older. refl) io n.saved now in
      let running = reset_kept (λ (e : Engine X). e.wal.fatal) (λ e older. refl) io n.saved now in
      rw (ok, on_full_begin)
        (
          refl,
          record {
            ready = record {
              sound = rw emptied (flush-IsSound (engine_of n).shard);
              unlimited = rw emptied o.unlimited;
              sampled = rw emptied o.sampled;
              slots_room = rw emptied (omega arith);
              ttl_room = rw emptied (omega arith);
              opened = opened ∙ o.opened;
              running = running ∙ o.running;
            };
            inside = refl;
            agrees = rw emptied (λ k. refl);
          },
        )

  handled_begin :
      (io : SnapIo X) (n : Node X) (c : ℕ → Clock) (t lsn : ℕ) (cs : List Copy)
      → IsOpen n
      → length cs ≤ 2 ^ 31
      → All Short cs
      → (reset_keyspace io n.saved (c 0).now_ms).1 ≡ none
      → let r = handle_all io n c (map meaning (full_begin lsn ∷ shipped lsn cs)) in
        (r.1 ≡ none) × IsResynced t lsn (restore nothing cs) r.0
  unfolding handle_all handle
  handled_begin io n c t lsn cs o fit short ok =
      let first = c 0 in
      let (done, filled) =
        begin-IsFilled io (touched n first) t (length cs) first.now_ms
          (record {
            unlimited = o.unlimited;
            sampled = o.sampled;
            opened = o.opened;
            running = o.running;
          })
          fit ok in
      rw (done, handle_all) (rest_handled io t lsn (next_readings c) cs nothing _ short filled)

later_same :
    (s : Shard) (d : Data) (now : ℕ)
    → ((k : Key) → visible now (d k) ≡ visible now (shows s k))
    → (t : ℕ) → now ≤ t
    → (k : Key) → visible t (d k) ≡ visible t (shows s k)
later_same s d now h t le k =
    hidden_later now t (d k) le
    ∙ ap (λ o. visible t o) (h k)
    ∙ sym (hidden_later now t (shows s k) le)

module _ {ℓ κ} {X : Type ℓ} {Y : Type κ} (p : Engine Y) (v : IsSound p.shard) (now : ℕ) where
  -- Take a primary with a sound shard, whose keys and values have lengths that the log takes, of
  -- which at most 2^31 are listed, and a replica without a memory limit, with sampled eviction and
  -- an open log without a fatal error, that succeeds in its reset. The full resync that the primary
  -- ships at its time is handled by the replica, each message at any time of its clocks, without an error. The
  -- replica is then outside of the resync, at the primary's durable number; and at every time from
  -- the primary's on, each key shows in it the value and the deadline that it shows in the primary,
  -- whatever the replica held before.
  pub full_resync-mirrors :
      (io : SnapIo X) (n : Node X) (c : ℕ → Clock)
      → IsOpen n
      → ((r : ℕ) → p.shard.entries (p.shard.key r) ≡ some r → Short (clone p.shard r))
      → length (range batch_size p.shard now) ≤ 2 ^ 31
      → (reset_keyspace io n.saved (c 0).now_ms).1 ≡ none
      → let r = handle_all io n c (map meaning (full_resync p now)) in
        (r.1 ≡ none)
        × (r.0.in_full_sync ≡ false)
        × (r.0.applied_lsn ≡ p.wal.durable_lsn)
        × ((t : ℕ)
            → now ≤ t
            → (k : Key) → visible t (shows (engine_of r.0).shard k) ≡ visible t (shows p.shard k))
  unfolding full_resync
  full_resync-mirrors io n c o short fit ok =
      let cs = range batch_size p.shard now in
      let all_short = range-All p.shard v now batch_size Short short in
      let lsn = p.wal.durable_lsn in
      let at = λ (t : ℕ). handled_begin io n c t lsn cs o fit all_short ok in
      let same = range-restore p.shard v now batch_size (omega arith) in
      (
        (at now).0,
        (at now).1.outside,
        (at now).1.position,
        λ t le k. (at t).1.agrees k ∙ later_same p.shard (restore nothing cs) now same t le k,
      )
