-- ===== src/Engine/Snapshot/Restored.antt =====
-- What a snapshot holds: the shard at its time, and the log's number from before.
use mathlib.Core.List.{foldl, map}
use kvstore.Prelude.{
  ℕ, suc, ◌^◌, ◌<◌, ◌≤◌, ◌≡◌, refl, ap, sym, subst, ◌∙◌, Bool, true, ◌&&◌, Option, none, some, List,
  [], ◌∷◌, All, arith, ltb, ◌==◌, length, Bool-cases, inl, inr,
}
use kvstore.Store.Entry.{entry_cost}
use kvstore.Store.Shard.{Shard, Key}
use kvstore.Store.Operations
use kvstore.Store.Refinement.Writes.{set-set}
use kvstore.Store.Refinement.Growth.{IsFillable, set-IsFillable}
use kvstore.Store.Reference.{Data}
use kvstore.Store.Invariant.Sound.{IsSound}
use kvstore.Store.Refinement.{shows, visible, Agrees}
use kvstore.Store.Range.{Copy, clone, batch_size, range}
use kvstore.Store.Range.Restored.{range-All, range-restore}
use kvstore.Store.Range.Restore.{restore, restore_step, nothing}
use kvstore.Wal.Scan.Segment.{visit}
use kvstore.Snapshot.{Entry, create, add_all, commit}
use kvstore.Snapshot.Load.{Header, loaded, load_newest_valid}
use kvstore.Snapshot.Load.Body.{InRange}
use kvstore.Snapshot.Load.Newest.{load_newest_valid_lem}
use kvstore.Snapshot.Load.RoundTrip.{header_for, load-commit}
use kvstore.Engine.Snapshot.{
  Saved, SnapIo, SnapFile, entry_of, put_file, prune, after_commit, commit_file, written, started,
  snapshot,
}

-- The callback of the engine's recovery is Store.Set, here on one shard at a time `mono`. The flag
-- says that no Set was refused so far; the callback fails at the first one that is.
abbrev pub load_step : ℕ → Shard × Bool → Entry → Shard × Bool
load_step mono (s, ok) e =
    let (t, taken) = Operations.set s e.key e.value e.expire_at_ms mono in (t, ok && taken)

-- No Set was refused, and the shard agrees with a reference store.
abbrev Loads : ℕ → Shard × Bool → Data → Type 0
Loads now r d = (r.1 ≡ true) × IsSound r.0 × Agrees now r.0 d

-- The same on the reference store, for the copies that a listing gives.
loaded_agrees :
    (mono now : ℕ) (cs : List Copy) (s : Shard) (d : Data)
    → All (λ c. InRange (entry_of c)) cs
    → IsFillable (length cs) s
    → Agrees now s d
    → Loads now (foldl (load_step mono) (s, true) (map entry_of cs)) (restore d cs)
unfolding entry_cost
loaded_agrees mono now [] s d h f a = (refl, f.sound, a)
loaded_agrees mono now (c ∷ cs) s d h f a =
    let (ok, b) = set-set s d now f.sound a c.key c.value c.expire_at mono f.unlimited in
    let key_fits = h.0.key_fits in
    let value_fits = h.0.value_fits in
    let more =
      set-IsFillable (length cs) s c.key c.value c.expire_at mono
        (omega (arith, key_fits, value_fits)) f in
    let t = (Operations.set s c.key c.value c.expire_at mono).0 in
    subst
      (λ taken.
        Loads now (foldl (load_step mono) (t, taken) (map entry_of cs))
          (restore (restore_step d c) cs))
      (sym ok) (loaded_agrees mono now cs t (restore_step d c) h.1 more b)

All-map : (cs : List Copy) → All (λ c. InRange (entry_of c)) cs → All InRange (map entry_of cs)
All-map [] h = tt
All-map (c ∷ cs) h = (h.0, All-map cs h.1)

length-map : (cs : List Copy) → length (map entry_of cs) ≡ length cs
length-map [] = refl
length-map (c ∷ cs) = ap suc (length-map cs)

-- A file whose number is not below the others' stands first.
put_file-front :
    (f : SnapFile) (fs : List SnapFile)
    → All (λ g. g.lsn ≤ f.lsn) fs
    → (rest : List SnapFile) × (put_file f fs ≡ f ∷ rest)
unfolding put_file
put_file-front f [] h = ([], refl)
put_file-front f (g ∷ gs) h = elim (Bool-cases (f.lsn == g.lsn)) [
  | inl e ↦ (gs, rw e refl)
  | inr e ↦ (
    g ∷ gs,
    (let l = h.0 in let below : ltb g.lsn f.lsn ≡ true = ground arith in rw (e, below) refl),
  )
]

module _ {ℓ} {X : Type ℓ} where
  prune-front :
      (remove : SnapFile → Option X) (f : SnapFile) (fs : List SnapFile)
      → (rest : List SnapFile) × (prune remove 2 (f ∷ fs) ≡ f ∷ rest)
  unfolding prune
  prune-front remove f [] = (_, refl)
  prune-front remove f (g ∷ gs) = (_, refl)

  abbrev pub lsn_of : Saved X → ℕ
  lsn_of s = s.engine.wal.durable_lsn

  abbrev pub listed : Saved X → ℕ → List Copy
  listed s now = range batch_size s.engine.shard now

  -- The file of a snapshot.
  abbrev file_of : SnapIo X → Saved X → ℕ → SnapFile
  file_of io s now = record {
    lsn = lsn_of s;
    bytes =
        (commit (add_all (create (lsn_of s) io.created_ms) (map entry_of (listed s now))).0).0.file;
  }

  snapshot_done :
      (io : SnapIo X) (s : Saved X) (now : ℕ)
      → io.create ≡ none
      → io.commit ≡ none
      → (add_all (create (lsn_of s) io.created_ms) (map entry_of (listed s now))).1 ≡ none
      → snapshot io s now ≡ (after_commit io s (lsn_of s) (file_of io s now), none)
  unfolding snapshot commit_file
  snapshot_done io s now c d e =
      ap (λ o. started io s now o) c
      ∙ ap (λ o. written io s (lsn_of s) (file_of io s now) o) e
      ∙ ap (λ o. commit_file io s (lsn_of s) (file_of io s now) o) d

  saved-front :
      (io : SnapIo X) (s : Saved X) (now : ℕ)
      → All (λ g. g.lsn ≤ lsn_of s) s.files
      → (rest : List SnapFile) × ((after_commit io s (lsn_of s) (file_of io s now)).files
          ≡ file_of io s now ∷ rest)
  unfolding after_commit
  saved-front io s now newest =
      let (older, e) = put_file-front (file_of io s now) s.files newest in
      let (rest, f) = prune-front io.remove_file (file_of io s now) older in (rest, rw e f)

  -- A snapshot of a sound shard that the file system does not fail, whose keys, values and
  -- deadlines are in the format's range, of at most 2^31 listed entries, and whose number is not
  -- below that of an older one, succeeds. The newest valid snapshot is then the new one: its header
  -- has the number that was durable before. A recovery that hands its entries to Set, on an empty
  -- sound shard without a memory limit and with sampled eviction, has no Set refused, and the shard
  -- is then sound and shows at the snapshot's time, for every key, what the snapshot's shard shows.
  pub snapshot-restored {κ} :
      {E : Type κ} (io : SnapIo X) (s : Saved X) (now : ℕ)
      → IsSound s.engine.shard
      → ((r : ℕ)
          → s.engine.shard.entries (s.engine.shard.key r) ≡ some r
          → InRange (entry_of (clone s.engine.shard r)))
      → length (listed s now) ≤ 2 ^ 31
      → io.created_ms < 2 ^ 64
      → lsn_of s < 2 ^ 64
      → All (λ g. g.lsn ≤ lsn_of s) s.files
      → io.create ≡ none
      → io.commit ≡ none
      → (q : Shard) (mono : ℕ) → IsFillable (2 ^ 31) q
      → ((k : Key) → shows q k ≡ none)
      → ((snapshot io s now).1 ≡ none)
        × ((h : Header) × (t : Shard) × (load_newest_valid
                (visit {E = E} (load_step mono))
                (map (λ f. f.bytes) (snapshot io s now).0.files)
                (q, true)
              ≡ loaded h (t, true))
            × (h.last_included_lsn ≡ lsn_of s)
            × IsSound t
            × ((k : Key) → visible now (shows t k) ≡ visible now (shows s.engine.shard k)))
  snapshot-restored {E = E} io s now v fit few hn hl newest c d q mono open_shard empty =
      let cs = listed s now in
      let sized : length (map entry_of cs) < 2 ^ 64 = rw (length-map cs) (omega (arith, few)) in
      let short = range-All s.engine.shard v now batch_size (λ e. InRange (entry_of e)) fit in
      let fill : IsFillable (length cs) q = record {
        sound = open_shard.sound;
        unlimited = open_shard.unlimited;
        sampled = open_shard.sampled;
        slots_room = omega (arith, few, open_shard.slots_room);
        ttl_room = omega (arith, few, open_shard.ttl_room);
      } in
      let (taken, sound, shown) =
        loaded_agrees mono now cs q nothing short fill (λ k. ap (λ o. visible now o) (empty k)) in
      let result = foldl (load_step mono) (q, true) (map entry_of cs) in
      let (added, closed, whole_file) =
        load-commit {E = E} (load_step mono) io.created_ms (lsn_of s) hn hl (map entry_of cs)
          (All-map cs short) sized (q, true) in
      let done = snapshot_done io s now c d added in
      let (rest, front) = saved-front io s now newest in
      let whole =
        load_newest_valid_lem (visit {E = E} (load_step mono)) [] tt (file_of io s now).bytes
          (map (λ f. f.bytes) rest) (q, true) _ _ whole_file in
      let header = header_for io.created_ms (lsn_of s) (length (map entry_of cs)) in
      (
        rw done refl,
        (
          header,
          result.0,
          rw (done, front) (whole ∙ ap (λ b. loaded header (result.0, b)) taken),
          refl,
          sound,
          λ k. shown k ∙ range-restore s.engine.shard v now batch_size (omega arith) k,
        ),
      )
