-- ===== src/Store/Sharded/Traffic.antt =====
-- The sharded store of internal/store/store.go and the reference store, under the same operations.
use kvstore.Prelude.{ℕ, ◌+◌, ◌*◌, ◌^◌, ◌<◌, ◌≤◌, ◌≡◌, refl, ap, sym, ◌∙◌, false, none, List, length}
use kvstore.Store.Entry.{entry_cost}
use kvstore.Store.Random.{word}
use kvstore.Store.Shard.{Key, new_shard}
use kvstore.Store.Operations
use kvstore.Store.Reference
use kvstore.Store.Reference.{RefEntry, Data, live, value_in, ttl_in, set_deadline}
use kvstore.Store.Refinement.{shows, visible}
use kvstore.Store.Refinement.Background.{hidden_later}
use kvstore.Store.Invariant.Write.{HasRoom}
use kvstore.Store.Invariant.Operations.{new_shard-IsSound, flush-IsSound}
use kvstore.Store.Sharded.{
  Store, Options, shard_for, with_budget, new_store, get, set, delete, exists, expire, ttl, flush,
}
use kvstore.Store.Sharded.Index.{shard_for-lt}
use kvstore.Store.Sharded.Local.{Holds}
use kvstore.Store.Sharded.Steps.{
  get_same, get-Holds, exists_same, exists-Holds, ttl_same, ttl-Holds, set-Holds, delete_same,
  delete-Holds, expire_same, expire-Holds,
}

-- The two stores after the same operations, at times that do not run backwards.
pub data Traffic : ℕ → Store → Data → Type 0 where
  opens :
      (o : Options) (now : ℕ)
      → 0 < o.shards
      → o.max_memory ≡ 0
      → Traffic now (new_store o) (λ _. none)
  waits :
      {now : ℕ} {s : Store} {d : Data} (later : ℕ)
      → now ≤ later
      → Traffic now s d
      → Traffic later s d
  gets :
      {now : ℕ} {s : Store} {d : Data} (k : Key) (now_mono : ℕ)
      → Traffic now s d
      → Traffic now (get s k now now_mono).0 (Reference.get d k now).0
  asks :
      {now : ℕ} {s : Store} {d : Data} (k : Key) (now_mono : ℕ)
      → Traffic now s d
      → Traffic now (exists s k now now_mono).0 (Reference.exists d k now).0
  times :
      {now : ℕ} {s : Store} {d : Data} (k : Key) (now_mono : ℕ)
      → Traffic now s d
      → Traffic now (ttl s k now now_mono).0 (Reference.ttl d k now).0
  sets :
      {now : ℕ} {s : Store} {d : Data} (k : Key) (value : List ℕ) (x now_mono : ℕ)
      → (s.shards (shard_for s k)).budget ≡ 0
      → (s.shards (shard_for s k)).exact_lru ≡ false
      → HasRoom (s.shards (shard_for s k))
      → entry_cost (length k) (length value) < 2 ^ 32
      → Traffic now s d
      → Traffic now (set s k value x now_mono).0 (Reference.set d k value x)
  deletes :
      {now : ℕ} {s : Store} {d : Data} (k : Key)
      → Traffic now s d
      → Traffic now (delete s k now).0 (Reference.delete d k now).0
  expires :
      {now : ℕ} {s : Store} {d : Data} (k : Key) (x : ℕ)
      → HasRoom (s.shards (shard_for s k))
      → Traffic now s d
      → Traffic now (expire s k x now).0 (Reference.expire d k x now).0
  flushes : {now : ℕ} {s : Store} {d : Data} → Traffic now s d → Traffic now (flush s) (λ _. none)

opened :
    (o : Options) (now : ℕ) → 0 < o.shards → o.max_memory ≡ 0 → Holds now (new_store o) (λ _. none)
unfolding new_store with_budget new_shard
opened o now some_shard e = record {
  in_range = λ k. shard_for-lt o k some_shard;
  sound = λ i. rw e (
      new_shard-IsSound o.sample_k o.evict_batch (word (o.seed + i * 0x9E3779B97F4A7C15))
        o.exact_lru o.policy);
  agrees = λ k. rw e refl;
}

flushed : (now : ℕ) (s : Store) (d : Data) → Holds now s d → Holds now (flush s) (λ _. none)
unfolding flush Operations.flush
flushed now s d h = record {
  in_range = h.in_range;
  sound = λ i. flush-IsSound (s.shards i);
  agrees = λ k. refl;
}

abbrev later_held :
    (now later : ℕ) (s : Store) (d : Data) → now ≤ later → Holds now s d → Holds later s d
later_held now later s d le h = record {
  in_range = h.in_range;
  sound = h.sound;
  agrees = λ k.
      hidden_later now later (shows (s.shards (shard_for s k)) k) le
      ∙ ap (λ o. visible later o) (h.agrees k)
      ∙ sym (hidden_later now later (d k) le);
}

held : (now : ℕ) (s : Store) (d : Data) → Traffic now s d → Holds now s d
held now _ _ (opens o _ h e) = opened o now h e
held _ s d (waits {now} later le t) = later_held now later s d le (held now s d t)
held now _ _ (gets {s} {d} k now_mono t) = get-Holds now s d (held now s d t) k now_mono
held now _ _ (asks {s} {d} k now_mono t) = exists-Holds now s d (held now s d t) k now_mono
held now _ _ (times {s} {d} k now_mono t) = ttl-Holds now s d (held now s d t) k now_mono
held now _ _ (sets {s} {d} k value x now_mono b mode room small t) =
    set-Holds now s d (held now s d t) k now_mono value x b mode room small
held now _ _ (deletes {s} {d} k t) = delete-Holds now s d (held now s d t) k
held now _ _ (expires {s} {d} k x room t) = expire-Holds now s d (held now s d t) k x room
held now _ _ (flushes {s} {d} t) = flushed now s d (held now s d t)

-- After any traffic, which is a sequence of Get, Exists, TTL, Set, Delete, Expire and Flush on a
-- new store of one shard or more, and on an empty reference store, at times that do not run
-- backwards, the shard that a key is routed to is one of the slice, every shard is sound, each key
-- shows in its own shard what it shows in the reference store, and every next Get, Exists, TTL, Delete and Expire is answered as by the reference store.
-- The store has no memory limit, a write and a new deadline find room in the slices of their
-- shard, a write finds it with sampled eviction, and its cost fits 32 bits.
pub Traffic-Holds :
    (now : ℕ) (s : Store) (d : Data)
    → Traffic now s d
    → Holds now s d
      × ((k : Key) (now_mono : ℕ) → (get s k now now_mono).1 ≡ (Reference.get d k now).1)
      × ((k : Key) (now_mono : ℕ) → (exists s k now now_mono).1 ≡ (Reference.exists d k now).1)
      × ((k : Key) (now_mono : ℕ) → (ttl s k now now_mono).1 ≡ (Reference.ttl d k now).1)
      × ((k : Key) → (delete s k now).1 ≡ (Reference.delete d k now).1)
      × ((k : Key) (x : ℕ) → (expire s k x now).1 ≡ (Reference.expire d k x now).1)
Traffic-Holds now s d t =
    let h = held now s d t in
    (
      h,
      λ k now_mono. get_same now s d h k now_mono,
      λ k now_mono. exists_same now s d h k now_mono,
      λ k now_mono. ttl_same now s d h k now_mono,
      λ k. delete_same now s d h k,
      λ k x. expire_same now s d h k x,
    )
