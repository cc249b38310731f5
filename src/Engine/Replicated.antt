-- ===== src/Engine/Replicated.antt =====
-- ApplyReplicated of records that set keys, on a store without a memory limit.
use kvstore.Prelude.{
  ℕ, suc, ◌+◌, ◌^◌, ◌≤◌, ◌<◌, ◌≡◌, refl, ap, ◌∙◌, Bool, true, false, Option, none, List, [], ◌∷◌,
  arith, length,
}
use mathlib.Core.List.{foldl}
use kvstore.Store.Entry.{entry_cost}
use kvstore.Store.Shard.{Shard, Key, Reason}
use kvstore.Store.Operations
use kvstore.Store.Operations.{overwrite, insert, set_at}
use kvstore.Store.Invariant.Sound.{IsSound}
use kvstore.Store.Invariant.Write.{HasRoom}
use kvstore.Store.Invariant.Admission.{set-IsSound}
use kvstore.Store.Refinement.{shows, Agrees}
use kvstore.Store.Refinement.Writes.{set-set}
use kvstore.Store.Refinement.Growth.{size, set-Grown}
use kvstore.Wal.Record.{Record, rec_set, max_key_len, max_val_len, valid}
use kvstore.Wal.Writer.{Writer, submit}
use kvstore.Engine.{Engine, Error, on_store_evict, deliver, apply_record, apply_replicated}
use kvstore.Engine.Effects.{silent, deliver_shard}
use kvstore.Engine.Steps.{silent-IsSound}
use kvstore.Store.Reference
use kvstore.Store.Reference.{Data}

-- The engine can take `left` more keys from a primary.
pub record Ready {ℓ} {X : Type ℓ} (left : ℕ) (e : Engine X) : Type ℓ where
  pub sound : IsSound e.shard
  pub unlimited : e.shard.budget ≡ 0
  pub sampled : e.shard.exact_lru ≡ false
  pub slots_room : size e.shard.slots + left ≤ 2 ^ 31
  pub ttl_room : size e.shard.ttl_slots + left ≤ 2 ^ 31
  pub opened : e.wal.closed ≡ false
  pub running : e.wal.fatal ≡ none

module _ {ℓ} {X : Type ℓ} where
  deliver_all_wal :
      (es : List (Key × Reason)) (e : Engine X) → (foldl on_store_evict e es).wal ≡ e.wal
  unfolding on_store_evict
  deliver_all_wal [] e = refl
  deliver_all_wal (x ∷ es) e = deliver_all_wal es (on_store_evict e x) ∙ ground arith

  pub deliver_wal : (e : Engine X) (s : Shard) → (deliver e s).wal ≡ e.wal
  unfolding deliver
  deliver_wal e s = deliver_all_wal s.removed (record e { shard = record s { removed = [] } })

  -- The log takes a record that sets a key.
  submit_set :
      (w : Writer X) (r : Record) (now : ℕ)
      → r.rec_type ≡ rec_set
      → length r.key ≤ max_key_len
      → length r.value ≤ max_val_len
      → w.closed ≡ false
      → w.fatal ≡ none
      → ((submit w r now).1 ≡ none)
        × ((submit w r now).0.closed ≡ false)
        × ((submit w r now).0.fatal ≡ none)
  unfolding submit valid
  submit_set w r now t hk hv c f = ground arith

  apply_record-set :
      (s : Shard) (r : Record) (now mono : ℕ)
      → r.rec_type ≡ rec_set
      → (Operations.set s r.key r.value r.expire_at_ms mono).1 ≡ true
      → apply_record {X = X} s r now mono
        ≡ ((Operations.set s r.key r.value r.expire_at_ms mono).0, none)
  unfolding apply_record
  apply_record-set s r now mono t ok = ground arith

module _ {ℓ} {X : Type ℓ} (e : Engine X) (r : Record) (now mono : ℕ) where
  abbrev stored : Shard × Bool
  stored = Operations.set e.shard r.key r.value r.expire_at_ms mono

  -- A record that sets a key is applied as a Set, and the log takes it.
  record Applied : Type ℓ where
    pub done : (apply_replicated e r now mono).1 ≡ none
    pub shard : (apply_replicated e r now mono).0.shard ≡ silent stored.0
    pub opened : (apply_replicated e r now mono).0.wal.closed ≡ false
    pub running : (apply_replicated e r now mono).0.wal.fatal ≡ none

  apply_set :
      r.rec_type ≡ rec_set
      → length r.key ≤ max_key_len
      → length r.value ≤ max_val_len
      → {left : ℕ} → Ready (suc left) e
      → Applied
  unfolding apply_replicated
  apply_set t hk hv y =
      let ok =
        (set-set e.shard (shows e.shard) 0 y.sound (λ j. refl) r.key r.value r.expire_at_ms mono
          y.unlimited).0 in
      let applied = apply_record-set {X = X} e.shard r now mono t ok in
      let after = (apply_record {X = X} e.shard r now mono).0 in
      let no_error = ap (λ (a : Shard × Option (Error X)). a.1) applied in
      let same = deliver_wal e after in
      let (taken, opened, running) =
        submit_set (deliver e after).wal r now t hk hv (rw same y.opened) (rw same y.running) in
      record {
        done = rw (no_error, taken, apply_replicated) refl;
        shard =
            rw (no_error, taken, apply_replicated)
              (deliver_shard e after ∙ ap (λ (a : Shard × Option (Error X)). silent a.0) applied);
        opened = rw (no_error, taken, apply_replicated) opened;
        running = rw (no_error, taken, apply_replicated) running;
      }

  -- The engine is then ready for one key less, and has what a reference store has after a Set.
  pub apply-Ready :
      r.rec_type ≡ rec_set
      → length r.key ≤ max_key_len
      → length r.value ≤ max_val_len
      → {left : ℕ} → Ready (suc left) e
      → ((apply_replicated e r now mono).1 ≡ none)
        × Ready left (apply_replicated e r now mono).0
        × ((t : ℕ) (d : Data)
            → Agrees t e.shard d
            → Agrees t
                (apply_replicated e r now mono).0.shard
                (Reference.set d r.key r.value r.expire_at_ms))
  unfolding entry_cost
  apply-Ready t hk hv {left} y =
      let a = apply_set t hk hv y in
      let g = set-Grown e.shard r.key r.value r.expire_at_ms mono y.unlimited in
      let room : HasRoom e.shard = record {
        slots_fit = omega (arith, y.slots_room);
        ttl_fit = omega (arith, y.ttl_room);
      } in
      let small : entry_cost (length r.key) (length r.value) < 2 ^ 32 = omega arith in
      let sound =
        silent-IsSound stored.0
          (set-IsSound e.shard y.sound y.sampled room r.key r.value r.expire_at_ms mono small) in
      (
        a.done,
        record {
          sound = rw a.shard sound;
          unlimited = rw a.shard (g.budget ∙ y.unlimited);
          sampled = rw a.shard (g.mode ∙ y.sampled);
          slots_room = rw a.shard (omega (arith, g.slots, y.slots_room));
          ttl_room = rw a.shard (omega (arith, g.ttl, y.ttl_room));
          opened = a.opened;
          running = a.running;
        },
        λ t d h.
            rw a.shard
              ((set-set e.shard d t y.sound h r.key r.value r.expire_at_ms mono y.unlimited).1),
      )
