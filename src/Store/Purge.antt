-- ===== src/Store/Purge.antt =====
-- PurgeExpired of internal/store/expiry.go, on one shard.
use kvstore.Prelude.{ℕ, zero, suc, ◌+◌, Option, none, some, ltb, if◌then◌else◌, length, get_elem?}
use kvstore.Store.Entry.{is_expired}
use kvstore.Store.Shard.{Shard}
use kvstore.Store.Operations.{expel}

abbrev pub purge_batch : ℕ
purge_batch = 1024

abbrev more : Shard × ℕ → Shard × ℕ
more p = (p.0, p.1 + 1)

-- What one index does; `skip` and `next` go on with the indexes below.
unfoldable pub purge_at :
    Shard → ℕ → Option ℕ → (Shard → Shard × ℕ) → (Shard → Shard × ℕ) → Shard × ℕ
purge_at s now_ms none skip next = skip s
purge_at s now_ms (some r) skip next =
    if is_expired (s.expire_at r) now_ms then more (next (expel s r)) else skip s

-- The section under the lock: `j` indexes are left, and `room` removals in this batch.
unfoldable pub purge_pass : ℕ → ℕ → ℕ → Shard → Shard × ℕ
purge_pass now_ms zero room s = (s, 0)
purge_pass now_ms (suc j) zero s = (s, 0)
purge_pass now_ms (suc j) (suc room) s =
    purge_at s now_ms (get_elem? s.ttl_slots.items j) (purge_pass now_ms j (suc room))
      (purge_pass now_ms j room)

-- The passes over one shard, until one removes less than a batch; `none` is no Go value: the fuel
-- ran out. Each other pass removes an entry, so one more pass than entries is enough.
unfoldable pub purge_loop : ℕ → ℕ → Shard → Option (Shard × ℕ)
purge_loop now_ms zero s = none
purge_loop now_ms (suc fuel) s =
    let (s1, removed) = purge_pass now_ms (length s.ttl_slots.items) purge_batch s in
    let rest = purge_loop now_ms fuel s1 in
    if ltb removed purge_batch
    then some (s1, removed)
    else elim rest [ none ↦ none | some (s2, total) ↦ some (s2, removed + total) ]

unfoldable pub purge_expired : ℕ → Shard → Option (Shard × ℕ)
purge_expired now_ms s = purge_loop now_ms (suc (length s.ttl_slots.items)) s
