-- ===== src/Store/Memory.antt =====
-- SetMemoryLimit and EvictToLimit of internal/store/memory.go on one of `n` shards. The low-water
-- mark comes from a floating-point ratio and is an argument.
use kvstore.Prelude.{ℕ, ◌/◌, ◌||◌, [], ltb, leb, ◌==◌, if◌then◌else◌}
use kvstore.Store.Shard.{Shard}
use kvstore.Store.Evict.{evict}

unfoldable pub set_limit : Shard → ℕ → ℕ → ℕ → Shard
set_limit s max_memory low_water n =
    let share = max_memory / n in
    if ltb 0 max_memory
    then record s { budget = if ltb share 1 then 1 else share; low_water = low_water / n }
    else record s { budget = 0; low_water = 0 }

-- The eviction protects the key "", as the source does.
unfoldable pub evict_to_limit : Shard → Shard × ℕ
evict_to_limit s =
    if (s.budget == 0) || leb s.mem_bytes s.budget then (s, 0) else evict s s.low_water []
