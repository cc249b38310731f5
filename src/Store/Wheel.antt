-- ===== src/Store/Wheel.antt =====
-- internal/store/wheel.go: the timing wheel, and its expirer on one shard. Ticks are below 2^64 - 1.
pub mod Firing
use mathlib.Core.List.{foldl}
use kvstore.Prelude.{
  ℕ, zero, suc, ◌+◌, ◌-◌, ◌*◌, ◌/◌, ◌%◌, ◌^◌, Bool, true, false, not, ◌&&◌, Option, none, some,
  List, [], ◌∷◌, ◌++◌, ltb, leb, ◌==◌, if◌then◌else◌, length,
}
use kvstore.Store.Entry.{is_expired}
use kvstore.Store.Shard.{Shard, Key}
use kvstore.Store.Operations.{expel}

abbrev pub wheel_slot_bits : ℕ
wheel_slot_bits = 8

abbrev pub wheel_slot_count : ℕ
wheel_slot_count = 2 ^ 8

abbrev pub wheel_levels : ℕ
wheel_levels = 5

pub record Timer : Type 0 where
  pub key : Key
  pub expire_at : ℕ

-- `levels` gives the bucket of a level and a slot.
pub record Wheel : Type 0 where
  pub tick_ms : ℕ
  pub epoch_ms : ℕ
  pub now_tick : ℕ
  pub levels : ℕ → ℕ → List Timer
  pub pending : ℕ
  pub overflow : List Timer

-- The tick is given in milliseconds.
unfoldable pub new_wheel : ℕ → ℕ → Wheel
new_wheel tick epoch_ms = record {
  tick_ms = if tick == 0 then 1 else tick;
  epoch_ms = epoch_ms;
  now_tick = 0;
  levels = λ _ _. [];
  pending = 0;
  overflow = [];
}

unfoldable pub tick_for : Wheel → ℕ → ℕ
tick_for w ms = if leb ms w.epoch_ms then 0 else (ms - w.epoch_ms) / w.tick_ms

-- A write to one bucket.
unfoldable pub put : Wheel → ℕ → ℕ → List Timer → Wheel
put w level slot bucket = record w {
  levels = λ l i. if (l == level) && (i == slot) then bucket else w.levels l i;
}

-- The loop over the levels, of which `left` are left.
unfoldable pub add_level : ℕ → ℕ → Wheel → Timer → ℕ → Wheel
add_level zero level w t target = record w { overflow = w.overflow ++ (t ∷ []) }
add_level (suc left) level w t target =
    let slot = (target / 2 ^ (level * wheel_slot_bits)) % wheel_slot_count in
    let higher = add_level left (level + 1) w t target in
    if ltb (target - w.now_tick) (2 ^ ((level + 1) * wheel_slot_bits))
    then put w level slot (w.levels level slot ++ (t ∷ []))
    else higher

-- addLocked: what is already due goes to the next tick.
unfoldable pub add_locked : Wheel → Timer → Wheel
add_locked w t =
    let target = tick_for w t.expire_at in
    add_level wheel_levels 0 w t (if leb target w.now_tick then w.now_tick + 1 else target)

unfoldable pub add : Wheel → Key → ℕ → Wheel
add w k expire_at =
    let w1 = add_locked w (record { key = k; expire_at = expire_at }) in
    record w1 { pending = w1.pending + 1 }

-- The buckets of the higher levels that have come due, from the lowest one on.
unfoldable pub cascade : ℕ → ℕ → Wheel → Wheel
cascade zero level w = w
cascade (suc left) level w =
    let slot = (w.now_tick / 2 ^ (level * wheel_slot_bits)) % wheel_slot_count in
    let rest =
      cascade left (level + 1) (foldl add_locked (put w level slot []) (w.levels level slot)) in
    if w.now_tick % 2 ^ (level * wheel_slot_bits) == 0 then rest else w

-- One turn of Advance's loop, with the timers that came due.
unfoldable pub turn : Wheel → Wheel × List Timer
turn w =
    let w1 = cascade (wheel_levels - 1) 1 (record w { now_tick = w.now_tick + 1 }) in
    let slot = w1.now_tick % wheel_slot_count in (put w1 0 slot [], w1.levels 0 slot)

unfoldable pub turns : ℕ → Wheel → List Timer → Wheel × List Timer
turns zero w due = (w, due)
turns (suc n) w due = let (w1, bucket) = turn w in turns n w1 (due ++ bucket)

-- The sweep of the overflow list. A timer within reach has a bucket, so `add_locked` does not
-- append to the list here.
unfoldable pub sweep_overflow : List Timer → List Timer → Wheel → Wheel
sweep_overflow [] keep w = record w { overflow = keep }
sweep_overflow (t ∷ ts) keep w =
    elim (ltb (tick_for w t.expire_at) (w.now_tick + 2 ^ (wheel_levels * wheel_slot_bits))) [
      | true ↦ sweep_overflow ts keep (add_locked w t)
      | false ↦ sweep_overflow ts (keep ++ (t ∷ [])) w
    ]

-- `pending` never falls below 0: each timer that comes due was counted.
unfoldable pub advance : Wheel → ℕ → Wheel × List Timer
advance w now_ms =
    let (w1, due) = turns (tick_for w now_ms - w.now_tick) w [] in
    let w2 = sweep_overflow w1.overflow [] w1 in
    (record w2 { pending = w2.pending - length due }, due)

-- One timer of RunOnce: the entry goes if it still has the timer's deadline and has expired.
unfoldable pub fire_at : Shard → Option ℕ → Timer → ℕ → Shard × Bool
fire_at s none t now_ms = (s, false)
fire_at s (some r) t now_ms =
    if not (s.expire_at r == t.expire_at)
    then (s, false)
    else if not (is_expired (s.expire_at r) now_ms)
    then (s, false)
    else (expel s r, true)

unfoldable pub fire_all : Shard → List Timer → ℕ → Shard × ℕ
fire_all s [] now_ms = (s, 0)
fire_all s (t ∷ ts) now_ms =
    let (s1, removed) = fire_at s (s.entries t.key) t now_ms in
    let (s2, n) = fire_all s1 ts now_ms in (s2, if removed then n + 1 else n)

-- The wheel and the shard after RunOnce, and its answer.
unfoldable pub run_once : Wheel → Shard → ℕ → Wheel × Shard × ℕ
run_once w s now_ms =
    let (w1, due) = advance w now_ms in let (s1, n) = fire_all s due now_ms in (w1, s1, n)
