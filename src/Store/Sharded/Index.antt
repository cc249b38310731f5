-- ===== src/Store/Sharded/Index.antt =====
-- shardFor of internal/store/store.go never indexes outside of the slice of shards.
use Prim.Native.Nat.{min, digits, bit_and, bit_and-bitwise}
use kvstore.Prelude.{
  ℕ, zero, suc, ◌-◌, ◌/◌, ◌%◌, ◌<◌, ◌≤◌, subst, sym, arith, ◌==◌, Bool-cases, inl, inr,
}
use kvstore.Store.Shard.{Key}
use kvstore.Store.Hash.{hash64}
use kvstore.Store.Sharded.{Options, new_store, route, shard_for}

min_le : (a b : ℕ) → min a b ≤ b
min_le a b = ground arith

digits_le : (n a b : ℕ) → digits (λ b. zero) min n a b ≤ b
digits_le zero a b = omega arith
digits_le (suc n) zero b = omega arith
digits_le (suc n) (suc a) b =
    let more = digits_le n (suc a / 2) (b / 2) in
    let last = min_le (suc a % 2) (b % 2) in omega (arith, more, last)

bit_and_le : (a b : ℕ) → bit_and a b ≤ b
bit_and_le a b = subst (λ x. x ≤ b) (sym (λ i. bit_and-bitwise a b i)) (digits_le a a b)

pub shard_for-lt : (o : Options) (k : Key) → 0 < o.shards → shard_for (new_store o) k < o.shards
unfolding new_store route
shard_for-lt o k h = elim (Bool-cases (o.shards == 1)) [
  | inl e ↦ rw e h
  | inr e ↦
      let in_mask = bit_and_le (hash64 o.seed k) (o.shards - 1) in rw e (omega (arith, in_mask))
]
