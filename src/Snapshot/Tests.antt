-- ===== src/Snapshot/Tests.antt =====
-- The snapshot's theorems on a file of one entry.
use kvstore.Prelude.{ℕ, ◌≡◌, ◌≢◌, none, List, [], ◌∷◌, arith}
use kvstore.Wal.Scan.Segment.{visit}
use kvstore.Snapshot.{Entry, create, add_all, commit}
use kvstore.Snapshot.Load.{Loaded.loaded, Loaded.stuck, load}
use kvstore.Snapshot.Load.Body.{InRange}
use kvstore.Snapshot.Load.RoundTrip.{header_for, load-commit}
use kvstore.Snapshot.Load.Newest.{load_ends}

abbrev pair : Entry
pair = record { key = 0x6B ∷ []; value = 0x76 ∷ 0x77 ∷ []; expire_at_ms = 50 }

pair-InRange : InRange pair
pair-InRange = record {
  key_fits = omega arith;
  value_fits = omega arith;
  expire_fits = omega arith;
}

abbrev collect : List Entry → Entry → List Entry
collect seen e = e ∷ seen

load-commit_example :
    ((add_all (create 8 1000) (pair ∷ [])).1 ≡ none)
    × ((commit (add_all (create 8 1000) (pair ∷ [])).0).1 ≡ none)
    × (load (visit {E = ℕ} collect) (commit (add_all (create 8 1000) (pair ∷ [])).0).0.file []
        ≡ loaded (header_for 1000 8 1) (pair ∷ []))
load-commit_example =
    load-commit collect 1000 8 (omega arith) (omega arith) (pair ∷ []) (pair-InRange, tt)
      (omega arith) []

load_ends_example : load (visit {E = ℕ} collect) (1 ∷ 2 ∷ []) [] ≢ stuck
load_ends_example = load_ends (visit {E = ℕ} collect) (1 ∷ 2 ∷ []) []
