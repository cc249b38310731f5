-- ===== src/Wal/Writer/Crash.antt =====
-- What a crash leaves of the writer's directory. When the process is killed, the operating system
-- keeps what was written. When the power is lost, the last segment keeps what an fsync has brought to
-- the disk and any number of bytes more; the segments before it were fsynced by the rotation.
use mathlib.Core.List.{map}
use kvstore.Prelude.{ℕ, ◌+◌, List, [], ◌∷◌, ◌++◌, take}
use kvstore.Wal.Replay.{File}
use kvstore.Wal.Writer.{Segment, Writer}
use kvstore.Wal.Writer.Written.{listed}

pub data Crash : Type 0 where
  killed : Crash
  power_lost : ℕ → Crash

abbrev pub left_of : Crash → Segment → List ℕ
left_of killed seg = seg.bytes
left_of (power_lost more) seg = take (seg.synced + more) seg.bytes

abbrev pub directory {ℓ} : {X : Type ℓ} → Crash → Writer X → List File
directory c w = map listed w.older ++ (listed (record w.seg { bytes = left_of c w.seg }) ∷ [])
