-- ===== src/Cluster/Primary.antt =====
-- internal/cluster/primary.go: what a primary sends to a replica that connects.
pub mod CatchUp
use mathlib.Core.List.{map}
use kvstore.Prelude.{
  ℕ, ◌+◌, ◌%◌, ◌^◌, Bool, true, false, ◌&&◌, ◌||◌, Option, none, some, List, [], ◌∷◌, ◌++◌, ltb,
  leb, ◌==◌, if◌then◌else◌,
}
use kvstore.Store.Range.{Copy, batch_size, range}
use kvstore.Wal.Record.{Record, rec_set}
use kvstore.Wal.Scan.{Visit, Scanned, scanned, aborted, stuck, is_none, scan_segment}
use kvstore.Engine.{Engine}
use kvstore.Cluster.Stream.RoundTrip.{Sent, a_record, full_begin, full_end}

-- An entry as the record that fullResync ships.
unfoldable pub resync_record : ℕ → Copy → Record
resync_record lsn c = record {
  lsn = lsn;
  created_at_ms = 0;
  rec_type = rec_set;
  flags = 0;
  key = c.key;
  value = c.value;
  expire_at_ms = c.expire_at;
}

-- fullResync, when no write fails: the number is the durable one, taken before the entries.
unfoldable pub full_resync {ℓ} : {X : Type ℓ} → Engine X → ℕ → List Sent
full_resync e now_ms =
    let lsn = e.wal.durable_lsn in
    full_begin lsn
    ∷ (map (λ c. a_record (resync_record lsn c)) (range batch_size e.shard now_ms)
        ++ (full_end lsn ∷ []))

abbrev is_empty {ℓ} : {A : Type ℓ} → List A → Bool
is_empty [] = true
is_empty (x ∷ xs) = false

-- A segment of the log's directory: the number in its name, and its bytes.
pub record LogFile : Type 0 where
  pub first_lsn : ℕ
  pub bytes : List ℕ

-- The callback of catchUp, when no write fails: what was sent before, and one more.
unfoldable pub ship {ℓ} : {E : Type ℓ} → ℕ → List Sent → Record → Visit (List Sent) E
ship from sent r = record {
  error = none;
  next = if leb r.lsn from then sent else sent ++ (a_record r ∷ []);
}

-- The loop of catchUp over the segments, which stops behind one with a fault; `none` stands for an
-- error of ScanSegment.
unfoldable pub ship_all : ℕ → List LogFile → List Sent → Option (List Sent)
ship_all from [] sent = some sent
ship_all from (f ∷ fs) sent = elim (scan_segment (ship {E = Unit {0}} from) f.bytes sent) [
  | aborted x res sent' ↦ none
  | stuck ↦ none
  | scanned res sent' ↦ if is_none res.fault then ship_all from fs sent' else some sent'
]

abbrev have_from : List LogFile → ℕ
have_from [] = 0
have_from (f ∷ fs) = f.first_lsn

-- `fromLSN == 0 || len(segs) == 0 || fromLSN+1 < haveFrom`
unfoldable pub need_full : List LogFile → ℕ → Bool
need_full segs from = (from == 0) || is_empty segs || ltb ((from + 1) % 2 ^ 64) (have_from segs)

-- catchUp: the messages that are written, in order.
unfoldable pub catch_up {ℓ} : {X : Type ℓ} → Engine X → List LogFile → ℕ → ℕ → Option (List Sent)
catch_up e segs from now_ms =
    if need_full segs from then some (full_resync e now_ms) else ship_all from segs []

-- The test of streamTo on a record of the feed, of which the replica has acknowledged `acked`.
unfoldable pub skips : ℕ → ℕ → Record → Bool
skips acked from r = leb r.lsn acked && leb r.lsn from
