-- ===== src/Engine/Restart.antt =====
-- The engine, its log and the replay together.

use kvstore.Prelude.{List}
use kvstore.Store.Shard.{Shard}
use kvstore.Wal.Record.{Record}
use kvstore.Wal.Writer.Run.{Run}
use kvstore.Engine.{Engine}
