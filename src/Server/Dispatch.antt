-- ===== src/Server/Dispatch.antt =====
-- internal/server/dispatch.go: one request frame, run against the engine, and its response frame.
-- The texts of errors, the document of STATS and the path of a snapshot are made by packages that
-- are not modelled and are arguments; so is the error of the wait for a write's commit.
pub mod Framed
pub mod SetGet
use kvstore.Prelude.{
  ℕ, ◌-◌, ◌^◌, Bool, true, false, not, ◌||◌, Option, none, some, List, [], ◌∷◌, ltb, ◌==◌,
  if◌then◌else◌, length,
}
use kvstore.Protocol.Limits
use kvstore.Protocol.Limits.{
  unknown_opcode, value_too_long, key_too_long, status_ok, status_protocol_error,
}
use kvstore.Protocol.Opcode
use kvstore.Protocol.Opcode.{
  Opcode, ping, set, delete, get, exists, expire, stats, ttl, flush, snapshot, keys, repl_conf,
  sync, repl_ack, promote, other, of_code,
}
use kvstore.Protocol.Frame.{Header, Frame, write_frame}
use kvstore.Protocol.Command.{Command, decode_command}
use kvstore.Protocol.Bodies.{
  encode_value_body, encode_bool_body, encode_ttl_body, encode_keys_body, encode_error_body,
}
use kvstore.Store.Keyspace.{Ttl, never, left}
use kvstore.Engine
use kvstore.Engine.{Engine, err_closed, err_read_only, err_oom}
use kvstore.Engine.Reads
use kvstore.Engine.Snapshot
use kvstore.Engine.Snapshot.{Saved, SnapIo, SnapError, read_only}
use kvstore.Server.Texts

-- The statuses of internal/protocol/status.go that stand beside the two of Limits.
abbrev pub status_not_found : ℕ
status_not_found = 0x01

abbrev pub status_bad_request : ℕ
status_bad_request = 0x02

abbrev pub status_too_large : ℕ
status_too_large = 0x03

abbrev pub status_oom : ℕ
status_oom = 0x04

abbrev pub status_internal : ℕ
status_internal = 0x05

abbrev pub status_read_only : ℕ
status_read_only = 0x06

-- What a command's error may be: the engine's, or that of the commit it waited for.
pub data Failure {ℓ} (X : Type ℓ) : Type ℓ where
  engine_error : Engine.Error X → Failure X
  commit_error : X → Failure X
  snap_error : SnapError X → Failure X

pub data Json : Type 0 where
  json json_failed : List ℕ → Json

-- The server's settings, and what is made elsewhere.
pub record Server {ℓ} (X : Type ℓ) : Type ℓ where
  pub max_value_len : ℕ
  pub has_repl_handler : Bool
  pub decode_text : Limits.Error → List ℕ
  pub failure_text : Failure X → List ℕ
  pub stats_json : Saved X → Json
  pub snapshot_path : Saved X → List ℕ

-- The times of a request, the commit's error, and the file system's answers.
pub record Request {ℓ} (X : Type ℓ) : Type ℓ where
  pub now_ms : ℕ
  pub now_mono : ℕ
  pub wait : Option X
  pub disk : SnapIo X

-- A status and a body.
pub record Reply : Type 0 where
  pub status : ℕ
  pub body : List ℕ

abbrev pub reply : ℕ → List ℕ → Reply
reply status body = record { status = status; body = body }

abbrev pub reply_err : ℕ → List ℕ → Reply
reply_err status msg = reply status (encode_error_body [] msg)

abbrev pub done : Reply
done = reply status_ok []

abbrev pub not_found : Reply
not_found = reply status_not_found []

abbrev pub bad_request : List ℕ → Reply
bad_request msg = reply_err status_bad_request msg

abbrev pub is_empty : List ℕ → Bool
is_empty [] = true
is_empty (x ∷ xs) = false

-- The int64 of a TTL, as its bit pattern.
abbrev pub ttl_bits : Ttl → ℕ
ttl_bits never = 2 ^ 64 - 1
ttl_bits (left ms) = ms

-- A failed decoding.
unfoldable pub decode_failed : Limits.Error → List ℕ → Reply
decode_failed unknown_opcode text = bad_request Texts.unknown_opcode
decode_failed value_too_long text = reply_err status_too_large text
decode_failed key_too_long text = reply_err status_too_large text
decode_failed e text = reply_err status_protocol_error text

abbrev pub found {ℓ} : {A : Type ℓ} → (A → Reply) → Option A → Reply
found f none = not_found
found f (some a) = f a

abbrev pub existed : Bool → Reply
existed true = done
existed false = not_found

module _ {ℓ} {X : Type ℓ} (v : Server X) where
  -- The error of a write: the engine's first, then that of the commit.
  abbrev pub failure_of : Option (Engine.Error X) → Option X → Option (Failure X)
  failure_of (some x) wait = some (engine_error x)
  failure_of none (some x) = some (commit_error x)
  failure_of none none = none

  -- The switch on the error of Set.
  unfoldable pub set_reply : Option (Failure X) → Reply
  set_reply none = done
  set_reply (some (engine_error err_oom)) = reply_err status_oom Texts.memory_policy
  set_reply (some (engine_error err_read_only)) = reply_err status_read_only Texts.read_only_replica
  set_reply (some x) = reply_err status_internal (v.failure_text x)

  -- mutationError
  unfoldable pub mutation_error : Failure X → Reply
  mutation_error (engine_error err_read_only) = reply_err status_read_only Texts.read_only_replica
  mutation_error (snap_error read_only) = reply_err status_read_only Texts.read_only_replica
  mutation_error (engine_error err_oom) = reply_err status_oom Texts.memory_limit
  mutation_error (engine_error err_closed) = reply_err status_internal Texts.shutting_down
  mutation_error x = reply_err status_internal (v.failure_text x)

  abbrev pub or_error : Option (Failure X) → Reply → Reply
  or_error none r = r
  or_error (some x) r = mutation_error x

  abbrev with_engine : Saved X → Engine X → Saved X
  with_engine s e = record s { engine = e }

  abbrev pub guard_key : Command → Saved X → Saved X × Reply → Saved X × Reply
  guard_key cmd s r = if is_empty cmd.key then (s, bad_request Texts.empty_key) else r

  abbrev pub run_set : Saved X → Request X → Command → Saved X × Reply
  run_set s q cmd =
      if ltb v.max_value_len (length cmd.value)
      then (s, reply_err status_too_large Texts.value_exceeds)
      else let (e, failed) =
          Engine.set s.engine cmd.key cmd.value cmd.ttl_millis q.now_ms q.now_mono in
        (with_engine s e, set_reply (failure_of failed q.wait))

  abbrev pub run_snapshot : Saved X → Request X → Saved X × Reply
  run_snapshot s q =
      if s.engine.read_only
      then (s, reply_err status_read_only Texts.read_only_replica)
      else let (s1, failed) = Snapshot.snapshot q.disk s q.now_ms in
        elim failed [
          | some x ↦ (s1, reply_err status_internal (v.failure_text (snap_error x)))
          | none ↦ (s1, reply status_ok (encode_value_body [] (v.snapshot_path s1)))
        ]

  -- The switch of execute on a command that was decoded.
  unfoldable pub run : Opcode → Saved X → Request X → Command → Saved X × Reply
  run ping s q cmd = (s, done)
  run get s q cmd = guard_key cmd s (
      let (e, o) = Reads.get s.engine cmd.key q.now_ms q.now_mono in
      (with_engine s e, found (λ b. reply status_ok (encode_value_body [] b)) o))
  run set s q cmd = guard_key cmd s (run_set s q cmd)
  run delete s q cmd = guard_key cmd s (
      let (e, b, failed) = Engine.delete s.engine cmd.key q.now_ms in
      (with_engine s e, or_error (failure_of failed q.wait) (existed b)))
  run exists s q cmd = guard_key cmd s (
      let (e, b) = Reads.exists s.engine cmd.key q.now_ms q.now_mono in
      (with_engine s e, reply status_ok (encode_bool_body [] b)))
  run expire s q cmd = guard_key cmd s (
      let (e, b, failed) = Engine.expire s.engine cmd.key cmd.ttl_millis q.now_ms in
      (with_engine s e, or_error (failure_of failed q.wait) (existed b)))
  run ttl s q cmd = guard_key cmd s (
      let (e, o) = Reads.ttl s.engine cmd.key q.now_ms q.now_mono in
      (with_engine s e, found (λ t. reply status_ok (encode_ttl_body [] (ttl_bits t))) o))
  run keys s q cmd =
      let limit = (if (cmd.limit == 0) || ltb 10000 cmd.limit then 10000 else cmd.limit) in
      (s, reply status_ok (encode_keys_body [] (Reads.keys s.engine cmd.key limit q.now_ms)))
  run stats s q cmd = elim (v.stats_json s) [
    | json b ↦ (s, reply status_ok (encode_value_body [] b))
    | json_failed text ↦ (s, reply_err status_internal text)
  ]
  run flush s q cmd =
      let (s1, failed) = Snapshot.flush q.disk s q.now_ms in
      elim failed [ some x ↦ (s1, mutation_error (snap_error x)) | none ↦ (s1, done) ]
  run snapshot s q cmd = run_snapshot s q
  run (other n) s q cmd = (s, bad_request Texts.unknown_opcode)
  run op s q cmd =
      if not v.has_repl_handler
      then (s, bad_request Texts.not_enabled)
      else (s, reply_err status_internal Texts.reached_dispatcher)

  unfoldable pub answer : Saved X → Request X → Frame → Saved X × Reply
  answer s q f =
      let op = of_code f.header.code in
      let (cmd, failed) = decode_command op f.body in
      elim failed [ some x ↦ (s, decode_failed x (v.decode_text x)) | none ↦ run op s q cmd ]

  -- respond
  unfoldable pub respond : List ℕ → Frame → Reply → List ℕ
  respond dst f r =
      write_frame dst
        (record {
          version = Limits.version;
          code = r.status;
          flags = 0;
          reserved = 0;
          request_id = f.header.request_id;
          body_len = 0;
        })
        r.body

  -- execute
  unfoldable pub execute : Saved X → Request X → Frame → List ℕ → Saved X × List ℕ
  execute s q f dst = let (s1, r) = answer s q f in (s1, respond dst f r)
