-- ===== src/Protocol/Command.antt =====
-- Request bodies: the decoder and the encoder of internal/protocol/command.go.
pub mod RoundTrip
pub mod Canonical
use kvstore.Prelude.{ℕ, Option, none, some, List, [], ◌++◌, arith, ltb, if◌then◌else◌, length}
use kvstore.Prelude.Bytes.{append_u16, append_u32, append_u64}
use kvstore.Protocol.Limits.{
  Error, value_too_long, key_too_long, unknown_opcode, max_value_len, max_key_len,
}
use kvstore.Protocol.Opcode.{
  Opcode, ping, get, set, delete, exists, expire, stats, ttl, flush, snapshot, keys, repl_conf,
  sync, repl_ack, promote, other,
}
use kvstore.Protocol.Cursor.{Cursor, start, u16, u32, u64, bytes, short_bytes, done}

pub record Command : Type 0 where
  pub op : Opcode
  pub key : List ℕ
  pub value : List ℕ
  pub ttl_millis : ℕ
  pub limit : ℕ
  pub from_lsn : ℕ
  pub node_id : List ℕ
  pub node_port : ℕ

-- Command{Op: op}
abbrev pub blank : Opcode → Command
blank op = record {
  op = op;
  key = [];
  value = [];
  ttl_millis = 0;
  limit = 0;
  from_lsn = 0;
  node_id = [];
  node_port = 0;
}

-- A branch of the switch ends in an error of its own, or in a command and the cursor for `done`.
pub data Branch : Type 0 where
  refused : Command → Error → Branch
  parsed : Command → Cursor → Branch

unfoldable pub branch_key : Command → Cursor → Branch
branch_key cmd c = let (k, c1) = short_bytes c in parsed (record cmd { key = k }) c1

unfoldable pub branch_set_value : Command → ℕ → Cursor → Branch
branch_set_value cmd vlen c =
    if ltb max_value_len vlen
    then refused cmd value_too_long
    else let (v, c1) = bytes vlen c in
      let (t, c2) = u64 c1 in parsed (record cmd { value = v; ttl_millis = t }) c2

unfoldable pub branch_set : Command → Cursor → Branch
branch_set cmd c =
    let (k, c1) = short_bytes c in
    let (vlen, c2) = u32 c1 in branch_set_value (record cmd { key = k }) vlen c2

unfoldable pub branch_expire : Command → Cursor → Branch
branch_expire cmd c =
    let (k, c1) = short_bytes c in
    let (t, c2) = u64 c1 in parsed (record cmd { key = k; ttl_millis = t }) c2

unfoldable pub branch_keys : Command → Cursor → Branch
branch_keys cmd c =
    let (k, c1) = short_bytes c in
    let (n, c2) = u32 c1 in parsed (record cmd { key = k; limit = n }) c2

unfoldable pub branch_repl_conf : Command → Cursor → Branch
branch_repl_conf cmd c =
    let (n, c1) = short_bytes c in
    let (p, c2) = u16 c1 in parsed (record cmd { node_id = n; node_port = p }) c2

unfoldable pub branch_lsn : Command → Cursor → Branch
branch_lsn cmd c = let (l, c1) = u64 c in parsed (record cmd { from_lsn = l }) c1

-- The switch of DecodeCommand.
unfoldable pub branch : Opcode → Command → Cursor → Branch
branch ping cmd c = parsed cmd c
branch stats cmd c = parsed cmd c
branch flush cmd c = parsed cmd c
branch snapshot cmd c = parsed cmd c
branch get cmd c = branch_key cmd c
branch delete cmd c = branch_key cmd c
branch exists cmd c = branch_key cmd c
branch ttl cmd c = branch_key cmd c
branch set cmd c = branch_set cmd c
branch expire cmd c = branch_expire cmd c
branch keys cmd c = branch_keys cmd c
branch repl_conf cmd c = branch_repl_conf cmd c
branch sync cmd c = branch_lsn cmd c
branch repl_ack cmd c = branch_lsn cmd c
branch promote cmd c = parsed cmd c
branch (other n) cmd c = refused cmd unknown_opcode

-- What follows the switch: the body is used up, and the key is not too long.
unfoldable pub finish : Branch → Command × Option Error
finish (refused cmd e) = (cmd, some e)
finish (parsed cmd c) = elim (done c) [
  | some e ↦ (cmd, some e)
  | none ↦ if ltb max_key_len (length cmd.key) then (cmd, some key_too_long) else (cmd, none)
]

unfoldable pub decode_command : Opcode → List ℕ → Command × Option Error
unfolding branch finish
decode_command op body = finish (branch op (blank op) (start body))

unfoldable pub encode_key : List ℕ → List ℕ → List ℕ
encode_key dst k = append_u16 dst (length k) ++ k

unfoldable pub encode_by : Opcode → List ℕ → Command → List ℕ
encode_by get dst cmd = encode_key dst cmd.key
encode_by delete dst cmd = encode_key dst cmd.key
encode_by exists dst cmd = encode_key dst cmd.key
encode_by ttl dst cmd = encode_key dst cmd.key
encode_by set dst cmd =
    append_u64 (append_u32 (encode_key dst cmd.key) (length cmd.value) ++ cmd.value) cmd.ttl_millis
encode_by expire dst cmd = append_u64 (encode_key dst cmd.key) cmd.ttl_millis
encode_by keys dst cmd = append_u32 (encode_key dst cmd.key) cmd.limit
encode_by repl_conf dst cmd = append_u16 (encode_key dst cmd.node_id) cmd.node_port
encode_by sync dst cmd = append_u64 dst cmd.from_lsn
encode_by repl_ack dst cmd = append_u64 dst cmd.from_lsn
encode_by op dst cmd = dst

-- The truncating conversions `uint16(len(cmd.Key))` and `uint32(len(cmd.Value))` are those of the
-- appenders, which write the low bytes.
unfoldable pub encode_command : List ℕ → Command → List ℕ
encode_command dst cmd = encode_by cmd.op dst cmd
