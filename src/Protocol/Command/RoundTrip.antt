-- ===== src/Protocol/Command/RoundTrip.antt =====
-- The decoder reads back what the encoder wrote.
use kvstore.Prelude.{
  ℕ, ◌^◌, ◌≤◌, ◌<◌, ◌≡◌, refl, true, none, List, [], ◌++◌, append-nil, append_assoc, arith, length,
}
use kvstore.Prelude.Bytes.{le16, le32, le64, append_u16, append_u32, append_u64}
use kvstore.Protocol.Limits.{max_value_len, max_key_len}
use kvstore.Protocol.Opcode.{
  Opcode, ping, get, set, delete, exists, expire, stats, ttl, flush, snapshot, keys, repl_conf,
  sync, repl_ack, promote, other, valid,
}
use kvstore.Protocol.Cursor.{
  start, short_bytes, u16-le16, u32-le32, u64-le64, bytes-append, short_bytes-append, done,
}
use kvstore.Protocol.Command.{
  Command, blank, parsed, branch_key, branch_set, branch_set_value, branch_expire, branch_keys,
  branch_repl_conf, branch_lsn, finish, decode_command, encode_key, encode_by, encode_command,
}

-- The command with the fields that its opcode carries, and the others at their zero values.
unfoldable pub restrict : Opcode → Command → Command
restrict get cmd = record (blank get) { key = cmd.key }
restrict delete cmd = record (blank delete) { key = cmd.key }
restrict exists cmd = record (blank exists) { key = cmd.key }
restrict ttl cmd = record (blank ttl) { key = cmd.key }
restrict set cmd = record (blank set) {
  key = cmd.key;
  value = cmd.value;
  ttl_millis = cmd.ttl_millis;
}
restrict expire cmd = record (blank expire) { key = cmd.key; ttl_millis = cmd.ttl_millis }
restrict keys cmd = record (blank keys) { key = cmd.key; limit = cmd.limit }
restrict repl_conf cmd = record (blank repl_conf) {
  node_id = cmd.node_id;
  node_port = cmd.node_port;
}
restrict sync cmd = record (blank sync) { from_lsn = cmd.from_lsn }
restrict repl_ack cmd = record (blank repl_ack) { from_lsn = cmd.from_lsn }
restrict op cmd = blank op

-- Every field is in the range that its Go type or the protocol's limit gives it.
pub record InRange (cmd : Command) : Type 0 where
  pub key_fits : length cmd.key ≤ max_key_len
  pub value_fits : length cmd.value ≤ max_value_len
  pub ttl_fits : cmd.ttl_millis < 2 ^ 64
  pub limit_fits : cmd.limit < 2 ^ 32
  pub lsn_fits : cmd.from_lsn < 2 ^ 64
  pub id_fits : length cmd.node_id < 2 ^ 16
  pub port_fits : cmd.node_port < 2 ^ 16

short_bytes_end :
    (k : List ℕ) → length k < 2 ^ 16 → short_bytes (start (le16 (length k) ++ k)) ≡ (k, start [])
short_bytes_end k h = rw append-nil at (short_bytes-append k [] h)

finish_done :
    (cmd : Command) → length cmd.key ≤ max_key_len → finish (parsed cmd (start [])) ≡ (cmd, none)
unfolding finish done
finish_done cmd h = ground arith

module _ (cmd : Command) (r : InRange cmd) where
  key_round :
      (op : Opcode)
      → finish (branch_key (blank op) (start (encode_key [] cmd.key)))
        ≡ (record (blank op) { key = cmd.key }, none)
  unfolding branch_key encode_key append_u16
  key_round op = rw (short_bytes_end cmd.key (omega arith)) (finish_done _ r.key_fits)

  lsn_round :
      (op : Opcode)
      → finish (branch_lsn (blank op) (start (append_u64 [] cmd.from_lsn)))
        ≡ (record (blank op) { from_lsn = cmd.from_lsn }, none)
  unfolding branch_lsn append_u64
  lsn_round op = rw (u64-le64 cmd.from_lsn [] r.lsn_fits) (finish_done _ (omega arith))

  expire_round :
      finish (branch_expire (blank expire) (start (encode_by expire [] cmd)))
      ≡ (restrict expire cmd, none)
  unfolding branch_expire encode_by encode_key append_u16 append_u64 restrict
  expire_round =
      rw
        (
          short_bytes-append cmd.key (le64 cmd.ttl_millis) (omega arith),
          u64-le64 cmd.ttl_millis [] r.ttl_fits,
        )
        (finish_done _ r.key_fits)

  keys_round :
      finish (branch_keys (blank keys) (start (encode_by keys [] cmd))) ≡ (restrict keys cmd, none)
  unfolding branch_keys encode_by encode_key append_u16 append_u32 restrict
  keys_round =
      rw
        (
          short_bytes-append cmd.key (le32 cmd.limit) (omega arith),
          u32-le32 cmd.limit [] r.limit_fits,
        )
        (finish_done _ r.key_fits)

  repl_conf_round :
      finish (branch_repl_conf (blank repl_conf) (start (encode_by repl_conf [] cmd)))
      ≡ (restrict repl_conf cmd, none)
  unfolding branch_repl_conf encode_by encode_key append_u16 restrict
  repl_conf_round =
      rw
        (
          short_bytes-append cmd.node_id (le16 cmd.node_port) r.id_fits,
          u16-le16 cmd.node_port [] r.port_fits,
        )
        (finish_done _ (omega arith))

  set_layout :
      encode_by set [] cmd
      ≡ le16 (length cmd.key)
        ++ (cmd.key ++ (le32 (length cmd.value) ++ (cmd.value ++ le64 cmd.ttl_millis)))
  unfolding encode_by encode_key append_u16 append_u32 append_u64
  set_layout = simp append_assoc

  set_value_round :
      (c : Command)
      → length c.key ≤ max_key_len
      → finish (branch_set_value c (length cmd.value) (start (cmd.value ++ le64 cmd.ttl_millis)))
        ≡ (record c { value = cmd.value; ttl_millis = cmd.ttl_millis }, none)
  unfolding branch_set_value
  set_value_round c h =
      rw (bytes-append cmd.value (le64 cmd.ttl_millis), u64-le64 cmd.ttl_millis [] r.ttl_fits)
        (ground (
          arith,
          r.value_fits,
          finish_done (record c { value = cmd.value; ttl_millis = cmd.ttl_millis }) h,
        ))

  set_round :
      finish (branch_set (blank set) (start (encode_by set [] cmd))) ≡ (restrict set cmd, none)
  unfolding branch_set restrict
  set_round =
      rw
        (
          set_layout,
          short_bytes-append cmd.key (le32 (length cmd.value) ++ (cmd.value ++ le64 cmd.ttl_millis))
              (omega arith),
          u32-le32 (length cmd.value) (cmd.value ++ le64 cmd.ttl_millis)
              (omega (arith, r.value_fits)),
        )
        (set_value_round (record (blank set) { key = cmd.key }) r.key_fits)

  op_round :
      (op : Opcode)
      → valid op ≡ true
      → decode_command op (encode_by op [] cmd) ≡ (restrict op cmd, none)
  unfolding decode_command encode_by restrict valid done
  op_round ping v = refl
  op_round get v = key_round get
  op_round set v = set_round
  op_round delete v = key_round delete
  op_round exists v = key_round exists
  op_round expire v = expire_round
  op_round stats v = refl
  op_round ttl v = key_round ttl
  op_round flush v = refl
  op_round snapshot v = refl
  op_round keys v = keys_round
  op_round repl_conf v = repl_conf_round
  op_round sync v = lsn_round sync
  op_round repl_ack v = lsn_round repl_ack
  op_round promote v = refl
  op_round (other n) v = cc

-- For every known opcode, decoding an encoded command gives no error and the fields that the
-- opcode carries, whenever the command's fields are in range.
pub decode_command-encode_command :
    (cmd : Command)
    → valid cmd.op ≡ true
    → InRange cmd
    → decode_command cmd.op (encode_command [] cmd) ≡ (restrict cmd.op cmd, none)
unfolding encode_command
decode_command-encode_command cmd v r = op_round cmd r cmd.op v
