-- ===== src/Protocol/Command/Canonical.antt =====
-- Every body that the decoder accepts is the encoding of what it returns.
use kvstore.Prelude.{
  ℕ, ◌≤◌, ◌≡◌, refl, ap, sym, ◌∙◌, none, List, [], ◌++◌, append-nil, append_assoc, arith, All,
  length, Bool-cases, inl, inr, ltb,
}
use kvstore.Prelude.Bytes.{IsByte, le64, append_u16, append_u32, append_u64}
use kvstore.Protocol.Limits.{Error, max_value_len, max_key_len}
use kvstore.Protocol.Opcode.{
  Opcode, ping, get, set, delete, exists, expire, stats, ttl, flush, snapshot, keys, repl_conf,
  sync, repl_ack, promote, other,
}
use kvstore.Protocol.Cursor.{Cursor, start, u32, short_bytes, done}
use kvstore.Protocol.Cursor.Reads.{
  Consumed, u16_clean, u32_clean, u64_clean, bytes_clean, u16-Consumed, u32-Consumed, u64-Consumed,
  bytes-Consumed, short_bytes-Consumed,
}
use kvstore.Protocol.Command.{
  Command, blank, parsed, refused, branch_key, branch_set, branch_set_value, branch_expire,
  branch_keys, branch_repl_conf, branch_lsn, finish, decode_command, encode_key, encode_by,
  encode_command,
}

-- An accepted branch has used up its body.
record Finished (cmd : Command) (c : Cursor) (out : Command) : Type 0 where
  same : cmd ≡ out
  clean : c.error ≡ none
  empty : c.rest ≡ []
  short : length cmd.key ≤ max_key_len

finish_parsed :
    (cmd out : Command) (c : Cursor) → finish (parsed cmd c) ≡ (out, none) → Finished cmd c out
unfolding finish done
finish_parsed cmd out c p = record {
  same = ground arith;
  clean = ground arith;
  empty = ground arith;
  short = ground arith;
}

last : {c c' : Cursor} {text : List ℕ} → Consumed c text c' → c'.rest ≡ [] → text ≡ c.rest
last a e = sym (a.split ∙ rw (e, append-nil))

before :
    {c c' : Cursor} {text tail : List ℕ}
    → Consumed c text c'
    → tail ≡ c'.rest
    → text ++ tail ≡ c.rest
before a e = sym (a.split ∙ rw e)

-- The command is accepted with its opcode, and its encoding is the body.
abbrev IsEncoded : Opcode → List ℕ → Command → Type 0
IsEncoded op body cmd = (cmd.op ≡ op) × (encode_by op [] cmd ≡ body)

refused_not : (cmd out : Command) (e : Error) → finish (refused cmd e) ≡ (out, none) → ⊥
unfolding finish
refused_not cmd out e p = ground arith

module _ (body : List ℕ) (h : All IsByte body) (out : Command) where
  key_encoded :
      (op : Opcode)
      → finish (branch_key (blank op) (start body)) ≡ (out, none)
      → (out.op ≡ op) × (encode_key [] out.key ≡ body)
  unfolding branch_key encode_key append_u16
  key_encoded op p =
      let f = finish_parsed _ out _ p in
      let a = short_bytes-Consumed (start body) h f.clean in rw (← f.same) (refl, last a f.empty)

  lsn_encoded :
      (op : Opcode)
      → finish (branch_lsn (blank op) (start body)) ≡ (out, none)
      → (out.op ≡ op) × (append_u64 [] out.from_lsn ≡ body)
  unfolding branch_lsn append_u64
  lsn_encoded op p =
      let f = finish_parsed _ out _ p in
      let a = u64-Consumed (start body) h f.clean in rw (← f.same) (refl, last a f.empty)

  expire-IsEncoded :
      finish (branch_expire (blank expire) (start body)) ≡ (out, none) → IsEncoded expire body out
  unfolding branch_expire encode_by encode_key append_u16 append_u64
  expire-IsEncoded p =
      let f = finish_parsed _ out _ p in
      let a = short_bytes-Consumed (start body) h (u64_clean _ f.clean) in
      let b = u64-Consumed _ a.octets f.clean in rw (← f.same) (refl, before a (last b f.empty))

  keys-IsEncoded :
      finish (branch_keys (blank keys) (start body)) ≡ (out, none) → IsEncoded keys body out
  unfolding branch_keys encode_by encode_key append_u16 append_u32
  keys-IsEncoded p =
      let f = finish_parsed _ out _ p in
      let a = short_bytes-Consumed (start body) h (u32_clean _ f.clean) in
      let b = u32-Consumed _ a.octets f.clean in rw (← f.same) (refl, before a (last b f.empty))

  repl_conf-IsEncoded :
      finish (branch_repl_conf (blank repl_conf) (start body)) ≡ (out, none)
      → IsEncoded repl_conf body out
  unfolding branch_repl_conf encode_by encode_key append_u16
  repl_conf-IsEncoded p =
      let f = finish_parsed _ out _ p in
      let a = short_bytes-Consumed (start body) h (u16_clean _ f.clean) in
      let b = u16-Consumed _ a.octets f.clean in rw (← f.same) (refl, before a (last b f.empty))

  set_value_encoded :
      (cmd : Command) (n : ℕ) (c : Cursor)
      → (c.error ≡ none → All IsByte c.rest)
      → finish (branch_set_value cmd n c) ≡ (out, none)
      → (out.op ≡ cmd.op)
        × (out.key ≡ cmd.key)
        × (length out.value ≡ n)
        × (c.error ≡ none)
        × (out.value ++ le64 out.ttl_millis ≡ c.rest)
  unfolding branch_set_value
  set_value_encoded cmd n c hc p = elim (Bool-cases (ltb max_value_len n)) [
    | inl long ↦ absurd (refused_not _ _ _ (rw long at p))
    | inr fits ↦
        let f = finish_parsed _ out _ (rw fits at p) in
        let e = bytes_clean c n (u64_clean _ f.clean) in
        let (a, l) = bytes-Consumed c (hc e) n (u64_clean _ f.clean) in
        let b = u64-Consumed _ a.octets f.clean in
        rw (← f.same) (refl, refl, l, e, before a (last b f.empty))
  ]

  set-IsEncoded :
      finish (branch_set (blank set) (start body)) ≡ (out, none) → IsEncoded set body out
  unfolding branch_set encode_by encode_key append_u16 append_u32 append_u64
  set-IsEncoded p =
      let k = short_bytes (start body) in
      let n = u32 k.1 in
      let octets = λ (e : n.1.error ≡ none).
        (u32-Consumed k.1 (short_bytes-Consumed (start body) h (u32_clean _ e)).octets e).octets in
      let v = set_value_encoded (record (blank set) { key = k.0 }) n.0 n.1 octets p in
      let a = short_bytes-Consumed (start body) h (u32_clean _ v.3) in
      let b = u32-Consumed k.1 a.octets v.3 in
      (v.0, rw (v.1, v.2) (simp append_assoc (before a (before b v.4))))

  empty_encoded :
      (op : Opcode)
      → finish (parsed (blank op) (start body)) ≡ (out, none)
      → (out.op ≡ op) × ([] ≡ body)
  empty_encoded op p = let f = finish_parsed _ out _ p in rw (← f.same) (refl, sym f.empty)

  op-IsEncoded : (op : Opcode) → decode_command op body ≡ (out, none) → IsEncoded op body out
  unfolding decode_command encode_by finish
  op-IsEncoded ping p = empty_encoded ping p
  op-IsEncoded get p = key_encoded get p
  op-IsEncoded set p = set-IsEncoded p
  op-IsEncoded delete p = key_encoded delete p
  op-IsEncoded exists p = key_encoded exists p
  op-IsEncoded expire p = expire-IsEncoded p
  op-IsEncoded stats p = empty_encoded stats p
  op-IsEncoded ttl p = key_encoded ttl p
  op-IsEncoded flush p = empty_encoded flush p
  op-IsEncoded snapshot p = empty_encoded snapshot p
  op-IsEncoded keys p = keys-IsEncoded p
  op-IsEncoded repl_conf p = repl_conf-IsEncoded p
  op-IsEncoded sync p = lsn_encoded sync p
  op-IsEncoded repl_ack p = lsn_encoded repl_ack p
  op-IsEncoded promote p = empty_encoded promote p
  op-IsEncoded (other n) p = absurd (refused_not _ _ _ p)

-- A byte body that is accepted without error decodes to a command of that opcode whose encoding
-- is the body, byte for byte.
pub encode_command-decode_command :
    (op : Opcode) (body : List ℕ) (cmd : Command)
    → All IsByte body
    → decode_command op body ≡ (cmd, none)
    → (cmd.op ≡ op) × (encode_command [] cmd ≡ body)
unfolding encode_command
encode_command-decode_command op body cmd h p =
    let (same, text) = op-IsEncoded body h cmd op p in
    (same, ap (λ o. encode_by o [] cmd) same ∙ text)
