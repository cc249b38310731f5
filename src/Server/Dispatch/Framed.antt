-- ===== src/Server/Dispatch/Framed.antt =====
-- The response is one well-formed frame with the request's number, and which requests end the
-- connection.
use kvstore.Prelude.{
  ℕ, ◌^◌, ◌≤◌, ◌<◌, ◌≡◌, ◌≢◌, refl, Bool, true, false, not, Option, none, some, List, [], ◌++◌,
  arith, ltb, if◌then◌else◌, length, Bool-cases, Option-cases, inl, inr,
}
use kvstore.Protocol.Limits
use kvstore.Protocol.Limits.{max_frame_len, status_ok, unknown_opcode, value_too_long, key_too_long}
use kvstore.Protocol.Opcode.{
  Opcode, ping, set, delete, get, exists, expire, stats, ttl, flush, snapshot, keys, repl_conf,
  sync, repl_ack, promote, other, of_code,
}
use kvstore.Protocol.Command.{Command, decode_command}
use kvstore.Protocol.Frame.{Header, Frame, read_frame, effective}
use kvstore.Protocol.Frame.Stream.{grown, read_frame-write_frame}
use kvstore.Engine
use kvstore.Engine.Snapshot
use kvstore.Engine.Snapshot.{Saved}
use kvstore.Engine.Reads
use kvstore.Server.Texts
use kvstore.Server.Dispatch.{
  Server, Request, Reply, Failure, engine_error, commit_error, snap_error, decode_failed, found,
  existed, set_reply, mutation_error, or_error, run_set, run, answer, respond, execute, guard_key,
  is_empty, reply, reply_err, bad_request, status_internal,
}

-- The statuses of a command that was decoded.
abbrev Small : Reply → Type 0
Small r = r.status < 8

found-Small {ℓ} :
    {A : Type ℓ} (f : A → Reply) (o : Option A) → ((a : A) → Small (f a)) → Small (found f o)
found-Small f none h = omega arith
found-Small f (some a) h = h a

existed-Small : (b : Bool) → Small (existed b)
existed-Small true = omega arith
existed-Small false = omega arith

-- The errors of the decoder, but for an unknown opcode and a key or a value that is too long.
abbrev pub IsFraming : Limits.Error → Type 0
IsFraming e = (e ≢ unknown_opcode) × (e ≢ value_too_long) × (e ≢ key_too_long)

-- The decoding of the request's body fails, and with an error other than those three.
abbrev pub IsUnparsed : Frame → Type 0
IsUnparsed f =
    (e : Limits.Error) × ((decode_command (of_code f.header.code) f.body).1 ≡ some e) × IsFraming e

failed_small : (e : Limits.Error) (text : List ℕ) → (decode_failed e text).status < 256
unfolding decode_failed
failed_small unknown_opcode text = omega arith
failed_small value_too_long text = omega arith
failed_small key_too_long text = omega arith
failed_small e text = omega arith

module _ {ℓ} {X : Type ℓ} (v : Server X) where
  set-Small : (o : Option (Failure X)) → Small (set_reply v o)
  unfolding set_reply
  set-Small none = omega arith
  set-Small (some (engine_error Engine.err_oom)) = omega arith
  set-Small (some (engine_error Engine.err_read_only)) = omega arith
  set-Small (some (engine_error Engine.err_closed)) = omega arith
  set-Small (some (engine_error Engine.bad_type)) = omega arith
  set-Small (some (engine_error (Engine.wal_error x))) = omega arith
  set-Small (some (commit_error x)) = omega arith
  set-Small (some (snap_error x)) = omega arith

  mutation-Small : (x : Failure X) → Small (mutation_error v x)
  unfolding mutation_error
  mutation-Small (engine_error Engine.err_oom) = omega arith
  mutation-Small (engine_error Engine.err_read_only) = omega arith
  mutation-Small (engine_error Engine.err_closed) = omega arith
  mutation-Small (engine_error Engine.bad_type) = omega arith
  mutation-Small (engine_error (Engine.wal_error x)) = omega arith
  mutation-Small (commit_error x) = omega arith
  mutation-Small (snap_error Snapshot.read_only) = omega arith
  mutation-Small (snap_error (Snapshot.create_failed x)) = omega arith
  mutation-Small (snap_error (Snapshot.commit_failed x)) = omega arith
  mutation-Small (snap_error (Snapshot.add_failed x)) = omega arith

  or_error-Small : (o : Option (Failure X)) (r : Reply) → Small r → Small (or_error v o r)
  or_error-Small none r h = h
  or_error-Small (some x) r h = mutation-Small x

  guard-Small :
      (cmd : Command) (s : Saved X) (r : Saved X × Reply)
      → Small r.1
      → Small (guard_key v cmd s r).1
  guard-Small cmd s r h = elim (Bool-cases (is_empty cmd.key)) [
    | inl e ↦ rw e (omega arith)
    | inr e ↦ rw e h
  ]

  run_set-Small : (s : Saved X) (q : Request X) (cmd : Command) → Small (run_set v s q cmd).1
  run_set-Small s q cmd = elim (Bool-cases (ltb v.max_value_len (length cmd.value))) [
    | inl e ↦ rw e (omega arith)
    | inr e ↦ rw e (set-Small _)
  ]

  handler-Small :
      (s : Saved X)
      → let r : Saved X × Reply =
          (if not v.has_repl_handler
            then (s, bad_request Texts.not_enabled)
            else (s, reply_err status_internal Texts.reached_dispatcher)) in
        Small r.1
  handler-Small s = ground arith

  run-Small :
      (op : Opcode) (s : Saved X) (q : Request X) (cmd : Command) → Small (run v op s q cmd).1
  unfolding run
  run-Small ping s q cmd = omega arith
  run-Small get s q cmd =
      let reads = Reads.get s.engine cmd.key q.now_ms q.now_mono in
      guard-Small cmd s _ (found-Small _ reads.1 (λ a. omega arith))
  run-Small set s q cmd = guard-Small cmd s (run_set v s q cmd) (run_set-Small s q cmd)
  run-Small delete s q cmd = guard-Small cmd s _ (or_error-Small _ _ (existed-Small _))
  run-Small exists s q cmd =
      let reads = Reads.exists s.engine cmd.key q.now_ms q.now_mono in
      guard-Small cmd s (record s { engine = reads.0 }, reply status_ok _) (omega arith)
  run-Small expire s q cmd = guard-Small cmd s _ (or_error-Small _ _ (existed-Small _))
  run-Small ttl s q cmd =
      let reads = Reads.ttl s.engine cmd.key q.now_ms q.now_mono in
      guard-Small cmd s _ (found-Small _ reads.1 (λ a. omega arith))
  run-Small keys s q cmd = omega arith
  run-Small stats s q cmd = ground arith
  run-Small flush s q cmd = elim (Option-cases (Snapshot.flush q.disk s q.now_ms).1) [
    | inl e ↦ rw (e, run) (omega arith)
    | inr (x, e) ↦ rw (e, run) (mutation-Small (snap_error x))
  ]
  run-Small snapshot s q cmd = ground arith
  run-Small repl_conf s q cmd = handler-Small s
  run-Small sync s q cmd = handler-Small s
  run-Small repl_ack s q cmd = handler-Small s
  run-Small promote s q cmd = handler-Small s
  run-Small (other n) s q cmd = omega arith

  module _ (s : Saved X) (q : Request X) (f : Frame) where
    abbrev op_of : Opcode
    op_of = of_code f.header.code

    abbrev cmd_of : Command × Option Limits.Error
    cmd_of = decode_command op_of f.body

    answer_failed :
        (e : Limits.Error)
        → cmd_of.1 ≡ some e
        → answer v s q f ≡ (s, decode_failed e (v.decode_text e))
    unfolding answer
    answer_failed e h = rw (h, answer) refl

    pub answer-run : cmd_of.1 ≡ none → answer v s q f ≡ run v op_of s q cmd_of.0
    unfolding answer
    answer-run h = rw (h, answer) refl

    answer-Small : (answer v s q f).1.status < 256
    answer-Small = elim (Option-cases cmd_of.1) [
      | inl h ↦ rw (answer-run h) (let small = run-Small op_of s q cmd_of.0 in omega arith)
      | inr (e, h) ↦ rw (answer_failed e h) (failed_small e (v.decode_text e))
    ]

    abbrev pub header_of : Header
    header_of = record {
      version = Limits.version;
      code = (answer v s q f).1.status;
      flags = 0;
      reserved = 0;
      request_id = f.header.request_id;
      body_len = length (answer v s q f).1.body;
    }

    -- Any request whose number is in its field's range, and whose response's body is within the
    -- protocol's limit, is answered by one frame: a client that reads the stream gets that frame
    -- with the answer's status and body and the number of the request, and what follows on the
    -- stream is left as it was.
    pub read_frame-execute :
        (room : ℕ) (rest : List ℕ)
        → f.header.request_id < 2 ^ 32
        → length (answer v s q f).1.body ≤ max_frame_len
        → read_frame room 0 ((execute v s q f []).1 ++ rest) ≡ record {
          frame = record { header = header_of; body = (answer v s q f).1.body };
          cap = grown room (length (answer v s q f).1.body);
          error = none;
          stream = rest;
        }
    unfolding execute respond effective
    read_frame-execute room rest id fits =
        let small = answer-Small in
        read_frame-write_frame _ (answer v s q f).1.body
          (record {
            version_known = refl;
            code_fits = small;
            flags_known = omega arith;
            reserved_clear = refl;
            id_fits = id;
            body_fits = fits;
          })
          room 0 rest fits
