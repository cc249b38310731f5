-- ===== src/Server/Dispatch/SetGet.antt =====
-- A GET after a SET, through the frames.
use kvstore.Prelude.{
  ℕ, ◌^◌, ◌<◌, ◌≡◌, refl, ap, ◌∙◌, true, false, Option, none, some, List, [], arith, ltb, length,
  Bool-cases, inl, inr, key_eq_refl,
}
use kvstore.Protocol.Limits
use kvstore.Protocol.Limits.{status_ok}
use kvstore.Protocol.Opcode.{get, set, code, of_code, valid, of_code-code}
use kvstore.Protocol.Frame.{Frame}
use kvstore.Protocol.Command.{Command, blank, decode_command, encode_command}
use kvstore.Protocol.Command.RoundTrip.{InRange, restrict, decode_command-encode_command}
use kvstore.Protocol.Bodies.{encode_value_body}
use kvstore.Store.Entry.{entry_cost, is_expired}
use kvstore.Store.Shard.{Shard, Key}
use kvstore.Store.Operations
use kvstore.Store.Keyspace.{lookup}
use kvstore.Store.Reference
use kvstore.Store.Reference.{Data, live_at}
use kvstore.Store.Invariant.Sound.{IsSound}
use kvstore.Store.Invariant.Admission.{set-IsSound}
use kvstore.Store.Refinement.{shows}
use kvstore.Store.Refinement.Answers.{lookup-get}
use kvstore.Store.Refinement.Writes.{set-set}
use kvstore.Engine
use kvstore.Engine.{Engine, deadline}
use kvstore.Engine.Effects.{silent, set_shard}
use kvstore.Engine.Steps.{IsRoomy, silent-IsSound}
use kvstore.Engine.Reads
use kvstore.Engine.Snapshot.{Saved}
use kvstore.Server.Dispatch.Framed.{answer-run}
use kvstore.Server.Dispatch.{
  Server, Request, Reply, Failure, engine_error, commit_error, snap_error, set_reply, failure_of,
  is_empty, status_too_large, reply, found, run_set, run, answer,
}

-- The frame in which a client sends a command.
abbrev pub request_frame : Command → ℕ → Frame
request_frame cmd id = record {
  header = record {
    version = Limits.version;
    code = code cmd.op;
    flags = 0;
    reserved = 0;
    request_id = id;
    body_len = length (encode_command [] cmd);
  };
  body = encode_command [] cmd;
}

abbrev pub set_command : Key → List ℕ → ℕ → Command
set_command k value ttl = record (blank set) { key = k; value = value; ttl_millis = ttl }

abbrev pub get_command : Key → Command
get_command k = record (blank get) { key = k }

failure_none {ℓ} :
    {X : Type ℓ} (v : Server X) (o : Option (Engine.Error X)) (w : Option X)
    → failure_of v o w ≡ none
    → o ≡ none
failure_none v (some x) w h = cc
failure_none v none w h = refl

set_reply_ok {ℓ} :
    {X : Type ℓ} (v : Server X) (o : Option (Failure X))
    → (set_reply v o).status ≡ status_ok
    → o ≡ none
unfolding set_reply
set_reply_ok v none h = refl
set_reply_ok v (some (engine_error Engine.err_oom)) h = absurd (omega arith)
set_reply_ok v (some (engine_error Engine.err_read_only)) h = absurd (omega arith)
set_reply_ok v (some (engine_error Engine.err_closed)) h = absurd (omega arith)
set_reply_ok v (some (engine_error Engine.bad_type)) h = absurd (omega arith)
set_reply_ok v (some (engine_error (Engine.wal_error x))) h = absurd (omega arith)
set_reply_ok v (some (commit_error x)) h = absurd (omega arith)
set_reply_ok v (some (snap_error x)) h = absurd (omega arith)

-- Get of a key that the reference store has set, before its deadline.
get-set :
    (d : Data) (k : Key) (value : List ℕ) (x now : ℕ)
    → is_expired x now ≡ false
    → (Reference.get (Reference.set d k value x) k now).1 ≡ some value
unfolding Reference.get Reference.set Reference.live live_at
get-set d k value x now h = rw (key_eq_refl k) (rw h refl)

module _ (s : Shard) (v : IsSound s) (r : IsRoomy s) (k : Key) (value : List ℕ) (x mono : ℕ)
    (small : entry_cost (length k) (length value) < 2 ^ 32) where
  lookup-set :
      (now now_mono : ℕ)
      → is_expired x now ≡ false
      → (lookup (silent (Operations.set s k value x mono).0) k now now_mono).1 ≡ some value
  lookup-set now now_mono h =
      let t = silent (Operations.set s k value x mono).0 in
      let sound : IsSound t =
        silent-IsSound _ (set-IsSound s v r.sampled r.room k value x mono small) in
      (lookup-get t (Reference.set (shows s) k value x) now sound
        (set-set s (shows s) now v (λ j. refl) k value x mono r.unlimited).1 k now_mono).0
      ∙ get-set (shows s) k value x now h

module _ {ℓ} {X : Type ℓ} (v : Server X) (k : Key) (keyed : is_empty k ≡ false) where
  run-get :
      (s : Saved X) (q : Request X)
      → (run v get s q (get_command k)).1
        ≡ found
            (λ b. reply status_ok (encode_value_body [] b))
            (lookup s.engine.shard k q.now_ms q.now_mono).1
  unfolding run Reads.get
  run-get s q = rw keyed refl

  module _ (s : Saved X) (q : Request X) (value : List ℕ) (ttl : ℕ) where
    abbrev set_engine : Engine X × Option (Engine.Error X)
    set_engine = Engine.set s.engine k value ttl q.now_ms q.now_mono

    abbrev IsStored : Saved X × Reply → Type ℓ
    IsStored r = (set_engine.1 ≡ none) × (r.0.engine ≡ set_engine.0)

    run-set_ok :
        (run v set s q (set_command k value ttl)).1.status ≡ status_ok
        → IsStored (run v set s q (set_command k value ttl))
    unfolding run
    run-set_ok h =
        let inner : (run_set v s q (set_command k value ttl)).1.status ≡ status_ok =
          rw keyed at h in
        rw keyed (elim (Bool-cases (ltb v.max_value_len (length value))) [
          | inl e ↦ let bad : status_too_large ≡ status_ok = rw e at inner in absurd (omega arith)
          | inr e ↦
              let answered : (set_reply v (failure_of v set_engine.1 q.wait)).status ≡ status_ok =
                rw e at inner in
              rw e (failure_none v set_engine.1 q.wait (set_reply_ok v _ answered), refl)
        ])

-- A command that is sent in a frame is decoded as it was, and run.
pub answer_command {ℓ} :
    {X : Type ℓ} (v : Server X) (s : Saved X) (q : Request X) (cmd : Command) (id : ℕ)
    → valid cmd.op ≡ true
    → InRange cmd
    → answer v s q (request_frame cmd id) ≡ run v cmd.op s q (restrict cmd.op cmd)
answer_command v s q cmd id known fits =
    let e = of_code-code cmd.op known in
    let f = request_frame cmd id in
    let d : decode_command (of_code f.header.code) f.body ≡ (restrict cmd.op cmd, none) =
      rw e (decode_command-encode_command cmd known fits) in
    answer-run v s q f (ap (λ (p : Command × Option Limits.Error). p.1) d)
    ∙ ap (λ (p : Command × Option Limits.Error). run v (of_code f.header.code) s q p.0) d
    ∙ ap (λ o. run v o s q (restrict cmd.op cmd)) e

module _ {ℓ} {X : Type ℓ} (v : Server X) (k : Key) (keyed : is_empty k ≡ false) (s : Saved X)
    (sound : IsSound s.engine.shard) (r : IsRoomy s.engine.shard) (value : List ℕ) (ttl : ℕ)
    (fits : InRange (set_command k value ttl)) where
  small_entry : entry_cost (length k) (length value) < 2 ^ 32
  unfolding entry_cost
  small_entry = omega (arith, fits.key_fits, fits.value_fits)

  get_fits : InRange (get_command k)
  get_fits = record {
    key_fits = fits.key_fits;
    value_fits = omega arith;
    ttl_fits = omega arith;
    limit_fits = omega arith;
    lsn_fits = omega arith;
    id_fits = omega arith;
    port_fits = omega arith;
  }

  -- Take a server over a sound shard without a memory limit, with sampled eviction and room in its
  -- slices. A client that has sent a SET frame, of a key that is not empty and of fields in range,
  -- and whose response has the status OK, and then sends a GET frame of the key at a time before
  -- the deadline, is answered OK with the value.
  pub answer-answer :
      (q q' : Request X) (id id' : ℕ)
      → (answer v s q (request_frame (set_command k value ttl) id)).1.status ≡ status_ok
      → is_expired (deadline ttl q.now_ms) q'.now_ms ≡ false
      → (answer v
          (answer v s q (request_frame (set_command k value ttl) id)).0
          q'
          (request_frame (get_command k) id')).1
        ≡ reply status_ok (encode_value_body [] value)
  unfolding restrict valid
  answer-answer q q' id id' h before =
      let put = answer_command v s q (set_command k value ttl) id refl fits in
      let (ok, stored) = run-set_ok v k keyed s q value ttl (rw put at h) in
      let after = (run v set s q (set_command k value ttl)).0 in
      let shard =
        ap (λ (e : Engine X). e.shard) stored
        ∙ set_shard s.engine k value ttl q.now_ms q.now_mono ok in
      rw (put, answer_command v after q' (get_command k) id' refl get_fits)
        (run-get v k keyed after q'
          ∙ rw
              (
                shard,
                lookup-set s.engine.shard sound r k value (deadline ttl q.now_ms) q.now_mono
                    small_entry q'.now_ms q'.now_mono before,
              )
              refl)
