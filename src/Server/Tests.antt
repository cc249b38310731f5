-- ===== src/Server/Tests.antt =====
-- The theorems on the server, on a small one.
use kvstore.Prelude.{ℕ, ◌≤◌, ◌≡◌, refl, false, none, [], ◌∷◌, ◌++◌, arith, length}
use kvstore.Protocol.Limits
use kvstore.Protocol.Limits.{max_frame_len, status_ok}
use kvstore.Protocol.Opcode.{valid}
use kvstore.Protocol.Frame.{Frame, read_frame}
use kvstore.Protocol.Frame.Stream.{grown}
use kvstore.Protocol.Command.RoundTrip.{InRange, restrict}
use kvstore.Protocol.Bodies.{encode_value_body}
use kvstore.Store.Entry.{is_expired}
use kvstore.Store.Shard.{new_shard}
use kvstore.Store.Evict.{admit}
use kvstore.Store.Operations
use kvstore.Store.Operations.{set_at, insert}
use kvstore.Wal.Record
use kvstore.Wal.Writer.{submit, open_new}
use kvstore.Engine
use kvstore.Engine.{deadline, deliver, mutate, set_record}
use kvstore.Engine.Sample.{letter, fresh, fresh-IsSound, fresh-IsRoomy, saved_with, disk}
use kvstore.Server.Dispatch.{Server, Request, json, done, reply, set_reply, run, answer, execute}
use kvstore.Server.Dispatch.Framed.{header_of, read_frame-execute}
use kvstore.Server.Dispatch.SetGet.{
  request_frame, set_command, get_command, answer_command, answer-answer,
}

abbrev server : Server ℕ
server = record {
  max_value_len = 100;
  has_repl_handler = false;
  decode_text = λ e. [];
  failure_text = λ e. [];
  stats_json = λ s. json [];
  snapshot_path = λ s. [];
}

abbrev at_ten : Request ℕ
at_ten = record { now_ms = 10; now_mono = 1; wait = none; disk = disk }

abbrev at_twelve : Request ℕ
at_twelve = record { now_ms = 12; now_mono = 3; wait = none; disk = disk }

-- A GET frame whose body is cut.
abbrev cut_get : Frame
cut_get = record {
  header = record {
    version = Limits.version;
    code = 2;
    flags = 0;
    reserved = 0;
    request_id = 4;
    body_len = 1;
  };
  body = 1 ∷ [];
}

set_fits : InRange (set_command letter letter 50)
set_fits = record {
  key_fits = omega arith;
  value_fits = omega arith;
  ttl_fits = omega arith;
  limit_fits = omega arith;
  lsn_fits = omega arith;
  id_fits = omega arith;
  port_fits = omega arith;
}

abbrev put : Frame
put = request_frame (set_command letter letter 50) 4

put_done : (answer server (saved_with fresh) at_ten put).1 ≡ done
unfolding run restrict valid set_reply Engine.set mutate deliver submit open_new new_shard
    set_record Operations.set set_at admit insert Record.valid
put_done =
    rw
      (answer_command server (saved_with fresh) at_ten (set_command letter letter 50) 4 refl
        set_fits)
      refl

set_answered : (answer server (saved_with fresh) at_ten put).1.status ≡ status_ok
set_answered = rw put_done refl

alive : is_expired (deadline 50 10) 12 ≡ false
unfolding is_expired deadline
alive = refl

answer-answer_example :
    (answer server
      (answer server (saved_with fresh) at_ten put).0
      at_twelve
      (request_frame (get_command letter) 5)).1
    ≡ reply status_ok (encode_value_body [] letter)
answer-answer_example =
    answer-answer server letter refl (saved_with fresh) fresh-IsSound fresh-IsRoomy letter 50
      set_fits at_ten at_twelve 4 5 set_answered alive

no_body : length (answer server (saved_with fresh) at_ten put).1.body ≤ max_frame_len
no_body = rw put_done (omega arith)

read_frame-execute_example :
    read_frame 0 0 ((execute server (saved_with fresh) at_ten put []).1 ++ (1 ∷ [])) ≡ record {
      frame = record {
        header = header_of server (saved_with fresh) at_ten put;
        body = (answer server (saved_with fresh) at_ten put).1.body;
      };
      cap = grown 0 (length (answer server (saved_with fresh) at_ten put).1.body);
      error = none;
      stream = 1 ∷ [];
    }
read_frame-execute_example =
    read_frame-execute server (saved_with fresh) at_ten put 0 (1 ∷ []) (omega arith) no_body
