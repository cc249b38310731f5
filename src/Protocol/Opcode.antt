-- ===== src/Protocol/Opcode.antt =====
-- internal/protocol/opcode.go. An opcode is a byte: one of the declared constants or another byte.
use kvstore.Prelude.{ℕ, Bool, true, false, ◌≡◌, refl, arith, ◌==◌, if◌then◌else◌}

pub data Opcode : Type 0 where
  ping get set delete exists expire stats ttl flush snapshot keys : Opcode
  repl_conf sync repl_ack promote : Opcode
  other : ℕ → Opcode

-- The byte of an opcode on the wire.
unfoldable pub code : Opcode → ℕ
code ping = 0x01
code get = 0x02
code set = 0x03
code delete = 0x04
code exists = 0x05
code expire = 0x06
code stats = 0x07
code ttl = 0x08
code flush = 0x09
code snapshot = 0x0A
code keys = 0x0B
code repl_conf = 0x10
code sync = 0x11
code repl_ack = 0x12
code promote = 0x13
code (other n) = n

-- Opcode(f.Code)
unfoldable pub of_code : ℕ → Opcode
of_code n =
    if n == 0x01
    then ping
    else if n == 0x02
    then get
    else if n == 0x03
    then set
    else if n == 0x04
    then delete
    else if n == 0x05
    then exists
    else if n == 0x06
    then expire
    else if n == 0x07
    then stats
    else if n == 0x08
    then ttl
    else if n == 0x09
    then flush
    else if n == 0x0A
    then snapshot
    else if n == 0x0B
    then keys
    else if n == 0x10
    then repl_conf
    else if n == 0x11
    then sync
    else if n == 0x12
    then repl_ack
    else if n == 0x13
    then promote
    else other n

unfoldable pub valid : Opcode → Bool
valid (other n) = false
valid op = true

unfoldable pub is_mutation : Opcode → Bool
is_mutation set = true
is_mutation delete = true
is_mutation expire = true
is_mutation flush = true
is_mutation op = false

-- Every byte is kept: the opcode that is read from it, known or not, has that byte.
code-of_code : (n : ℕ) → code (of_code n) ≡ n
unfolding code of_code
code-of_code n = ground arith

-- A known opcode is read back from its byte.
pub of_code-code : (op : Opcode) → valid op ≡ true → of_code (code op) ≡ op
unfolding code of_code valid
of_code-code (other n) h = cc
of_code-code op h = refl
