-- ===== src/Server/Texts.antt =====
-- The messages of internal/server/dispatch.go, as their bytes.
use kvstore.Prelude.{ℕ, List, [], ◌∷◌}

-- "unknown opcode"
abbrev pub unknown_opcode : List ℕ
unknown_opcode =
    0x75 ∷ 0x6E ∷ 0x6B ∷ 0x6E ∷ 0x6F ∷ 0x77 ∷ 0x6E ∷ 0x20 ∷ 0x6F ∷ 0x70 ∷ 0x63 ∷ 0x6F ∷ 0x64 ∷ 0x65
    ∷ []

-- "empty key"
abbrev pub empty_key : List ℕ
empty_key = 0x65 ∷ 0x6D ∷ 0x70 ∷ 0x74 ∷ 0x79 ∷ 0x20 ∷ 0x6B ∷ 0x65 ∷ 0x79 ∷ []

-- "value exceeds max-value-len"
abbrev pub value_exceeds : List ℕ
value_exceeds =
    0x76 ∷ 0x61 ∷ 0x6C ∷ 0x75 ∷ 0x65 ∷ 0x20 ∷ 0x65 ∷ 0x78 ∷ 0x63 ∷ 0x65 ∷ 0x65 ∷ 0x64 ∷ 0x73 ∷ 0x20
    ∷ 0x6D ∷ 0x61 ∷ 0x78 ∷ 0x2D ∷ 0x76 ∷ 0x61 ∷ 0x6C ∷ 0x75 ∷ 0x65 ∷ 0x2D ∷ 0x6C ∷ 0x65 ∷ 0x6E ∷ []

-- "memory limit reached under the current policy"
abbrev pub memory_policy : List ℕ
memory_policy =
    0x6D ∷ 0x65 ∷ 0x6D ∷ 0x6F ∷ 0x72 ∷ 0x79 ∷ 0x20 ∷ 0x6C ∷ 0x69 ∷ 0x6D ∷ 0x69 ∷ 0x74 ∷ 0x20 ∷ 0x72
    ∷ 0x65 ∷ 0x61 ∷ 0x63 ∷ 0x68 ∷ 0x65 ∷ 0x64 ∷ 0x20 ∷ 0x75 ∷ 0x6E ∷ 0x64 ∷ 0x65 ∷ 0x72 ∷ 0x20
    ∷ 0x74 ∷ 0x68 ∷ 0x65 ∷ 0x20 ∷ 0x63 ∷ 0x75 ∷ 0x72 ∷ 0x72 ∷ 0x65 ∷ 0x6E ∷ 0x74 ∷ 0x20 ∷ 0x70
    ∷ 0x6F ∷ 0x6C ∷ 0x69 ∷ 0x63 ∷ 0x79 ∷ []

-- "this node is a read-only replica"
abbrev pub read_only_replica : List ℕ
read_only_replica =
    0x74 ∷ 0x68 ∷ 0x69 ∷ 0x73 ∷ 0x20 ∷ 0x6E ∷ 0x6F ∷ 0x64 ∷ 0x65 ∷ 0x20 ∷ 0x69 ∷ 0x73 ∷ 0x20 ∷ 0x61
    ∷ 0x20 ∷ 0x72 ∷ 0x65 ∷ 0x61 ∷ 0x64 ∷ 0x2D ∷ 0x6F ∷ 0x6E ∷ 0x6C ∷ 0x79 ∷ 0x20 ∷ 0x72 ∷ 0x65
    ∷ 0x70 ∷ 0x6C ∷ 0x69 ∷ 0x63 ∷ 0x61 ∷ []

-- "memory limit reached"
abbrev pub memory_limit : List ℕ
memory_limit =
    0x6D ∷ 0x65 ∷ 0x6D ∷ 0x6F ∷ 0x72 ∷ 0x79 ∷ 0x20 ∷ 0x6C ∷ 0x69 ∷ 0x6D ∷ 0x69 ∷ 0x74 ∷ 0x20 ∷ 0x72
    ∷ 0x65 ∷ 0x61 ∷ 0x63 ∷ 0x68 ∷ 0x65 ∷ 0x64 ∷ []

-- "server is shutting down"
abbrev pub shutting_down : List ℕ
shutting_down =
    0x73 ∷ 0x65 ∷ 0x72 ∷ 0x76 ∷ 0x65 ∷ 0x72 ∷ 0x20 ∷ 0x69 ∷ 0x73 ∷ 0x20 ∷ 0x73 ∷ 0x68 ∷ 0x75 ∷ 0x74
    ∷ 0x74 ∷ 0x69 ∷ 0x6E ∷ 0x67 ∷ 0x20 ∷ 0x64 ∷ 0x6F ∷ 0x77 ∷ 0x6E ∷ []

-- "replication is not enabled on this node"
abbrev pub not_enabled : List ℕ
not_enabled =
    0x72 ∷ 0x65 ∷ 0x70 ∷ 0x6C ∷ 0x69 ∷ 0x63 ∷ 0x61 ∷ 0x74 ∷ 0x69 ∷ 0x6F ∷ 0x6E ∷ 0x20 ∷ 0x69 ∷ 0x73
    ∷ 0x20 ∷ 0x6E ∷ 0x6F ∷ 0x74 ∷ 0x20 ∷ 0x65 ∷ 0x6E ∷ 0x61 ∷ 0x62 ∷ 0x6C ∷ 0x65 ∷ 0x64 ∷ 0x20
    ∷ 0x6F ∷ 0x6E ∷ 0x20 ∷ 0x74 ∷ 0x68 ∷ 0x69 ∷ 0x73 ∷ 0x20 ∷ 0x6E ∷ 0x6F ∷ 0x64 ∷ 0x65 ∷ []

-- "replication frame reached the normal dispatcher"
abbrev pub reached_dispatcher : List ℕ
reached_dispatcher =
    0x72 ∷ 0x65 ∷ 0x70 ∷ 0x6C ∷ 0x69 ∷ 0x63 ∷ 0x61 ∷ 0x74 ∷ 0x69 ∷ 0x6F ∷ 0x6E ∷ 0x20 ∷ 0x66 ∷ 0x72
    ∷ 0x61 ∷ 0x6D ∷ 0x65 ∷ 0x20 ∷ 0x72 ∷ 0x65 ∷ 0x61 ∷ 0x63 ∷ 0x68 ∷ 0x65 ∷ 0x64 ∷ 0x20 ∷ 0x74
    ∷ 0x68 ∷ 0x65 ∷ 0x20 ∷ 0x6E ∷ 0x6F ∷ 0x72 ∷ 0x6D ∷ 0x61 ∷ 0x6C ∷ 0x20 ∷ 0x64 ∷ 0x69 ∷ 0x73
    ∷ 0x70 ∷ 0x61 ∷ 0x74 ∷ 0x63 ∷ 0x68 ∷ 0x65 ∷ 0x72 ∷ []
